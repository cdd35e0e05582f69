-- ===== src/State/Store/Reconcile.antt =====
-- What `mark_reconciled` does to the list of unfinished transactions.
use siorb.Shared.{
  ℕ, Bool, true, false, Option, Option-cases, inl, inr, none, some, String, ◌==◌, ◌≡◌, ◌⊎◌, refl,
  ◌∙◌, List, [], ◌∷◌, ◌++◌, map, contains, find, arith, if◌then◌else◌,
}
use siorb.Core.Errors.{ok, err}
use siorb.State.Journal.{
  JournalState, JournalEvent, ReconciliationStatus, unfinished_transactions,
  transactions_requiring_reconciliation,
}
use siorb.State.Journal.Required.{events_of, last_event, contains-unfinished_transactions}
use siorb.State.Store.{
  StateStore, state_schema, state_error, validate_component, append_event, mark_reconciled,
}

-- The transaction stands in the store's list of unfinished ones.
abbrev pub is_unfinished : StateStore → String → Bool
is_unfinished store t = contains (unfinished_transactions store.events) t

events_of-snoc :
    (t : String) (journal : List JournalEvent) (e : JournalEvent)
    → events_of t (journal ++ e ∷ [])
      ≡ (if e.transaction_id == t then events_of t journal ++ e ∷ [] else events_of t journal)
events_of-snoc t [] e = refl
events_of-snoc t (f ∷ journal) e = ground (arith, events_of-snoc t journal e)

last_event-snoc :
    (events : List JournalEvent) (e : JournalEvent) → last_event (events ++ e ∷ []) ≡ some e
last_event-snoc [] e = refl
last_event-snoc (f ∷ []) e = refl
last_event-snoc (f ∷ g ∷ events) e = last_event-snoc (g ∷ events) e

find-contains :
    (t : String) (l : List ReconciliationStatus)
    → contains (map (λ (s : ReconciliationStatus). s.transaction_id) l) t
      ≡ elim (find (λ (s : ReconciliationStatus). s.transaction_id == t) l) [
        | none ↦ false
        | some s ↦ true
      ]
find-contains t [] = refl
find-contains t (s ∷ l) = ground (arith, find-contains t l)

-- A reconciled event closes its transaction and leaves the others as they were.
unfinished-append :
    (e : JournalEvent) (store : StateStore) (t : String)
    → e.state ≡ JournalState.reconciled
    → contains (unfinished_transactions (store.events ++ e ∷ [])) t
      ≡ (if e.transaction_id == t then false else is_unfinished store t)
unfinished-append e store t h = ground (
  arith,
  h,
  contains-unfinished_transactions t (store.events ++ e ∷ []),
  contains-unfinished_transactions t store.events,
  events_of-snoc t store.events e,
  last_event-snoc (events_of t store.events) e,
)

abbrev pub reconciled_event : String → String → ℕ → ReconciliationStatus → JournalEvent
reconciled_event t detail now status = record {
  schema_version = state_schema;
  transaction_id = t;
  plan_id = status.plan_id;
  step_id = none;
  timestamp_unix = now;
  state = JournalState.reconciled;
  detail = detail;
}

abbrev pending : StateStore → String → Option ReconciliationStatus
pending store t =
    find (λ (s : ReconciliationStatus). s.transaction_id == t)
      (transactions_requiring_reconciliation store.events)

is_unfinished-pending :
    (store : StateStore) (t : String)
    → is_unfinished store t ≡ elim (pending store t) [ none ↦ false | some s ↦ true ]
unfolding unfinished_transactions
is_unfinished-pending store t = find-contains t (transactions_requiring_reconciliation store.events)

-- What a call comes to, by whether a pending status is found.
mark_reconciled-found :
    (t detail : String) (now : ℕ) (store : StateStore) (status : ReconciliationStatus)
    → validate_component t ≡ ok tt
    → pending store t ≡ some status
    → mark_reconciled t detail now store
      ≡ ok (record store { events = store.events ++ reconciled_event t detail now status ∷ [] })
unfolding mark_reconciled append_event
mark_reconciled-found t detail now store status valid h = rw (valid, h)

mark_reconciled-missing :
    (t detail : String) (now : ℕ) (store : StateStore)
    → validate_component t ≡ ok tt
    → pending store t ≡ none
    → mark_reconciled t detail now store ≡ err (state_error "state.reconcile.not_required")
unfolding mark_reconciled
mark_reconciled-missing t detail now store valid h = rw (valid, h)

-- For a transaction with a safe name, `mark_reconciled` answers by whether it is unfinished. If it
-- is, the call succeeds; then that transaction is finished and every other one is unfinished
-- exactly if it was before; receipts and preferences are kept. If not, the call fails with
-- `state.reconcile.not_required`.
pub mark_reconciled-closes :
    (t detail : String) (now : ℕ) (store : StateStore)
    → validate_component t ≡ ok tt
    → (is_unfinished store t ≡ true)
        × ((store' : StateStore) × (mark_reconciled t detail now store ≡ ok store')
            × ((u : String)
                → is_unfinished store' u ≡ (if t == u then false else is_unfinished store u))
            × (store'.receipt_files ≡ store.receipt_files)
            × (store'.preferences ≡ store.preferences))
      ⊎ (is_unfinished store t ≡ false)
        × (mark_reconciled t detail now store ≡ err (state_error "state.reconcile.not_required"))
mark_reconciled-closes t detail now store valid = elim (Option-cases (pending store t)) [
  | inl missing ↦ inr (
    is_unfinished-pending store t ∙ rw missing,
    mark_reconciled-missing t detail now store valid missing,
  )
  | inr (status, found) ↦ inl (
    is_unfinished-pending store t ∙ rw found,
    (
      record store { events = store.events ++ reconciled_event t detail now status ∷ [] },
      mark_reconciled-found t detail now store status valid found,
      λ u. unfinished-append (reconciled_event t detail now status) store u refl,
      refl,
      refl,
    ),
  )
]
