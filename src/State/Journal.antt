-- ===== src/State/Journal.antt =====
-- The journal and what it says of each transaction: `StateStore::reconciliation_statuses`.
pub mod Required
use siorb.Shared.{
  ℕ, Bool, true, false, ◌&&◌, ◌||◌, not, Option, none, some, String, ◌==◌, List, [], ◌∷◌, map, Map,
  Set, insert, upsert, keys, keep, is_empty, if◌then◌else◌,
}

pub data JournalState : Type 0 where
  transaction_started step_started step_completed step_failed verification_completed : JournalState
  receipt_committed transaction_completed transaction_failed reconciled : JournalState

pub record JournalEvent : Type 0 where
  pub schema_version : String
  pub transaction_id : String
  pub plan_id : String
  pub step_id : Option String
  pub timestamp_unix : ℕ
  pub state : JournalState
  pub detail : String

pub record ReconciliationStatus : Type 0 where
  pub transaction_id : String
  pub plan_id : String
  pub last_state : JournalState
  pub completed_steps : List String
  pub failed_steps : List String
  pub receipt_committed : Bool
  pub required : Bool
  pub reason_code : String

pub record Accumulator : Type 0 where
  pub plan_id : String
  pub last_state : Option JournalState
  pub completed : Set
  pub failed : Set
  pub receipt_committed : Bool

-- `Accumulator::default`
abbrev pub empty_accumulator : Accumulator
empty_accumulator = record {
  plan_id = "";
  last_state = none;
  completed = [];
  failed = [];
  receipt_committed = false;
}

abbrev insert_step : Option String → Set → Set
insert_step none steps = steps
insert_step (some step) steps = insert step tt steps

abbrev record_state : JournalState → Option String → Accumulator → Accumulator
record_state JournalState.step_completed step a = record a {
  completed = insert_step step a.completed;
}
record_state JournalState.step_failed step a = record a { failed = insert_step step a.failed }
record_state JournalState.receipt_committed step a = record a { receipt_committed = true }
record_state _ step a = a

-- The body of the loop over the journal, on the entry of the event's transaction.
unfoldable pub note : JournalEvent → Accumulator → Accumulator
note event a =
    record_state event.state event.step_id
      (record a { plan_id = event.plan_id; last_state = some event.state })

unfoldable pub accumulate : Map Accumulator → List JournalEvent → Map Accumulator
accumulate transactions [] = transactions
accumulate transactions (event ∷ rest) =
    accumulate (upsert event.transaction_id (note event) empty_accumulator transactions) rest

unfoldable pub partial_mutation : Accumulator → Bool
partial_mutation a = a.receipt_committed || not (is_empty a.completed)

-- `required` and the reason code.
unfoldable pub judge : JournalState → Bool → Bool × String
judge JournalState.transaction_completed partial = (false, "state.transaction.terminal")
judge JournalState.reconciled partial = (false, "state.transaction.terminal")
judge JournalState.transaction_failed true = (true, "state.transaction.partial_failure")
judge JournalState.transaction_failed false = (false, "state.transaction.failed_without_mutation")
judge _ partial = (true, "state.transaction.interrupted")

abbrev pub status_of : String → Accumulator → JournalState → ReconciliationStatus
status_of transaction_id a last_state =
    let (required, reason_code) = judge last_state (partial_mutation a) in
    record {
      transaction_id = transaction_id;
      plan_id = a.plan_id;
      last_state = last_state;
      completed_steps = keys a.completed;
      failed_steps = keys a.failed;
      receipt_committed = a.receipt_committed;
      required = required;
      reason_code = reason_code;
    }

-- The `filter_map` over the transactions.
unfoldable pub statuses : Map Accumulator → List ReconciliationStatus
unfolding partial_mutation judge
statuses [] = []
statuses ((transaction_id, a) ∷ rest) =
    let others = statuses rest in
    elim a.last_state [
      | none ↦ others
      | some last_state ↦ status_of transaction_id a last_state ∷ others
    ]

unfoldable pub reconciliation_statuses : List JournalEvent → List ReconciliationStatus
unfolding statuses accumulate note
reconciliation_statuses journal = statuses (accumulate [] journal)

unfoldable pub transactions_requiring_reconciliation : List JournalEvent → List ReconciliationStatus
unfolding reconciliation_statuses
transactions_requiring_reconciliation journal =
    keep (λ (s : ReconciliationStatus). s.required) (reconciliation_statuses journal)

unfoldable pub unfinished_transactions : List JournalEvent → List String
unfolding transactions_requiring_reconciliation
unfinished_transactions journal =
    map (λ (s : ReconciliationStatus). s.transaction_id)
      (transactions_requiring_reconciliation journal)
