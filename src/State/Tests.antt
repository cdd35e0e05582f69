-- ===== src/State/Tests.antt =====
-- A small store and what its operations do.
use siorb.Shared.{
  upsert, insert, true, false, ◌≡◌, ◌≢◌, ◌≤◌, refl, String, ◌==◌, text_empty, split_on, len, Option,
  none, some, List, [], ◌∷◌, map, contains, contains_key, ◌⊎◌, if◌then◌else◌,
}
use siorb.Core.Errors.{ok, err}
use siorb.Core.Platform.{Scope}
use siorb.State.Journal.{JournalState, JournalEvent, unfinished_transactions}
use siorb.State.Journal.Required.{events_of, is_open, contains-unfinished_transactions}
use siorb.State.Store.{
  StateStore, Receipt, ReceiptOrigin, VerificationStatus, empty_store, state_error,
  validate_component, write_receipt, installed_snapshot, mark_reconciled, pin, unpin, hold, unhold,
}
use siorb.State.Store.Reconcile.{is_unfinished, mark_reconciled-closes}
use siorb.State.Store.Snapshot.{repin, rehold, installed_snapshot-pin, installed_snapshot-hold}
use siorb.State.Store.Names.{validate_component-one}

abbrev event : String → Option String → JournalState → JournalEvent
event transaction_id step_id state = record {
  schema_version = "1.0";
  transaction_id = transaction_id;
  plan_id = "plan";
  step_id = step_id;
  timestamp_unix = 5;
  state = state;
  detail = "d";
}

-- One transaction fails after a step, one is interrupted and one is complete.
abbrev journal : List JournalEvent
journal =
    event "t1" none JournalState.transaction_started
    ∷ event "t2" none JournalState.transaction_started
    ∷ event "t1" (some "s1") JournalState.step_completed
    ∷ event "t3" none JournalState.transaction_started
    ∷ event "t1" none JournalState.transaction_failed
    ∷ event "t3" none JournalState.transaction_completed
    ∷ []

abbrev receipt : Receipt
receipt = record {
  schema_version = "1.0";
  logical_id = "jq";
  native_id = "jq";
  backend = "apt";
  source_id = "jq-apt";
  requested_version = none;
  observed_version = some "1.7";
  scope = Scope.system;
  channel = "stable";
  architecture = "x86_64";
  catalog_fingerprint = "f";
  policy_fingerprint = none;
  installed_at_unix = 5;
  verification = record { status = VerificationStatus.verified; checked_at_unix = 5; reason = "" };
  owned_files = [];
  transaction_id = "t3";
  origin = ReceiptOrigin.installed;
}

abbrev store : StateStore
store = record empty_store { receipt_files = ("jq.json", receipt) ∷ []; events = journal }

unfinished : unfinished_transactions journal ≡ "t1" ∷ "t2" ∷ []
unfolding unfinished_transactions upsert
unfinished = refl

written : write_receipt receipt (record empty_store { events = journal }) ≡ ok store
unfolding write_receipt validate_component insert
written = refl

contains-unfinished_transactions_example :
    contains (unfinished_transactions journal) "t1" ≡ is_open (events_of "t1" journal)
contains-unfinished_transactions_example = contains-unfinished_transactions "t1" journal

mark_reconciled-closes_example :
    (is_unfinished store "t1" ≡ true)
      × ((store' : StateStore) × (mark_reconciled "t1" "seen" 9 store ≡ ok store')
          × ((u : String)
              → is_unfinished store' u ≡ (if "t1" == u then false else is_unfinished store u))
          × (store'.receipt_files ≡ store.receipt_files)
          × (store'.preferences ≡ store.preferences))
    ⊎ (is_unfinished store "t1" ≡ false)
      × (mark_reconciled "t1" "seen" 9 store ≡ err (state_error "state.reconcile.not_required"))
unfolding validate_component
mark_reconciled-closes_example = mark_reconciled-closes "t1" "seen" 9 store refl

installed_snapshot-pin_example :
    ((store' : StateStore) × (pin "jq" (some "1.7") store ≡ ok store')
      × (installed_snapshot store' ≡ map (repin "jq" (some "1.7")) (installed_snapshot store)))
    × (installed_snapshot (unpin "jq" store).0 ≡ map (repin "jq" none) (installed_snapshot store))
    × ((unpin "jq" store).1 ≡ contains_key store.preferences.pins "jq")
unfolding validate_component
installed_snapshot-pin_example = installed_snapshot-pin "jq" (some "1.7") store refl

installed_snapshot-hold_example :
    ((store' : StateStore) × (hold "jq" store ≡ ok store')
      × (installed_snapshot store' ≡ map (rehold "jq" true) (installed_snapshot store)))
    × (installed_snapshot (unhold "jq" store).0
        ≡ map (rehold "jq" false) (installed_snapshot store))
    × ((unhold "jq" store).1 ≡ contains_key store.preferences.holds "jq")
unfolding validate_component
installed_snapshot-hold_example = installed_snapshot-hold "jq" store refl

abbrev safe_name : String
safe_name = "jq-1.7"

validate_component-one_example :
    (text_empty safe_name ≡ false)
    × (len safe_name ≤ 128)
    × (safe_name ≢ ".")
    × (safe_name ≢ "..")
    × (split_on b'/' safe_name ≡ safe_name ∷ [])
    × (split_on 92 safe_name ≡ safe_name ∷ [])
unfolding validate_component
validate_component-one_example = validate_component-one safe_name refl
