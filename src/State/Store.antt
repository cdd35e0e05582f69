-- ===== src/State/Store.antt =====
-- `StateStore`: what its files hold, and its operations.
pub mod Reconcile
pub mod Snapshot
pub mod Names
use siorb.Shared.{
  ℕ, Bool, true, false, ◌&&◌, ◌||◌, not, Option, none, some, String, ◌<>◌, len, ◌==◌, List, [], ◌∷◌,
  ◌++◌, map, Map, Set, get, contains_key, insert, remove, find, text_empty, chars_all, one_of,
  is_ascii_alphanumeric, ltb, if◌then◌else◌,
}
use siorb.Core.Errors.{
  Result, ok, err, ErrorKind, SiorbError, with_reason, ◌>>=◌, ◌>>◌, reject_if, ok_or,
}
use siorb.Core.Platform.{Scope, InstalledPackage}
use siorb.State.Journal.{
  JournalState, JournalEvent, ReconciliationStatus, transactions_requiring_reconciliation,
}

pub data ReceiptOrigin : Type 0 where
  installed adopted observed : ReceiptOrigin

pub data VerificationStatus : Type 0 where
  verified failed unavailable backend_completed : VerificationStatus

pub record VerificationRecord : Type 0 where
  pub status : VerificationStatus
  pub checked_at_unix : ℕ
  pub reason : String

pub record Receipt : Type 0 where
  pub schema_version : String
  pub logical_id : String
  pub native_id : String
  pub backend : String
  pub source_id : String
  pub requested_version : Option String
  pub observed_version : Option String
  pub scope : Scope
  pub channel : String
  pub architecture : String
  pub catalog_fingerprint : String
  pub policy_fingerprint : Option String
  pub installed_at_unix : ℕ
  pub verification : VerificationRecord
  pub owned_files : List String
  pub transaction_id : String
  pub origin : ReceiptOrigin

pub record Preferences : Type 0 where
  pub schema_version : String
  pub pins : Map (Option String)
  pub holds : Set

-- The receipts by file name, the preferences and the lines of the journal.
pub record StateStore : Type 0 where
  pub receipt_files : Map Receipt
  pub preferences : Preferences
  pub events : List JournalEvent

abbrev pub state_schema : String
state_schema = "1.0"

-- An empty directory: `preferences` answers with the defaults.
abbrev pub empty_store : StateStore
empty_store = record {
  receipt_files = [];
  preferences = record { schema_version = state_schema; pins = []; holds = [] };
  events = [];
}

-- `state_error`
abbrev pub state_error : String → SiorbError
state_error reason = with_reason ErrorKind.verification_failure reason

abbrev pub component_character : ℕ → Bool
component_character c = is_ascii_alphanumeric c || one_of "+-._" c

unfoldable pub validate_component : String → Result (Unit {0})
validate_component value =
    reject_if
      (text_empty value
        || ltb 128 (len value)
        || value == "."
        || value == ".."
        || not (chars_all component_character value))
      (state_error "state.identifier.unsafe")

-- The file name of `receipt_path`.
abbrev pub receipt_name : String → String
receipt_name logical_id = logical_id <> ".json"

unfoldable pub write_receipt : Receipt → StateStore → Result StateStore
write_receipt receipt store = do
  validate_component receipt.logical_id
  ok (record store {
    receipt_files = insert (receipt_name receipt.logical_id) receipt store.receipt_files;
  })

unfoldable pub remove_receipt : String → StateStore → Result StateStore
remove_receipt logical_id store = do
  validate_component logical_id
  ok (record store { receipt_files = remove (receipt_name logical_id) store.receipt_files })

abbrev values {ℓ} : {V : Type ℓ} → Map V → List V
values [] = []
values ((k, v) ∷ m) = v ∷ values m

-- `receipts`, in the order of the paths.
unfoldable pub receipts : StateStore → List Receipt
receipts store = values store.receipt_files

abbrev flatten : Option (Option String) → Option String
flatten none = none
flatten (some version) = version

abbrev pub installed_from : Preferences → Receipt → InstalledPackage
installed_from preferences receipt = record {
  logical_id = receipt.logical_id;
  native_id = receipt.native_id;
  backend = receipt.backend;
  version = receipt.observed_version;
  scope = receipt.scope;
  receipt = true;
  held = contains_key preferences.holds receipt.logical_id;
  pinned = flatten (get preferences.pins receipt.logical_id);
}

unfoldable pub installed_snapshot : StateStore → List InstalledPackage
unfolding receipts
installed_snapshot store = map (installed_from store.preferences) (receipts store)

unfoldable pub append_event : JournalEvent → StateStore → Result StateStore
append_event event store = do
  validate_component event.transaction_id
  ok (record store { events = store.events ++ event ∷ [] })

unfoldable pub mark_reconciled : String → String → ℕ → StateStore → Result StateStore
mark_reconciled transaction_id detail now store = do
  validate_component transaction_id
  status ←
      ok_or
        (find (λ (s : ReconciliationStatus). s.transaction_id == transaction_id)
          (transactions_requiring_reconciliation store.events))
        (state_error "state.reconcile.not_required")
  append_event
      (record {
        schema_version = state_schema;
        transaction_id = transaction_id;
        plan_id = status.plan_id;
        step_id = none;
        timestamp_unix = now;
        state = JournalState.reconciled;
        detail = detail;
      })
      store

abbrev write_preferences : Preferences → StateStore → StateStore
write_preferences preferences store = record store { preferences = preferences }

unfoldable pub pin : String → Option String → StateStore → Result StateStore
pin name version store = do
  validate_component name
  let preferences = store.preferences
  ok (write_preferences (record preferences { pins = insert name version preferences.pins }) store)

unfoldable pub unpin : String → StateStore → StateStore × Bool
unpin name store =
    let preferences = store.preferences in
    (
      write_preferences (record preferences { pins = remove name preferences.pins }) store,
      contains_key preferences.pins name,
    )

unfoldable pub hold : String → StateStore → Result StateStore
hold name store = do
  validate_component name
  let preferences = store.preferences
  ok (write_preferences (record preferences { holds = insert name tt preferences.holds }) store)

unfoldable pub unhold : String → StateStore → StateStore × Bool
unhold name store =
    let preferences = store.preferences in
    (
      write_preferences (record preferences { holds = remove name preferences.holds }) store,
      contains_key preferences.holds name,
    )
