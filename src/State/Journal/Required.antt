-- ===== src/State/Journal/Required.antt =====
-- Which transactions are unfinished, read off the journal itself.
use siorb.Shared.{
  Bool, true, false, ◌&&◌, ◌||◌, Option, none, some, String, ◌==◌, ◌≡◌, refl, ap, ◌∙◌, List, [],
  ◌∷◌, map, Map, Set, get, keys, contains, insert, upsert, keep, any, is_empty, Distinct, arith,
  eq_iff, get-upsert, upsert-Distinct, any-get, value_or,
}
use siorb.State.Journal.{
  JournalState, JournalEvent, ReconciliationStatus, Accumulator, empty_accumulator, note,
  accumulate, partial_mutation, judge, statuses, unfinished_transactions,
}

-- The transaction's own events, in order.
abbrev pub events_of : String → List JournalEvent → List JournalEvent
events_of t journal = keep (λ (e : JournalEvent). e.transaction_id == t) journal

abbrev pub last_event : List JournalEvent → Option JournalEvent
last_event [] = none
last_event (e ∷ []) = some e
last_event (e ∷ f ∷ rest) = last_event (f ∷ rest)

-- A step was completed, or a receipt committed.
abbrev pub mutates : JournalState → Option String → Bool
mutates JournalState.step_completed none = false
mutates JournalState.step_completed (some step) = true
mutates JournalState.receipt_committed step = true
mutates _ step = false

abbrev pub mutated : List JournalEvent → Bool
mutated events = any (λ (e : JournalEvent). mutates e.state e.step_id) events

-- The journal ends with the transaction open, or failed after a change of the machine.
abbrev pub open_after : JournalState → Bool → Bool
open_after JournalState.transaction_completed changed = false
open_after JournalState.reconciled changed = false
open_after JournalState.transaction_failed changed = changed
open_after _ changed = true

abbrev pub is_open : List JournalEvent → Bool
is_open events = elim (last_event events) [
  | none ↦ false
  | some e ↦ open_after e.state (mutated events)
]

-- What the loop has of a transaction after its events.
summary : Accumulator → List JournalEvent → Accumulator
summary a [] = a
summary a (e ∷ events) = summary (note e a) events

-- The accumulator at a key after the journal is the summary of the key's events.
found_after : Option Accumulator → List JournalEvent → Option Accumulator
found_after found [] = found
found_after found (e ∷ events) = some (summary (note e (value_or empty_accumulator found)) events)

get-accumulate :
    (t : String) (m : Map Accumulator) (journal : List JournalEvent)
    → get (accumulate m journal) t ≡ found_after (get m t) (events_of t journal)
unfolding accumulate found_after summary
get-accumulate t m [] = refl
get-accumulate t m (e ∷ journal) = ground (
  arith,
  eq_iff e.transaction_id t,
  get-upsert e.transaction_id t (note e) empty_accumulator m,
  get-accumulate t (upsert e.transaction_id (note e) empty_accumulator m) journal,
)

accumulate-Distinct :
    (m : Map Accumulator) (journal : List JournalEvent)
    → Distinct (keys m)
    → Distinct (keys (accumulate m journal))
unfolding accumulate
accumulate-Distinct m [] d = d
accumulate-Distinct m (e ∷ journal) d =
    accumulate-Distinct (upsert e.transaction_id (note e) empty_accumulator m) journal
      (upsert-Distinct e.transaction_id (note e) empty_accumulator m d)

is_empty-insert : (k : String) (m : Set) → is_empty (insert k tt m) ≡ false
unfolding insert
is_empty-insert k [] = refl
is_empty-insert k (e ∷ m) = ground arith

partial_mutation-note :
    (e : JournalEvent) (a : Accumulator)
    → partial_mutation (note e a) ≡ (partial_mutation a || mutates e.state e.step_id)
unfolding partial_mutation note
partial_mutation-note e a =
    elim e.step_id
      as (λ step.
        partial_mutation (note (record e { step_id = step }) a)
        ≡ (partial_mutation a || mutates e.state step)) [
          | none ↦ ground arith
          | some step ↦ ground (arith, is_empty-insert step a.completed)
        ]

partial_mutation-summary :
    (a : Accumulator) (events : List JournalEvent)
    → partial_mutation (summary a events) ≡ (partial_mutation a || mutated events)
unfolding summary
partial_mutation-summary a [] = ground arith
partial_mutation-summary a (e ∷ events) =
    ground (arith, partial_mutation-note e a, partial_mutation-summary (note e a) events)

last_state-note : (e : JournalEvent) (a : Accumulator) → (note e a).last_state ≡ some e.state
unfolding note
last_state-note e a = ground arith

-- A summary of some event ends in the state of the last one.
last_state-summary :
    (a : Accumulator) (e : JournalEvent) (events : List JournalEvent)
    → (summary (note e a) events).last_state
      ≡ elim (last_event (e ∷ events)) [ none ↦ none | some f ↦ some f.state ]
unfolding summary
last_state-summary a e [] = last_state-note e a
last_state-summary a e (f ∷ events) = last_state-summary (note e a) f events

-- `required`, as `statuses` decides it.
required : Accumulator → Bool
required a = elim a.last_state [ none ↦ false | some s ↦ (judge s (partial_mutation a)).0 ]

judge-open_after : (s : JournalState) (partial : Bool) → (judge s partial).0 ≡ open_after s partial
unfolding judge
judge-open_after s partial = ground arith

contains-statuses :
    (t : String) (m : Map Accumulator)
    → contains
        (map
          (λ (s : ReconciliationStatus). s.transaction_id)
          (keep (λ (s : ReconciliationStatus). s.required) (statuses m)))
        t
      ≡ any (λ (e : String × Accumulator). e.0 == t && required e.1) m
unfolding statuses required
contains-statuses t [] = refl
contains-statuses t ((k, a) ∷ m) = ground (arith, contains-statuses t m)

required_lem :
    (a : Accumulator) (last : Option JournalEvent) (changed : Bool)
    → a.last_state ≡ elim last [ none ↦ none | some f ↦ some f.state ]
    → partial_mutation a ≡ changed
    → required a ≡ elim last [ none ↦ false | some f ↦ open_after f.state changed ]
unfolding required
required_lem a none changed p q = ground (arith, p)
required_lem a (some f) changed p q = ground (arith, p, q, judge-open_after f.state changed)

mutated-summary :
    (e : JournalEvent) (events : List JournalEvent)
    → partial_mutation (summary (note e empty_accumulator) events) ≡ mutated (e ∷ events)
unfolding partial_mutation
mutated-summary e events = ground (
  arith,
  partial_mutation-note e empty_accumulator,
  partial_mutation-summary (note e empty_accumulator) events,
)

required-found :
    (events : List JournalEvent)
    → elim (found_after none events) [ none ↦ false | some a ↦ required a ] ≡ is_open events
unfolding found_after
required-found [] = refl
required-found (e ∷ events) =
    required_lem (summary (note e empty_accumulator) events) (last_event (e ∷ events))
      (mutated (e ∷ events)) (last_state-summary empty_accumulator e events)
      (mutated-summary e events)

-- A transaction is listed as unfinished exactly if its own events in the journal end in a state
-- other than completed or reconciled, where a failure counts only if one of its events completed
-- a named step or committed a receipt. Events of other transactions change nothing.
pub contains-unfinished_transactions :
    (t : String) (journal : List JournalEvent)
    → contains (unfinished_transactions journal) t ≡ is_open (events_of t journal)
unfolding unfinished_transactions get
contains-unfinished_transactions t journal =
    contains-statuses t (accumulate [] journal)
    ∙ any-get t required (accumulate [] journal) (accumulate-Distinct [] journal tt)
    ∙ ap (λ (o : Option Accumulator). elim o [ none ↦ false | some a ↦ required a ])
        (get-accumulate t [] journal)
    ∙ required-found (events_of t journal)
