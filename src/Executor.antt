-- ===== src/Executor.antt =====
-- crates/siorb-executor/src/lib.rs: the checks before the first step runs, and the receipts after
-- the last.
pub mod Guards
pub mod Receipts
mod Tests
use siorb.Shared.{Bool, true, false, not, ◌&&◌, ◌||◌, ◌==◌, Option, String, any, if◌then◌else◌}
use siorb.Core.Platform.{Operation, operation_eq}
use siorb.State.Journal.{JournalState}
use siorb.Planner.{PlanStep, StepKind, ExecutionPlan}

pub record ExecutionOptions : Type 0 where
  pub consent : Bool
  pub interactive_consent : Bool
  pub policy_confirmation_required : Bool
  pub offline : Bool
  pub non_interactive : Bool
  pub accept_agreements : Bool
  pub privilege_broker : Option String

abbrev delegates_change : Operation → Bool
delegates_change Operation.verify = false
delegates_change Operation.adopt = false
delegates_change _ = true

-- `step_commits_machine_state`
unfoldable pub step_commits_machine_state : Operation → StepKind → Bool
step_commits_machine_state operation StepKind.backend = delegates_change operation
step_commits_machine_state operation StepKind.extract =
    not (operation_eq operation Operation.verify)
step_commits_machine_state operation StepKind.installer =
    not (operation_eq operation Operation.verify)
step_commits_machine_state operation StepKind.receipt =
    not (operation_eq operation Operation.verify)
step_commits_machine_state operation _ = false

abbrev is_backend_kind : StepKind → Bool
is_backend_kind StepKind.backend = true
is_backend_kind _ = false

-- `step_completion_state`
unfoldable pub step_completion_state : Operation → StepKind → JournalState
step_completion_state operation kind =
    if step_commits_machine_state operation kind
      || (operation_eq operation Operation.adopt && is_backend_kind kind)
    then JournalState.step_completed
    else JournalState.verification_completed

-- The steps of the package that change the machine.
abbrev pub mutates : Operation → String → PlanStep → Bool
mutates operation logical_id step =
    step.logical_id == logical_id && step_commits_machine_state operation step.kind

-- `package_requires_receipt_commit`
unfoldable pub package_requires_receipt_commit : ExecutionPlan → String → Bool
package_requires_receipt_commit plan logical_id = elim plan.operation [
  | Operation.verify ↦ false
  | Operation.reconcile ↦ false
  | Operation.adopt ↦ true
  | _ ↦ any (mutates plan.operation logical_id) plan.steps
]
