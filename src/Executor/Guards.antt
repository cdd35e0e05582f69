-- ===== src/Executor/Guards.antt =====
-- `validate_offline`, `validate_consent` and `validate_native_receipt_verification`, which run before
-- the first event of a transaction is written.
pub mod Built
use siorb.Shared.{
  Bool, true, false, not, ◌&&◌, ◌||◌, ◌==◌, Option, none, some, String, List, [], ◌∷◌, any,
  is_empty, if◌then◌else◌,
}
use siorb.Core.Errors.{Result, ok, err, ErrorKind, with_reason, ok_or, ◌>>=◌, ◌>>◌, reject_if}
use siorb.Backends.{CommandSpec}
use siorb.Planner.{
  PlanStep, StepKind, ArtifactPlan, PlannedPackage, ExecutionPlan, changes_machine,
  requires_agreements, plan_requires_privilege,
}
use siorb.Planner.Steps.{is_observed}
use siorb.Executor.{ExecutionOptions, mutates, package_requires_receipt_commit}

abbrev uses_network : Option CommandSpec → Bool
uses_network none = false
uses_network (some command) = command.network

abbrev is_download : StepKind → Bool
is_download StepKind.download = true
is_download _ = false

-- `validate_offline`
unfoldable validate_offline : ExecutionPlan → ExecutionOptions → Result (Unit {0})
validate_offline plan options =
    if not options.offline
    then ok tt
    else reject_if
        (any (λ (step : PlanStep). is_download step.kind || uses_network step.command) plan.steps)
        (with_reason ErrorKind.invalid_input "execution.offline.network_forbidden")

abbrev no_broker : Option String → Bool
no_broker none = true
no_broker (some broker) = false

-- `validate_consent`
unfoldable validate_consent : ExecutionPlan → ExecutionOptions → Result (Unit {0})
validate_consent plan options = do
  reject_if
      (changes_machine plan
        && options.policy_confirmation_required
        && not options.interactive_consent)
      (with_reason ErrorKind.policy_rejected "policy.confirmation.interactive_required")
  reject_if (changes_machine plan && not options.consent)
      (with_reason ErrorKind.invalid_input "execution.consent.required")
  reject_if (options.non_interactive && not options.consent && changes_machine plan)
      (with_reason ErrorKind.invalid_input "execution.non_interactive.consent")
  reject_if (requires_agreements plan && not options.accept_agreements)
      (with_reason ErrorKind.invalid_input "execution.agreement.required")
  reject_if (plan_requires_privilege plan && no_broker options.privilege_broker)
      (with_reason ErrorKind.privilege_denied "privilege.broker.absent")

-- The steps after the last one with `p`, if there is one.
abbrev pub after_found : Option (List PlanStep) → Bool → List PlanStep → Option (List PlanStep)
after_found (some later) here steps = some later
after_found none here steps = if here then some steps else none

unfoldable pub after_last : (PlanStep → Bool) → List PlanStep → Option (List PlanStep)
after_last p [] = none
after_last p (step ∷ steps) = after_found (after_last p steps) (p step) steps

-- `iter().find(p)`
unfoldable pub find_step : (PlanStep → Bool) → List PlanStep → Option PlanStep
find_step p [] = none
find_step p (step ∷ steps) = let rest = find_step p steps in if p step then some step else rest

abbrev is_verify_kind : StepKind → Bool
is_verify_kind StepKind.verify = true
is_verify_kind _ = false

abbrev pub verifies : String → PlanStep → Bool
verifies logical_id step = step.logical_id == logical_id && is_verify_kind step.kind

abbrev no_artifact : Option ArtifactPlan → Bool
no_artifact none = true
no_artifact (some artifact) = false

abbrev quiet_command : Option CommandSpec → Bool
quiet_command none = false
quiet_command (some command) = not command.network && not command.requires_privilege

unfoldable pub is_read_only : PlanStep → Bool
is_read_only step =
    no_artifact step.artifact && is_empty step.network_endpoints && quiet_command step.command

-- What follows the last change of the package verifies it, and only reads.
abbrev pub check_after : String → Option (List PlanStep) → Result (Unit {0})
check_after logical_id none = ok tt
check_after logical_id (some later) = do
  verification ←
      ok_or (find_step (verifies logical_id) later)
        (with_reason ErrorKind.verification_failure "plan.verification.missing")
  reject_if (not (is_read_only verification))
      (with_reason ErrorKind.verification_failure "plan.verification.not_read_only")

-- The body of the loop over the packages.
unfoldable pub check_package : ExecutionPlan → PlannedPackage → Result (Unit {0})
check_package plan planned =
    if planned.backend == "artifact"
      || not (package_requires_receipt_commit plan planned.logical_id)
    then ok tt
    else check_after planned.logical_id
        (after_last (mutates plan.operation planned.logical_id) plan.steps)

unfoldable pub check_packages : ExecutionPlan → List PlannedPackage → Result (Unit {0})
check_packages plan [] = ok tt
check_packages plan (planned ∷ packages) = do
  check_package plan planned
  check_packages plan packages

-- `validate_native_receipt_verification`
unfoldable pub validate_native_receipt_verification : ExecutionPlan → Result (Unit {0})
validate_native_receipt_verification plan =
    if is_observed plan.operation then check_packages plan plan.packages else ok tt
