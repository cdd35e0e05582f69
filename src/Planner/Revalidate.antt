-- ===== src/Planner/Revalidate.antt =====
-- `ExecutionPlan::revalidate`: a plan is run only on the facts that it was made from.
pub mod Fresh
use siorb.Shared.{not, Option, none, some, ◌==◌, List, [], ◌∷◌}
use siorb.Core.Errors.{Result, ok, ErrorKind, SiorbError, with_reason, ◌>>◌, reject_if}
use siorb.Backends.{CommandSpec}
use siorb.Backends.Command.{validate_command}
use siorb.Planner.{PlanStep, ExecutionPlan}
use siorb.Planner.Build.{PlanServices, Planner, guard_of}

-- `plan_changed`
abbrev pub plan_changed : SiorbError
plan_changed = with_reason ErrorKind.verification_failure "plan.revalidation.changed"

module _ (services : PlanServices) where
  abbrev revalidate_command : Option CommandSpec → Result (Unit {0})
  revalidate_command none = ok tt
  revalidate_command (some command) = do
    validate_command services.is_absolute command
    reject_if (not (services.is_file command.executable)) plan_changed

  unfoldable pub revalidate_steps : List PlanStep → Result (Unit {0})
  revalidate_steps [] = ok tt
  revalidate_steps (step ∷ steps) = do revalidate_command step.command; revalidate_steps steps

  -- The planner stands for the facts of now: platform, catalog, policy and installed packages.
  unfoldable pub revalidate : ExecutionPlan → Planner → Result (Unit {0})
  revalidate plan now = do
    let current = guard_of services now
    reject_if (not (current.platform_fingerprint == plan.revalidation.platform_fingerprint))
        plan_changed
    reject_if (not (current.catalog_fingerprint == plan.revalidation.catalog_fingerprint))
        plan_changed
    reject_if (not (current.policy_fingerprint == plan.revalidation.policy_fingerprint))
        plan_changed
    reject_if (not (current.installed_fingerprint == plan.revalidation.installed_fingerprint))
        plan_changed
    revalidate_steps plan.steps
