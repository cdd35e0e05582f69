-- ===== src/Planner/Steps.antt =====
-- `native_steps`: the steps by which a package manager changes one package.
pub mod Shape
use siorb.Shared.{
  ℕ, suc, Bool, true, false, ◌&&◌, ◌||◌, not, Option, none, some, String, ◌<>◌, ◌==◌, len, List, [],
  ◌∷◌, decimal, ltb, if◌then◌else◌,
}
use siorb.Core.Errors.{Result, ok, ErrorKind, with_reason, ◌>>=◌, ◌>>◌, reject_if}
use siorb.Core.Platform.{Operation, BackendInfo, operation_eq}
use siorb.Catalog.{PackageSource}
use siorb.Policy.Versions.{Semver}
use siorb.Resolver.Constraint.{Requirements, VersionConstraint, parse_constraint}
use siorb.Resolver.Resolve.{Resolution}
use siorb.Backends.{CommandSpec, PlanOptions, BackendKind}
use siorb.Backends.Arguments.{chooses_version}
use siorb.Backends.Command.{only_asks, build_command}
use siorb.Planner.{PlanStep, StepKind}

-- `format!("step-{:04}", index + 1)`
abbrev padded : String → String
padded digits =
    if ltb (len digits) 2
    then "000" <> digits
    else if ltb (len digits) 3
    then "00" <> digits
    else if ltb (len digits) 4
    then "0" <> digits
    else digits

unfoldable pub step_id : ℕ → String
unfolding decimal
step_id index = "step-" <> padded (decimal (suc index))

-- The operations after which the host is asked what it has.
abbrev pub is_observed : Operation → Bool
is_observed Operation.install = true
is_observed Operation.remove = true
is_observed Operation.upgrade = true
is_observed Operation.repair = true
is_observed _ = false

abbrev winget_agreements : PackageSource → Operation → List String
winget_agreements source operation =
    if source.backend == "winget"
      && (operation_eq operation Operation.install || operation_eq operation Operation.upgrade)
    then "package and source agreements" ∷ []
    else []

-- The step that runs the package manager.
unfoldable pub backend_step :
    String → Resolution → PackageSource → Operation → CommandSpec → PlanStep
backend_step base_id resolution source operation command = record {
  id = base_id;
  logical_id = resolution.canonical_id;
  kind = if operation_eq operation Operation.verify then StepKind.verify else StepKind.backend;
  command = some command;
  artifact = none;
  network_endpoints =
      if only_asks operation
      then []
      else (source.backend <> " repository (endpoint managed by backend)") ∷ [];
  expected_download_bytes = none;
  verification_requirements = source.provenance ∷ source.evidence ∷ [];
  requires_privilege = source.requires_privilege && not (only_asks operation);
  agreements = winget_agreements source operation;
  destructive = operation_eq operation Operation.remove;
}

abbrev observed_requirements : Operation → List String
observed_requirements operation =
    if operation_eq operation Operation.remove
    then "read-only installed-state query" ∷ "backend reports the package is not installed" ∷ []
    else "read-only installed-state query" ∷ "observed version satisfies the requested constraint"
      ∷ []

-- The step that asks the package manager for the state afterwards.
unfoldable pub observe_step : String → Resolution → Operation → CommandSpec → PlanStep
observe_step base_id resolution operation query = record {
  id = base_id <> "-verify";
  logical_id = resolution.canonical_id;
  kind = StepKind.verify;
  command = some query;
  artifact = none;
  network_endpoints = [];
  expected_download_bytes = none;
  verification_requirements = observed_requirements operation;
  requires_privilege = false;
  agreements = [];
  destructive = false;
}

abbrev pub query_options : PlanOptions
query_options = record { non_interactive = true; accept_agreements = false }

module _ {semver : Semver} (requirements : Requirements semver) where
  -- `requested_version.map(VersionConstraint::parse).transpose()?`
  unfoldable pub requested_constraint :
      Option String → Result (Option (VersionConstraint requirements))
  requested_constraint none = ok none
  requested_constraint (some version) = do
    constraint ← parse_constraint requirements version
    ok (some constraint)

  -- The constraint is given only where the operation can choose a version.
  abbrev constraint_for :
      Operation → Option (VersionConstraint requirements) → Option (VersionConstraint requirements)
  constraint_for operation constraint = if chooses_version operation then constraint else none

module _ (is_absolute : String → Bool) {semver : Semver} (requirements : Requirements semver) where
  -- The first step, and the one that asks for the state that it left.
  unfoldable pub observed_steps :
      String
      → Resolution
      → PackageSource
      → Operation
      → BackendKind
      → BackendInfo
      → PlanStep
      → Result (List PlanStep)
  observed_steps base_id resolution source operation kind backend first = do
    query ←
        build_command is_absolute requirements kind Operation.verify backend source query_options
          none
    reject_if (query.network || query.requires_privilege)
        (with_reason ErrorKind.verification_failure "plan.verification.not_read_only")
    ok (first ∷ observe_step base_id resolution operation query ∷ [])

  unfoldable pub native_steps :
      ℕ
      → Resolution
      → PackageSource
      → Operation
      → BackendKind
      → BackendInfo
      → PlanOptions
      → Result (List PlanStep)
  native_steps index resolution source operation kind backend options = do
    constraint ← requested_constraint requirements resolution.requested_version
    command ←
        build_command is_absolute requirements kind operation backend source options
          (constraint_for requirements operation constraint)
    let base_id = step_id index
    let first = backend_step base_id resolution source operation command
    if is_observed operation
        then observed_steps base_id resolution source operation kind backend first
        else ok (first ∷ [])
