-- ===== src/Planner/Build.antt =====
-- `Planner::build`. Fingerprints, the clock and the host's paths are parameters.
pub mod Parts
pub mod Verified
use siorb.Shared.{
  ℕ, suc, Bool, true, false, ◌&&◌, not, Option, none, some, String, ◌==◌, List, [], ◌∷◌, ◌++◌, map,
  all, is_empty, if◌then◌else◌,
}
use siorb.Core.Errors.{
  Result, ok, err, ErrorKind, with_reason, new_error, ok_or, ◌>>=◌, ◌>>◌, reject_if,
}
use siorb.Core.Platform.{Operation, Scope, Architecture, PlatformContext, InstalledPackage, backend}
use siorb.Catalog.{PackageSource, tool_backend}
use siorb.Catalog.Document.{Catalog, CatalogDocument}
use siorb.Policy.Layers.{LayeredPolicy}
use siorb.Policy.Versions.{Semver}
use siorb.Resolver.Constraint.{Requirements, VersionConstraint, parse_constraint}
use siorb.Resolver.Resolve.{Resolution, require_selected}
use siorb.Backends.{BackendKind, from_catalog}
use siorb.Backends
use siorb.Planner.{
  PlanStep, StepKind, PlannedPackage, RevalidationGuard, ExecutionPlan, Reproducibility,
}
use siorb.Planner.Steps.{step_id, native_steps}
use siorb.Planner.Artifacts.{artifact_steps}

-- What the id of a plan is made from.
pub record PlanMaterial : Type 0 where
  pub operation : Operation
  pub requested : List String
  pub packages : List PlannedPackage
  pub steps : List PlanStep
  pub revalidation : RevalidationGuard
  pub reproducibility : Reproducibility

-- The fingerprints are SHA-256 over JSON; `plan_id` is the one of its material, shortened.
pub record PlanServices : Type 1 where
  pub semver : Semver
  pub requirements : Requirements semver
  pub is_absolute : String → Bool
  pub is_file : String → Bool
  pub unix_timestamp : ℕ
  pub platform_fingerprint : PlatformContext → String
  pub catalog_fingerprint : CatalogDocument → String
  pub policy_fingerprint : LayeredPolicy → String
  pub installed_fingerprint : List InstalledPackage → String
  pub plan_id : PlanMaterial → String

pub record PlanOptions : Type 0 where
  pub non_interactive : Bool
  pub accept_agreements : Bool
  pub target_architecture : Architecture

pub record Planner : Type 0 where
  pub platform : PlatformContext
  pub catalog : Catalog
  pub policy : LayeredPolicy
  pub installed : List InstalledPackage

-- The planner's own `parse_scope`.
unfoldable pub plan_scope : String → Scope
plan_scope value =
    if value == "user" then Scope.user else if value == "system" then Scope.system else Scope.auto

abbrev version_of : Option InstalledPackage → Option String
version_of none = none
version_of (some installed) = installed.version

unfoldable pub planned_package : Resolution → PackageSource → PlanOptions → PlannedPackage
planned_package resolution source options = record {
  requested = resolution.request;
  logical_id = resolution.canonical_id;
  source_id = source.id;
  backend = source.backend;
  native_id = source.package_id;
  current_version = version_of resolution.installed;
  desired_version = resolution.requested_version;
  scope = plan_scope source.scope;
  channel = source.channel;
  architecture = options.target_architecture;
}

abbrev is_some {ℓ} : {A : Type ℓ} → Option A → Bool
is_some none = false
is_some (some a) = true

-- The package is as it is wanted.
unfoldable pub no_change : Operation → Resolution → Bool
no_change Operation.install resolution =
    is_some resolution.installed && not (is_some resolution.requested_version)
no_change Operation.remove resolution = not (is_some resolution.installed)
no_change _ resolution = false

unfoldable pub no_change_step : ℕ → Resolution → PlanStep
no_change_step index resolution = record {
  id = step_id index;
  logical_id = resolution.canonical_id;
  kind = StepKind.no_change;
  command = none;
  artifact = none;
  network_endpoints = [];
  expected_download_bytes = none;
  verification_requirements = [];
  requires_privilege = false;
  agreements = [];
  destructive = false;
}

-- What the loop over the resolutions collects.
pub record Collected : Type 0 where
  pub packages : List PlannedPackage
  pub steps : List PlanStep
  pub warnings : List String

module _ (services : PlanServices) (platform : PlatformContext) where
  abbrev pub backend_options : PlanOptions → Backends.PlanOptions
  backend_options options = record {
    non_interactive = options.non_interactive;
    accept_agreements = options.accept_agreements;
  }

  -- The steps of a package that a package manager has.
  unfoldable pub native_package_steps :
      ℕ → Resolution → PackageSource → Operation → PlanOptions → Result (List PlanStep)
  native_package_steps index resolution source operation options = do
    kind ← from_catalog source.backend
    found ← ok_or (backend platform (tool_backend source)) (new_error ErrorKind.backend_absent)
    native_steps services.is_absolute services.requirements index resolution source operation kind
        found (backend_options options)

  -- The steps of one package, from `no_change` on.
  unfoldable pub package_steps :
      ℕ → Resolution → PackageSource → Operation → PlanOptions → Result (List PlanStep)
  package_steps index resolution source operation options =
      if no_change operation resolution
      then ok (no_change_step index resolution ∷ [])
      else if source.backend == "artifact"
      then artifact_steps index resolution source operation
      else native_package_steps index resolution source operation options

  -- The loop's body for the resolutions from `index` on.
  unfoldable pub collect : ℕ → List Resolution → Operation → PlanOptions → Result Collected
  collect index [] operation options = ok (record { packages = []; steps = []; warnings = [] })
  collect index (resolution ∷ resolutions) operation options = do
    source ← require_selected resolution
    steps ← package_steps index resolution source operation options
    rest ← collect (suc index) resolutions operation options
    ok (record {
      packages = planned_package resolution source options ∷ rest.packages;
      steps = steps ++ rest.steps;
      warnings = resolution.warnings ++ rest.warnings;
    })

module _ (services : PlanServices) where
  abbrev exact_of : Result (VersionConstraint services.requirements) → Bool
  exact_of (ok constraint) = is_some constraint.exact
  exact_of (err e) = false

  abbrev asks_exactly : Option String → Bool
  asks_exactly none = false
  asks_exactly (some version) = exact_of (parse_constraint services.requirements version)

  unfoldable pub reproducibility_of : List Resolution → Reproducibility
  reproducibility_of resolutions =
      if all (λ (resolution : Resolution). asks_exactly resolution.requested_version) resolutions
      then Reproducibility.fully_reproducible
      else Reproducibility.best_effort

  unfoldable pub guard_of : Planner → RevalidationGuard
  guard_of planner = record {
    platform_fingerprint = services.platform_fingerprint planner.platform;
    catalog_fingerprint = services.catalog_fingerprint planner.catalog.document;
    policy_fingerprint = services.policy_fingerprint planner.policy;
    installed_fingerprint = services.installed_fingerprint planner.installed;
  }

  unfoldable pub plan_of : Planner → Operation → List Resolution → Collected → ExecutionPlan
  plan_of planner operation resolutions collected =
      let reproducibility = reproducibility_of resolutions in
      let revalidation = guard_of planner in
      let requested = map (λ (resolution : Resolution). resolution.request) resolutions in
      record {
        schema_version = "1.0";
        plan_id = services.plan_id (record {
          operation = operation;
          requested = requested;
          packages = collected.packages;
          steps = collected.steps;
          revalidation = revalidation;
          reproducibility = reproducibility;
        });
        operation = operation;
        requested = requested;
        catalog_fingerprint = revalidation.catalog_fingerprint;
        platform_fingerprint = revalidation.platform_fingerprint;
        policy_fingerprint = some revalidation.policy_fingerprint;
        created_at_unix = services.unix_timestamp;
        reproducibility = reproducibility;
        packages = collected.packages;
        steps = collected.steps;
        warnings = collected.warnings;
        revalidation = revalidation;
      }

  -- `Planner::build`
  unfoldable pub build : Planner → Operation → List Resolution → PlanOptions → Result ExecutionPlan
  build planner operation resolutions options = do
    reject_if (is_empty resolutions) (with_reason ErrorKind.invalid_input "plan.packages.empty")
    collected ← collect services planner.platform 0 resolutions operation options
    ok (plan_of planner operation resolutions collected)
