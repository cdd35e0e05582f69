-- ===== src/Planner/Build/Parts.antt =====
-- What the steps that `build` collects consist of.
use siorb.Shared.{ℕ, suc, true, ◌≡◌, subst, List, [], ◌∷◌, ◌++◌, is_empty, arith, ◌⊎◌}
use siorb.Core.Errors.{ok, ErrorKind, new_error, with_reason, ok_or, >>=-eq-ok, reject_if-eq-ok}
use siorb.Core.Platform.{Operation, BackendInfo, PlatformContext, backend, operation_eq}
use siorb.Catalog.{PackageSource, tool_backend}
use siorb.Resolver.Resolve.{Resolution, require_selected}
use siorb.Backends.{BackendKind, from_catalog}
use siorb.Planner.{PlanStep, ExecutionPlan}
use siorb.Planner.Steps.Shape.{Shape, native_steps-Shape}
use siorb.Planner.Artifacts.{remove_step, download_step, verify_step, apply_step, artifact_steps}
use siorb.Planner.Build.{
  PlanServices, PlanOptions, Planner, Collected, no_change_step, native_package_steps,
  package_steps, collect, plan_of, build, backend_options,
}

module _ (index : ℕ) (resolution : Resolution) (source : PackageSource) (operation : Operation)
    (steps : List PlanStep) where
  -- The steps of an artifact: its removal, its verification, or its installation.
  pub artifact_steps-cases :
      artifact_steps index resolution source operation ≡ ok steps
      → ((operation_eq operation Operation.remove ≡ true)
          × (steps ≡ remove_step index resolution source operation ∷ []))
        ⊎ ((steps
              ≡ download_step index resolution source operation
                ∷ verify_step index resolution source operation
                ∷ [])
            ⊎ (steps
                ≡ download_step index resolution source operation
                  ∷ verify_step index resolution source operation
                  ∷ apply_step index resolution source operation
                  ∷ []))
  unfolding artifact_steps
  artifact_steps-cases h = ground (arith, h)

module _ (services : PlanServices) (platform : PlatformContext) (operation : Operation)
    (options : PlanOptions) where
  module _ (index : ℕ) (resolution : Resolution) (source : PackageSource)
      (steps : List PlanStep) where
    -- The steps of a package that a package manager has are those of `native_steps`.
    pub native_package_steps-Shape :
        native_package_steps services platform index resolution source operation options ≡ ok steps
        → (kind : BackendKind) × (found : BackendInfo) × Shape services.is_absolute
            services.requirements index resolution source operation kind found
            (backend_options services platform options)
            steps
    unfolding native_package_steps
    native_package_steps-Shape h =
        let (kind, e1, h1) = >>=-eq-ok (from_catalog source.backend) _ h in
        let (found, e2, h2) =
          >>=-eq-ok
            (ok_or (backend platform (tool_backend source)) (new_error ErrorKind.backend_absent)) _
            h1 in
        (
          kind,
          found,
          native_steps-Shape services.is_absolute services.requirements index resolution source
              operation kind found (backend_options services platform options) steps h2,
        )

    -- The steps of a package are those of one of the three branches.
    pub package_steps-cases :
        package_steps services platform index resolution source operation options ≡ ok steps
        → (steps ≡ no_change_step index resolution ∷ [])
          ⊎ ((artifact_steps index resolution source operation ≡ ok steps)
              ⊎ (native_package_steps services platform index resolution source operation options
                  ≡ ok steps))
    unfolding package_steps
    package_steps-cases h = ground (arith, h)

  -- What holds of the steps of each package holds of all of them.
  pub collect-steps :
      (P : List PlanStep → Type 0)
      → P []
      → ((xs ys : List PlanStep) → P xs → P ys → P (xs ++ ys))
      → ((index : ℕ) (resolution : Resolution) (source : PackageSource) (steps : List PlanStep)
          → package_steps services platform index resolution source operation options ≡ ok steps
          → P steps)
      → (index : ℕ) (resolutions : List Resolution) (collected : Collected)
      → collect services platform index resolutions operation options ≡ ok collected
      → P collected.steps
  unfolding collect
  collect-steps P none_ both each index [] collected h = subst P (ground (arith, h)) none_
  collect-steps P none_ both each index (resolution ∷ resolutions) collected h =
      let (source, e1, h1) = >>=-eq-ok (require_selected resolution) _ h in
      let (steps, e2, h2) =
        >>=-eq-ok (package_steps services platform index resolution source operation options) _
          h1 in
      let (rest, e3, h3) =
        >>=-eq-ok (collect services platform (suc index) resolutions operation options) _ h2 in
      let same : steps ++ rest.steps ≡ collected.steps = ground (arith, h3) in
      subst P same (
        both steps rest.steps (each index resolution source steps e2)
          (collect-steps P none_ both each (suc index) resolutions rest e3))

module _ (services : PlanServices) (planner : Planner) (operation : Operation)
    (resolutions : List Resolution) (options : PlanOptions) (plan : ExecutionPlan)
    (built : build services planner operation resolutions options ≡ ok plan) where
  pub build-collected :
      (collected : Collected) × (collect services planner.platform 0 resolutions operation options
        ≡ ok collected)
      × (plan ≡ plan_of services planner operation resolutions collected)
  unfolding build
  build-collected =
      let (some_, h1) =
        reject_if-eq-ok (is_empty resolutions)
          (with_reason ErrorKind.invalid_input "plan.packages.empty") _ built in
      let (collected, e2, h2) =
        >>=-eq-ok (collect services planner.platform 0 resolutions operation options) _ h1 in
      (collected, e2, cc)
