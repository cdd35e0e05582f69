-- ===== src/Planner/Revalidate/Fresh.antt =====
-- When `revalidate` accepts a plan that `build` returned.
use siorb.Shared.{
  ℕ, true, false, not, ◌≡◌, refl, sym, subst, ◌∙◌, ◌↔◌, ap, Option, none, some, String, ◌==◌,
  eq_iff, eq_refl, List, [], ◌∷◌, ◌++◌, arith, inl, inr,
}
use siorb.Core.Errors.{ok, reject_if-eq-ok}
use siorb.Core.Platform.{Operation, PlatformContext}
use siorb.Catalog.{PackageSource}
use siorb.Resolver.Resolve.{Resolution}
use siorb.Backends.{CommandSpec}
use siorb.Backends.Command.{validate_command}
use siorb.Backends.Command.Checked.{build_command_safe}
use siorb.Planner.{PlanStep, ExecutionPlan, RevalidationGuard}
use siorb.Planner.Steps.{backend_step, observe_step, query_options}
use siorb.Planner.Artifacts.{remove_step, download_step, verify_step, apply_step}
use siorb.Planner.Build.{
  PlanServices, PlanOptions, Planner, no_change_step, package_steps, build, plan_of, guard_of,
  backend_options,
}
use siorb.Planner.Build.Parts.{
  artifact_steps-cases, native_package_steps-Shape, package_steps-cases, collect-steps,
  build-collected,
}
use siorb.Planner.Revalidate.{plan_changed, revalidate_command, revalidate_steps, revalidate}

same_text : (a b : String) → not (a == b) ≡ false → a ≡ b
same_text a b h = (eq_iff a b).0 (ground (arith, h))

same_guard :
    (a b : RevalidationGuard)
    → a.platform_fingerprint ≡ b.platform_fingerprint
    → a.catalog_fingerprint ≡ b.catalog_fingerprint
    → a.policy_fingerprint ≡ b.policy_fingerprint
    → a.installed_fingerprint ≡ b.installed_fingerprint
    → a ≡ b
same_guard a b p c o n = λ i. record {
  platform_fingerprint = p i;
  catalog_fingerprint = c i;
  policy_fingerprint = o i;
  installed_fingerprint = n i;
}

module _ (services : PlanServices) where
  abbrev ValidCommand : Option CommandSpec → Type 0
  ValidCommand none = Unit
  ValidCommand (some command) = validate_command services.is_absolute command ≡ ok tt

  -- Each command among the steps passes `CommandSpec::validate`.
  abbrev AllValid : List PlanStep → Type 0
  AllValid [] = Unit
  AllValid (step ∷ steps) = ValidCommand step.command × AllValid steps

  abbrev PresentCommand : Option CommandSpec → Type 0
  PresentCommand none = Unit
  PresentCommand (some command) = services.is_file command.executable ≡ true

  -- The executable of each command among the steps is a file.
  abbrev pub AllPresent : List PlanStep → Type 0
  AllPresent [] = Unit
  AllPresent (step ∷ steps) = PresentCommand step.command × AllPresent steps

  AllValid-append : (xs ys : List PlanStep) → AllValid xs → AllValid ys → AllValid (xs ++ ys)
  AllValid-append [] ys h k = k
  AllValid-append (x ∷ xs) ys h k = (h.0, AllValid-append xs ys h.1 k)

  revalidate_command-ok :
      (command : Option CommandSpec)
      → ValidCommand command
      → PresentCommand command
      → revalidate_command services command ≡ ok tt
  revalidate_command-ok none valid present = refl
  revalidate_command-ok (some command) valid present = rw (valid, present)

  revalidate_steps-ok :
      (steps : List PlanStep)
      → AllValid steps
      → AllPresent steps
      → revalidate_steps services steps ≡ ok tt
  unfolding revalidate_steps
  revalidate_steps-ok [] valid present = refl
  revalidate_steps-ok (step ∷ steps) valid present = rw (
    revalidate_command-ok step.command valid.0 present.0,
    revalidate_steps-ok steps valid.1 present.1,
  )

  -- The guard of a plan that is accepted is the one of now.
  revalidate-guard :
      (plan : ExecutionPlan) (now : Planner)
      → revalidate services plan now ≡ ok tt
      → guard_of services now ≡ plan.revalidation
  unfolding revalidate
  revalidate-guard plan now h =
      let current = guard_of services now in
      let planned = plan.revalidation in
      let (platform, h1) =
        reject_if-eq-ok (not (current.platform_fingerprint == planned.platform_fingerprint))
          plan_changed _ h in
      let (catalog, h2) =
        reject_if-eq-ok (not (current.catalog_fingerprint == planned.catalog_fingerprint))
          plan_changed _ h1 in
      let (policy, h3) =
        reject_if-eq-ok (not (current.policy_fingerprint == planned.policy_fingerprint))
          plan_changed _ h2 in
      let (installed, h4) =
        reject_if-eq-ok (not (current.installed_fingerprint == planned.installed_fingerprint))
          plan_changed _ h3 in
      same_guard current planned
        (same_text current.platform_fingerprint planned.platform_fingerprint platform)
        (same_text current.catalog_fingerprint planned.catalog_fingerprint catalog)
        (same_text current.policy_fingerprint planned.policy_fingerprint policy)
        (same_text current.installed_fingerprint planned.installed_fingerprint installed)

  revalidate-unchanged :
      (plan : ExecutionPlan) (now : Planner)
      → guard_of services now ≡ plan.revalidation
      → revalidate_steps services plan.steps ≡ ok tt
      → revalidate services plan now ≡ ok tt
  unfolding revalidate
  revalidate-unchanged plan now same h = rw (
    same,
    eq_refl plan.revalidation.platform_fingerprint,
    eq_refl plan.revalidation.catalog_fingerprint,
    eq_refl plan.revalidation.policy_fingerprint,
    eq_refl plan.revalidation.installed_fingerprint,
    h,
  )

  module _ (platform : PlatformContext) (operation : Operation) (options : PlanOptions) (index : ℕ)
      (resolution : Resolution) (source : PackageSource) (steps : List PlanStep) where
    package_steps-AllValid :
        package_steps services platform index resolution source operation options ≡ ok steps
        → AllValid steps
    unfolding no_change_step remove_step download_step verify_step apply_step backend_step
        observe_step
    package_steps-AllValid h =
        elim (package_steps-cases services platform operation options index resolution source steps
          h) [
            | inl same ↦ subst AllValid (sym same) (tt, tt)
            | inr (inl artifact) ↦
                elim (artifact_steps-cases index resolution source operation steps artifact) [
                  | inl (removed, same) ↦ subst AllValid (sym same) (tt, tt)
                  | inr (inl same) ↦ subst AllValid (sym same) (tt, (tt, tt))
                  | inr (inr same) ↦ subst AllValid (sym same) (tt, (tt, (tt, tt)))
                ]
            | inr (inr native) ↦
                let (kind, found, (command, (given, ran), shape)) =
                  native_package_steps-Shape services platform operation options index resolution
                    source steps native in
                let (e0, e1, e2, e3, valid, e4) =
                  (build_command_safe services.is_absolute services.requirements kind operation
                    found source (backend_options services platform options) given command ran) in
                elim shape [
                  | inl (silent, same) ↦ subst AllValid (sym same) (valid, tt)
                  | inr (query, (asked, offline, plain), same) ↦
                      let (e5, e6, e7, e8, asked_valid, e9) =
                        (build_command_safe services.is_absolute services.requirements kind
                          Operation.verify found source query_options none query asked) in
                      subst AllValid (sym same) (valid, (asked_valid, tt))
                ]
          ]

module _ (services : PlanServices) (planner : Planner) (operation : Operation)
    (resolutions : List Resolution) (options : PlanOptions) (plan : ExecutionPlan)
    (built : build services planner operation resolutions options ≡ ok plan) where
  build-AllValid : AllValid services plan.steps
  unfolding plan_of
  build-AllValid =
      let (collected, e, same) =
        build-collected services planner operation resolutions options plan built in
      subst (AllValid services) (ap (λ (p : ExecutionPlan). p.steps) (sym same)) (
        collect-steps services planner.platform operation options (AllValid services) tt
          (AllValid-append services)
          (λ index resolution source steps.
            package_steps-AllValid services planner.platform operation options index resolution
              source steps)
          0 resolutions collected e)

  build-guard : plan.revalidation ≡ guard_of services planner
  unfolding plan_of
  build-guard =
      let (collected, e, same) =
        build-collected services planner operation resolutions options plan built in
      ap (λ (p : ExecutionPlan). p.revalidation) same

  -- While the executables of its commands are files, a plan that `build` returned passes
  -- `revalidate` if and only if the fingerprints of platform, catalog, policy and installed
  -- packages are those that it was built from.
  pub build-revalidate :
      (now : Planner)
      → AllPresent services plan.steps
      → (revalidate services plan now ≡ ok tt) ↔ (guard_of services now ≡ guard_of services planner)
  build-revalidate now present = (
    λ h. revalidate-guard services plan now h ∙ build-guard,
    λ same.
        revalidate-unchanged services plan now (same ∙ sym build-guard)
          (revalidate_steps-ok services plan.steps build-AllValid present),
  )
