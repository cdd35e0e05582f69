-- ===== src/Executor/Guards/Built.antt =====
-- The plans of `build` and the check `validate_native_receipt_verification`.
use siorb.Shared.{
  ℕ, suc, true, false, ◌≡◌, refl, sym, subst, ◌∙◌, ◌==◌, Option, none, some, String, List, [], ◌∷◌,
  ◌++◌, All, arith, Bool-cases, Option-cases, inl, inr, ◌⊎◌,
}
use siorb.Core.Errors.{ok, >>=-eq-ok, ok_or-eq-ok}
use siorb.Core.Platform.{Operation, PlatformContext}
use siorb.Catalog.{PackageSource}
use siorb.Resolver.Resolve.{Resolution, require_selected}
use siorb.Planner.{PlanStep, StepKind, PlannedPackage, ExecutionPlan}
use siorb.Planner.Steps.{is_observed, backend_step, observe_step}
use siorb.Planner.Build.{
  PlanServices, PlanOptions, Planner, Collected, no_change_step, native_package_steps,
  package_steps, collect, plan_of, build,
}
use siorb.Planner.Build.Parts.{native_package_steps-Shape, build-collected}
use siorb.Executor.{step_commits_machine_state, mutates}
use siorb.Executor.Guards.{
  after_last, after_found, find_step, verifies, is_read_only, check_after, check_package,
  check_packages, validate_native_receipt_verification,
}

-- The next step verifies the same package and only reads.
abbrev ReadNext : PlanStep → List PlanStep → Type 0
ReadNext step [] = ⊥
ReadNext step (next ∷ steps) =
    (next.kind ≡ StepKind.verify) × (next.logical_id ≡ step.logical_id) × (is_read_only next ≡ true)

-- Every step that changes the machine is followed so.
abbrev Followed : Operation → List PlanStep → Type 0
Followed operation [] = Unit
Followed operation (step ∷ steps) =
    (step_commits_machine_state operation step.kind ≡ true → ReadNext step steps)
    × Followed operation steps

ReadNext-append :
    (step : PlanStep) (xs ys : List PlanStep) → ReadNext step xs → ReadNext step (xs ++ ys)
ReadNext-append step [] ys h = absurd h
ReadNext-append step (x ∷ xs) ys h = h

Followed-append :
    (operation : Operation) (xs ys : List PlanStep)
    → Followed operation xs
    → Followed operation ys
    → Followed operation (xs ++ ys)
Followed-append operation [] ys h k = k
Followed-append operation (x ∷ xs) ys h k =
    (λ e. ReadNext-append x xs ys (h.0 e), Followed-append operation xs ys h.1 k)

-- A verification that only reads is the first one found.
abbrev FindsReadOnly : String → List PlanStep → Type 0
FindsReadOnly logical_id later =
    (found : PlanStep) × (find_step (verifies logical_id) later ≡ some found)
    × (is_read_only found ≡ true)

ReadNext-FindsReadOnly :
    (logical_id : String) (step : PlanStep) (steps : List PlanStep)
    → step.logical_id == logical_id ≡ true
    → ReadNext step steps
    → FindsReadOnly logical_id steps
unfolding find_step
ReadNext-FindsReadOnly logical_id step [] named h = absurd h
ReadNext-FindsReadOnly logical_id step (next ∷ steps) named (kind, same, quiet) =
    (next, ground (arith, kind, same, named), quiet)

after_found-here :
    (operation : Operation) (logical_id : String) (step : PlanStep) (steps later : List PlanStep)
    → after_found none (mutates operation logical_id step) steps ≡ some later
    → (step.logical_id == logical_id ≡ true)
      × (step_commits_machine_state operation step.kind ≡ true)
      × (steps ≡ later)
after_found-here operation logical_id step steps later h =
    (ground (arith, h), ground (arith, h), ground (arith, h))

after_last-FindsReadOnly :
    (operation : Operation) (logical_id : String) (steps later : List PlanStep)
    → Followed operation steps
    → after_last (mutates operation logical_id) steps ≡ some later
    → FindsReadOnly logical_id later
unfolding after_last
after_last-FindsReadOnly operation logical_id [] later h found = cc
after_last-FindsReadOnly operation logical_id (step ∷ steps) later h found =
    let p = mutates operation logical_id in
    elim (Option-cases (after_last p steps)) [
      | inl nowhere ↦
          let (named, commits, same) = after_found-here operation logical_id step steps later (
            subst (λ (o : Option (List PlanStep)). after_found o (p step) steps ≡ some later)
              nowhere found) in
          subst (FindsReadOnly logical_id) same
            (ReadNext-FindsReadOnly logical_id step steps named (h.0 commits))
      | inr (there, e) ↦
          let same : some there ≡ some later =
            subst (λ (o : Option (List PlanStep)). after_found o (p step) steps ≡ some later) e
              found in
          after_last-FindsReadOnly operation logical_id steps later h.1 (e ∙ same)
    ]

check_after-ok :
    (operation : Operation) (logical_id : String) (steps : List PlanStep)
    → Followed operation steps
    → check_after logical_id (after_last (mutates operation logical_id) steps) ≡ ok tt
check_after-ok operation logical_id steps h =
    elim (Option-cases (after_last (mutates operation logical_id) steps)) [
      | inl nowhere ↦ rw nowhere
      | inr (later, e) ↦
          let (found, finds, quiet) =
            after_last-FindsReadOnly operation logical_id steps later h e in
          rw (e, finds, quiet)
    ]

check_packages-ok :
    (plan : ExecutionPlan) (packages : List PlannedPackage)
    → Followed plan.operation plan.steps
    → check_packages plan packages ≡ ok tt
unfolding check_packages check_package
check_packages-ok plan [] h = refl
check_packages-ok plan (planned ∷ packages) h = ground (
  arith,
  check_packages-ok plan packages h,
  check_after-ok plan.operation planned.logical_id plan.steps h,
)

-- The source that is selected is one of a package manager.
abbrev pub IsNative : Resolution → Type 0
IsNative resolution =
    (source : PackageSource)
    → resolution.selected ≡ some source
    → source.backend == "artifact" ≡ false

module _ (services : PlanServices) (platform : PlatformContext) (operation : Operation)
    (options : PlanOptions) (observed : is_observed operation ≡ true) where
  native_package_steps-Followed :
      (index : ℕ) (resolution : Resolution) (source : PackageSource) (steps : List PlanStep)
      → native_package_steps services platform index resolution source operation options ≡ ok steps
      → Followed operation steps
  unfolding backend_step observe_step is_read_only step_commits_machine_state
  native_package_steps-Followed index resolution source steps h =
      let (kind, found, (command, ran, shape)) =
        native_package_steps-Shape services platform operation options index resolution source steps
          h in
      elim shape [
        | inl (silent, same) ↦ absurd (ground (arith, observed, silent))
        | inr (query, (asked, offline, plain), same) ↦
            subst (Followed operation) (sym same)
              (λ e. (refl, refl, rw (offline, plain)), (λ e. cc, tt))
      ]

  -- The steps of a package are those of the package manager, or none is needed.
  package_steps-cases_native :
      (index : ℕ) (resolution : Resolution) (source : PackageSource) (steps : List PlanStep)
      → source.backend == "artifact" ≡ false
      → package_steps services platform index resolution source operation options ≡ ok steps
      → (steps ≡ no_change_step index resolution ∷ [])
        ⊎ (native_package_steps services platform index resolution source operation options
            ≡ ok steps)
  unfolding package_steps
  package_steps-cases_native index resolution source steps native h = ground (arith, native, h)

  package_steps-Followed :
      (index : ℕ) (resolution : Resolution) (source : PackageSource) (steps : List PlanStep)
      → source.backend == "artifact" ≡ false
      → package_steps services platform index resolution source operation options ≡ ok steps
      → Followed operation steps
  unfolding no_change_step step_commits_machine_state
  package_steps-Followed index resolution source steps native h =
      elim (package_steps-cases_native index resolution source steps native h) [
        | inl same ↦ subst (Followed operation) (sym same) (λ e. cc, tt)
        | inr managed ↦ native_package_steps-Followed index resolution source steps managed
      ]

  collect-Followed :
      (index : ℕ) (resolutions : List Resolution) (collected : Collected)
      → All IsNative resolutions
      → collect services platform index resolutions operation options ≡ ok collected
      → Followed operation collected.steps
  unfolding collect require_selected
  collect-Followed index [] collected native h =
      let same : [] ≡ collected.steps = ground (arith, h) in subst (Followed operation) same tt
  collect-Followed index (resolution ∷ resolutions) collected native h =
      let (source, e1, h1) = >>=-eq-ok (require_selected resolution) _ h in
      let (steps, e2, h2) =
        >>=-eq-ok (package_steps services platform index resolution source operation options) _
          h1 in
      let (rest, e3, h3) =
        >>=-eq-ok (collect services platform (suc index) resolutions operation options) _ h2 in
      let same : steps ++ rest.steps ≡ collected.steps = ground (arith, h3) in
      subst (Followed operation) same (
        Followed-append operation steps rest.steps
          (package_steps-Followed index resolution source steps
            (native.0 source (ok_or-eq-ok resolution.selected _ e1)) e2)
          (collect-Followed (suc index) resolutions rest native.1 e3))

-- A plan that `build` returns for packages of package managers passes the executor's check that
-- every change is followed by a query of the installed state that only reads.
pub build-validate_native_receipt_verification :
    (services : PlanServices) (planner : Planner) (operation : Operation)
    (resolutions : List Resolution) (options : PlanOptions) (plan : ExecutionPlan)
    → All IsNative resolutions
    → build services planner operation resolutions options ≡ ok plan
    → validate_native_receipt_verification plan ≡ ok tt
unfolding validate_native_receipt_verification plan_of
build-validate_native_receipt_verification services planner operation resolutions options plan
      native built =
    let (collected, e, same) =
      build-collected services planner operation resolutions options plan built in
    let planned = plan_of services planner operation resolutions collected in
    let accepts : ExecutionPlan → Type 0 = λ p. validate_native_receipt_verification p ≡ ok tt in
    subst accepts (sym same) (elim (Bool-cases (is_observed operation)) [
      | inl observed ↦ rw (
        observed,
        check_packages-ok planned planned.packages (
            collect-Followed services planner.platform operation options observed 0 resolutions
              collected native e),
      )
      | inr silent ↦ rw silent
    ])
