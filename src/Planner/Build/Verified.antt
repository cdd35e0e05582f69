-- ===== src/Planner/Build/Verified.antt =====
-- The order of the steps in a plan, and what verifies a change.
use siorb.Shared.{
  ℕ, Bool, true, false, ◌≡◌, ◌≢◌, refl, sym, subst, ap, Option, none, some, String, ◌<>◌, List, [],
  ◌∷◌, ◌++◌, contains, eq_refl, arith, inl, inr,
}
use siorb.Core.Errors.{ok}
use siorb.Core.Platform.{Operation, PlatformContext}
use siorb.Catalog.{PackageSource, ArtifactVerification}
use siorb.Resolver.Resolve.{Resolution}
use siorb.Backends.{CommandSpec}
use siorb.Planner.{PlanStep, StepKind, ArtifactPlan, ExecutionPlan}
use siorb.Planner.Steps.{step_id, is_observed, backend_step, observe_step}
use siorb.Planner.Artifacts.{
  apply_kind, plan_artifact, artifact_plan, artifact_requirements, remove_step, download_step,
  verify_step, apply_step, artifact_steps,
}
use siorb.Planner.Build.{
  PlanServices, PlanOptions, Planner, no_change_step, native_package_steps, package_steps, plan_of,
  build,
}
use siorb.Planner.Build.Parts.{
  artifact_steps-cases, native_package_steps-Shape, package_steps-cases, collect-steps,
  build-collected,
}

-- The next step asks for the state of the same package, by a command that changes nothing.
abbrev VerifiedNext : PlanStep → List PlanStep → Type 0
VerifiedNext step [] = ⊥
VerifiedNext step (next ∷ steps) =
    (next.kind ≡ StepKind.verify)
    × (next.logical_id ≡ step.logical_id)
    × ((query : CommandSpec) × (next.command ≡ some query)
        × (query.network ≡ false)
        × (query.requires_privilege ≡ false))

-- Every run of a package manager is verified next.
abbrev pub EachVerified : List PlanStep → Type 0
EachVerified [] = Unit
EachVerified (step ∷ steps) =
    (step.kind ≡ StepKind.backend → VerifiedNext step steps) × EachVerified steps

VerifiedNext-append :
    (step : PlanStep) (xs ys : List PlanStep) → VerifiedNext step xs → VerifiedNext step (xs ++ ys)
VerifiedNext-append step [] ys h = absurd h
VerifiedNext-append step (x ∷ xs) ys h = h

EachVerified-append :
    (xs ys : List PlanStep) → EachVerified xs → EachVerified ys → EachVerified (xs ++ ys)
EachVerified-append [] ys h k = k
EachVerified-append (x ∷ xs) ys h k =
    (λ e. VerifiedNext-append x xs ys (h.0 e), EachVerified-append xs ys h.1 k)

-- What is applied is an artifact, and the step before verified the same one, by its digest.
abbrev applies : StepKind → Bool
applies StepKind.extract = true
applies StepKind.installer = true
applies _ = false

abbrev NamesDigest : Option ArtifactPlan → List String → Type 0
NamesDigest none requirements = Unit
NamesDigest (some artifact) requirements =
    contains requirements ("sha256:" <> artifact.sha256) ≡ true

abbrev VerifiedLast : Option PlanStep → PlanStep → Type 0
VerifiedLast none step = ⊥
VerifiedLast (some before) step =
    (before.kind ≡ StepKind.verify)
    × (before.artifact ≡ step.artifact)
    × NamesDigest step.artifact before.verification_requirements

abbrev pub AppliesVerified : Option PlanStep → List PlanStep → Type 0
AppliesVerified before [] = Unit
AppliesVerified before (step ∷ steps) =
    (applies step.kind ≡ true → VerifiedLast before step) × AppliesVerified (some step) steps

AppliesVerified-append :
    (before : Option PlanStep) (xs ys : List PlanStep)
    → AppliesVerified before xs
    → ((last : Option PlanStep) → AppliesVerified last ys)
    → AppliesVerified before (xs ++ ys)
AppliesVerified-append before [] ys h k = k before
AppliesVerified-append before (x ∷ xs) ys h k = (h.0, AppliesVerified-append (some x) xs ys h.1 k)

digest_named :
    (source : PackageSource) (operation : Operation) (v : Option ArtifactVerification)
    → NamesDigest (plan_artifact source operation v) (artifact_requirements v)
unfolding plan_artifact artifact_requirements
digest_named source operation none = tt
digest_named source operation (some v) = rw (eq_refl ("sha256:" <> v.sha256))

apply_kind-ne-backend : (artifact : Option ArtifactPlan) → apply_kind artifact ≢ StepKind.backend
apply_kind-ne-backend none h = cc
apply_kind-ne-backend (some artifact) h = ground (arith, h)

module _ (index : ℕ) (resolution : Resolution) (source : PackageSource) (operation : Operation)
    (steps : List PlanStep) where
  artifact_steps-EachVerified :
      artifact_steps index resolution source operation ≡ ok steps → EachVerified steps
  unfolding remove_step download_step verify_step apply_step
  artifact_steps-EachVerified h =
      elim (artifact_steps-cases index resolution source operation steps h) [
        | inl (removed, same) ↦ subst EachVerified (sym same) (λ e. cc, tt)
        | inr (inl same) ↦ subst EachVerified (sym same) (λ e. cc, (λ e. cc, tt))
        | inr (inr same) ↦ subst EachVerified (sym same) (
          λ e. cc,
          (λ e. cc, (λ e. absurd (apply_kind-ne-backend (artifact_plan source operation) e), tt)),
        )
      ]

  artifact_steps-AppliesVerified :
      operation ≢ Operation.remove
      → (before : Option PlanStep) → artifact_steps index resolution source operation ≡ ok steps
      → AppliesVerified before steps
  unfolding download_step verify_step apply_step
  artifact_steps-AppliesVerified other before h =
      elim (artifact_steps-cases index resolution source operation steps h) [
        | inl (removed, same) ↦ absurd (ground (arith, removed, other))
        | inr (inl same) ↦ subst (AppliesVerified before) (sym same) (λ e. cc, (λ e. cc, tt))
        | inr (inr same) ↦ subst (AppliesVerified before) (sym same) (
          λ e. cc,
          (λ e. cc, (λ e. (refl, refl, digest_named source operation source.verification), tt)),
        )
      ]

backend_step-never_applies :
    (base_id : String) (resolution : Resolution) (source : PackageSource) (operation : Operation)
    (command : CommandSpec)
    → applies (backend_step base_id resolution source operation command).kind ≡ false
unfolding backend_step
backend_step-never_applies base_id resolution source operation command = ground arith

module _ (services : PlanServices) (platform : PlatformContext) (operation : Operation)
    (options : PlanOptions) where
  module _ (index : ℕ) (resolution : Resolution) (source : PackageSource)
      (steps : List PlanStep) where
    native_package_steps-EachVerified :
        is_observed operation ≡ true
        → native_package_steps services platform index resolution source operation options
          ≡ ok steps
        → EachVerified steps
    unfolding backend_step observe_step
    native_package_steps-EachVerified observed h =
        let (kind, found, (command, ran, shape)) =
          native_package_steps-Shape services platform operation options index resolution source
            steps h in
        elim shape [
          | inl (silent, same) ↦ absurd (ground (arith, observed, silent))
          | inr (query, (asked, offline, plain), same) ↦
              subst EachVerified (sym same)
                (λ e. (refl, refl, (query, refl, offline, plain)), (λ e. cc, tt))
        ]

    native_package_steps-AppliesVerified :
        (before : Option PlanStep)
        → native_package_steps services platform index resolution source operation options
          ≡ ok steps
        → AppliesVerified before steps
    unfolding observe_step
    native_package_steps-AppliesVerified before h =
        let (kind, found, (command, ran, shape)) =
          native_package_steps-Shape services platform operation options index resolution source
            steps h in
        let plain =
          backend_step-never_applies (step_id index) resolution source operation command in
        elim shape [
          | inl (silent, same) ↦
              subst (AppliesVerified before) (sym same) (λ e. absurd (ground (arith, e, plain)), tt)
          | inr (query, asked, same) ↦
              subst (AppliesVerified before) (sym same)
                (λ e. absurd (ground (arith, e, plain)), (λ e. cc, tt))
        ]

    package_steps-EachVerified :
        is_observed operation ≡ true
        → package_steps services platform index resolution source operation options ≡ ok steps
        → EachVerified steps
    unfolding no_change_step
    package_steps-EachVerified observed h =
        elim (package_steps-cases services platform operation options index resolution source steps
          h) [
            | inl same ↦ subst EachVerified (sym same) (λ e. cc, tt)
            | inr (inl artifact) ↦
                artifact_steps-EachVerified index resolution source operation steps artifact
            | inr (inr native) ↦ native_package_steps-EachVerified observed native
          ]

    package_steps-AppliesVerified :
        operation ≢ Operation.remove
        → (before : Option PlanStep)
        → package_steps services platform index resolution source operation options ≡ ok steps
        → AppliesVerified before steps
    unfolding no_change_step
    package_steps-AppliesVerified other before h =
        elim (package_steps-cases services platform operation options index resolution source steps
          h) [
            | inl same ↦ subst (AppliesVerified before) (sym same) (λ e. cc, tt)
            | inr (inl artifact) ↦
                artifact_steps-AppliesVerified index resolution source operation steps other before
                  artifact
            | inr (inr native) ↦ native_package_steps-AppliesVerified before native
          ]

module _ (services : PlanServices) (planner : Planner) (operation : Operation)
    (resolutions : List Resolution) (options : PlanOptions) (plan : ExecutionPlan)
    (built : build services planner operation resolutions options ≡ ok plan) where
  -- In a plan to install, remove, upgrade or repair, each step that runs a package manager is
  -- followed at once by a verification of the same package, whose command neither uses the
  -- network nor asks for privilege.
  pub build-EachVerified : is_observed operation ≡ true → EachVerified plan.steps
  unfolding plan_of
  build-EachVerified observed =
      let (collected, e, same) =
        build-collected services planner operation resolutions options plan built in
      subst EachVerified (ap (λ (p : ExecutionPlan). p.steps) (sym same)) (
        collect-steps services planner.platform operation options EachVerified tt
          EachVerified-append
          (λ index resolution source steps.
            package_steps-EachVerified services planner.platform operation options index resolution
              source steps observed)
          0 resolutions collected e)

  -- In a plan for anything but a removal, a step that unpacks or installs an artifact comes at once
  -- after a verification of the same artifact, whose requirements name the artifact's digest.
  pub build-AppliesVerified : operation ≢ Operation.remove → AppliesVerified none plan.steps
  unfolding plan_of
  build-AppliesVerified other =
      let (collected, e, same) =
        build-collected services planner operation resolutions options plan built in
      let applied : (before : Option PlanStep) → AppliesVerified before collected.steps =
        collect-steps services planner.platform operation options
          (λ steps. (before : Option PlanStep) → AppliesVerified before steps) (λ before. tt)
          (λ xs ys h k before. AppliesVerified-append before xs ys (h before) k)
          (λ index resolution source steps e before.
            package_steps-AppliesVerified services planner.platform operation options index
              resolution source steps other before e)
          0 resolutions collected e in
      subst (AppliesVerified none) (ap (λ (p : ExecutionPlan). p.steps) (sym same)) (applied none)
