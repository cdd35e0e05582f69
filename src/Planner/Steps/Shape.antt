-- ===== src/Planner/Steps/Shape.antt =====
-- What the steps of `native_steps` are.
use siorb.Shared.{
  ℕ, Bool, false, ◌≡◌, subst, if◌then◌else◌, ◌||◌, Option, none, String, List, [], ◌∷◌, arith,
  Bool-cases, inl, inr, ◌⊎◌,
}
use siorb.Core.Errors.{ok, ErrorKind, with_reason, >>=-eq-ok, reject_if-eq-ok}
use siorb.Core.Platform.{Operation, BackendInfo}
use siorb.Catalog.{PackageSource}
use siorb.Policy.Versions.{Semver}
use siorb.Resolver.Constraint.{Requirements, VersionConstraint}
use siorb.Resolver.Resolve.{Resolution}
use siorb.Backends.{CommandSpec, PlanOptions, BackendKind}
use siorb.Backends.Command.{build_command}
use siorb.Planner.{PlanStep}
use siorb.Planner.Steps.{
  step_id, is_observed, backend_step, observe_step, query_options, requested_constraint,
  constraint_for, observed_steps, native_steps,
}

module _ (is_absolute : String → Bool) {semver : Semver} (requirements : Requirements semver)
    (index : ℕ) (resolution : Resolution) (source : PackageSource) (operation : Operation)
    (kind : BackendKind) (backend : BackendInfo) (options : PlanOptions)
    (steps : List PlanStep) where
  -- The query that follows a change, which neither uses the network nor asks for privilege.
  abbrev pub Observes : CommandSpec → Type 0
  Observes query =
      (build_command is_absolute requirements kind Operation.verify backend source query_options
          none
        ≡ ok query)
      × (query.network ≡ false)
      × (query.requires_privilege ≡ false)

  abbrev pub Ran : CommandSpec → Type 0
  Ran command =
      (constraint : Option (VersionConstraint requirements)) × (build_command is_absolute
          requirements kind operation backend source options constraint
        ≡ ok command)

  abbrev first : CommandSpec → PlanStep
  first command = backend_step (step_id index) resolution source operation command

  -- One step that runs the command, or that step and the one that asks for the result.
  abbrev pub Shape : Type 0
  Shape =
      (command : CommandSpec) × Ran command
      × (((is_observed operation ≡ false) × (steps ≡ first command ∷ []))
          ⊎ ((query : CommandSpec) × Observes query
              × (steps
                  ≡ first command ∷ observe_step (step_id index) resolution operation query ∷ [])))

  observed_steps-Shape :
      (command : CommandSpec)
      → observed_steps is_absolute requirements
          (step_id index)
          resolution
          source
          operation
          kind
          backend
          (first command)
        ≡ ok steps
      → (query : CommandSpec) × Observes query
        × (steps ≡ first command ∷ observe_step (step_id index) resolution operation query ∷ [])
  unfolding observed_steps
  observed_steps-Shape command h =
      let (query, e1, h1) =
        >>=-eq-ok
          (build_command is_absolute requirements kind Operation.verify backend source query_options
            none)
          _ h in
      let (quiet, h2) =
        reject_if-eq-ok (query.network || query.requires_privilege)
          (with_reason ErrorKind.verification_failure "plan.verification.not_read_only") _ h1 in
      (query, (e1, ground (arith, quiet), ground (arith, quiet)), cc)

  pub native_steps-Shape :
      native_steps is_absolute requirements index resolution source operation kind backend options
        ≡ ok steps
      → Shape
  unfolding native_steps
  native_steps-Shape h =
      let (constraint, e1, h1) =
        >>=-eq-ok (requested_constraint requirements resolution.requested_version) _ h in
      let given = constraint_for requirements operation constraint in
      let (command, e2, h2) =
        >>=-eq-ok
          (build_command is_absolute requirements kind operation backend source options given) _
          h1 in
      let branch : Bool → Type 0 = λ b.
        (if b
          then observed_steps is_absolute requirements (step_id index) resolution source operation
              kind backend (first command)
          else ok (first command ∷ []))
        ≡ ok steps in
      elim (Bool-cases (is_observed operation)) [
        | inl observed ↦
            (command, (given, e2), inr (observed_steps-Shape command (subst branch observed h2)))
        | inr silent ↦
            let only : ok (first command ∷ []) ≡ ok steps = subst branch silent h2 in
            (command, (given, e2), inl (silent, cc))
      ]
