-- ===== src/Executor/Receipts/Queried.antt =====
-- What an observation that is accepted for a receipt shows.
use siorb.Shared.{
  true, false, not, ◌≡◌, refl, subst, ◌==◌, eq_iff, Option, none, some, String, arith,
}
use siorb.Core.Errors.{ok, >>=-eq-ok, reject_if-eq-ok}
use siorb.Policy.Versions.{Semver}
use siorb.Resolver.Constraint.{Requirements, VersionConstraint, matches}
use siorb.Backends.Query.{QueryStatus, BackendQueryResult, verify_result}
use siorb.State.Store.{Receipt}
use siorb.Planner.{PlannedPackage}
use siorb.Planner.Steps.{requested_constraint}
use siorb.Executor.Receipts.{check_observed, version_missing}

module _ {semver : Semver} (requirements : Requirements semver) where
  -- The package manager says of the package that it is installed, in a version that is known and
  -- meets the one that is asked for.
  abbrev pub IsObserved : PlannedPackage → BackendQueryResult → Receipt → Type 0
  IsObserved planned observed receipt =
      (observed.native_id ≡ planned.native_id)
      × (observed.status ≡ QueryStatus.installed)
      × (receipt.observed_version ≡ observed.observed_version)
      × ((version : String) × (observed.observed_version ≡ some version)
          × ((constraint : VersionConstraint requirements)
              → requested_constraint requirements planned.desired_version ≡ ok (some constraint)
              → matches requirements constraint version ≡ true))

  verify_result-installed :
      (observed : BackendQueryResult) (constraint : Option (VersionConstraint requirements))
      → verify_result requirements observed constraint ≡ ok tt
      → observed.status ≡ QueryStatus.installed
  unfolding verify_result
  verify_result-installed observed constraint h = ground (arith, h)

  verify_result-matches :
      (observed : BackendQueryResult) (constraint : VersionConstraint requirements) (v : String)
      → observed.observed_version ≡ some v
      → verify_result requirements observed (some constraint) ≡ ok tt
      → matches requirements constraint v ≡ true
  unfolding verify_result
  verify_result-matches observed constraint v e h = ground (arith, e, h)

  version_known :
      (version : Option String)
      → version_missing version ≡ false
      → (v : String) × (version ≡ some v)
  version_known none h = cc
  version_known (some v) h = (v, refl)

  pub check_observed-parts :
      (planned : PlannedPackage) (observed : BackendQueryResult) (reason : String)
      → check_observed requirements planned observed ≡ ok reason
      → (observed.native_id ≡ planned.native_id)
        × (observed.status ≡ QueryStatus.installed)
        × ((version : String) × (observed.observed_version ≡ some version)
            × ((constraint : VersionConstraint requirements)
                → requested_constraint requirements planned.desired_version ≡ ok (some constraint)
                → matches requirements constraint version ≡ true))
  unfolding check_observed
  check_observed-parts planned observed reason h =
      let (same, h1) = reject_if-eq-ok (not (observed.native_id == planned.native_id)) _ _ h in
      let (given, e2, h2) =
        >>=-eq-ok (requested_constraint requirements planned.desired_version) _ h1 in
      let (done, e3, h3) = >>=-eq-ok (verify_result requirements observed given) _ h2 in
      let (known, h4) = reject_if-eq-ok (version_missing observed.observed_version) _ _ h3 in
      let (version, e) = version_known observed.observed_version known in
      (
        (eq_iff observed.native_id planned.native_id).0 (ground (arith, same)),
        verify_result-installed observed given e3,
        (
          version,
          e,
          λ constraint asked.
              let same : given ≡ some constraint = cc in
              verify_result-matches observed constraint version e (
                subst
                  (λ (c : Option (VersionConstraint requirements)).
                    verify_result requirements observed c ≡ ok tt)
                  same e3),
        ),
      )
