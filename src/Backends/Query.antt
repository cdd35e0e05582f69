-- ===== src/Backends/Query.antt =====
-- crates/siorb-backends/src/lib.rs: `BackendQueryResult`, what a query of the host showed.
use siorb.Shared.{false, not, Option, none, some, String}
use siorb.Core.Errors.{
  Result, ok, err, ErrorKind, SiorbError, with_reason, ok_or, ◌>>=◌, ◌>>◌, reject_if,
}
use siorb.Core.Platform.{Scope, InstalledPackage}
use siorb.Policy.Versions.{Semver}
use siorb.Resolver.Constraint.{Requirements, VersionConstraint, matches}

pub data QueryStatus : Type 0 where
  installed not_installed indeterminate : QueryStatus

pub record BackendQueryResult : Type 0 where
  pub status : QueryStatus
  pub native_id : String
  pub observed_version : Option String
  pub reason_code : String

-- `verification_error`
abbrev pub verification_error : String → SiorbError
verification_error reason = with_reason ErrorKind.verification_failure reason

-- `BackendQueryResult::to_installed_package`
unfoldable pub to_installed_package :
    BackendQueryResult → String → String → Scope → Option InstalledPackage
to_installed_package result logical_id backend scope = elim result.status [
  | QueryStatus.installed ↦ some (record {
    logical_id = logical_id;
    native_id = result.native_id;
    backend = backend;
    version = result.observed_version;
    scope = scope;
    receipt = false;
    held = false;
    pinned = none;
  })
  | QueryStatus.not_installed ↦ none
  | QueryStatus.indeterminate ↦ none
]

abbrev check_status : QueryStatus → Result (Unit {0})
check_status QueryStatus.not_installed = err (verification_error "backend.verify.not_installed")
check_status QueryStatus.indeterminate = err (verification_error "backend.verify.indeterminate")
check_status QueryStatus.installed = ok tt

module _ {semver : Semver} (requirements : Requirements semver) where
  abbrev check_observed :
      Option String → Option (VersionConstraint requirements) → Result (Unit {0})
  check_observed observed none = ok tt
  check_observed observed (some constraint) = do
    version ← ok_or observed (verification_error "backend.verify.version_missing")
    reject_if (not (matches requirements constraint version))
        (verification_error "backend.verify.version_mismatch")

  -- `BackendQueryResult::verify`
  unfoldable pub verify_result :
      BackendQueryResult → Option (VersionConstraint requirements) → Result (Unit {0})
  verify_result result constraint = do
    check_status result.status
    check_observed result.observed_version constraint
