-- ===== src/Executor/Receipts.antt =====
-- `commit_receipts`: what is written to the state store after the last step.
pub mod Queried
pub mod Observed
pub mod Removed
use siorb.Shared.{
  ℕ, Bool, true, false, not, ◌&&◌, ◌||◌, ◌==◌, Option, none, some, String, List, [], ◌∷◌, any, Map,
  get, if◌then◌else◌,
}
use siorb.Core.Errors.{
  Result, ok, err, ErrorKind, SiorbError, with_reason, ok_or, ◌>>=◌, ◌>>◌, reject_if,
}
use siorb.Core.Platform.{Operation, Architecture, operation_eq}
use siorb.Catalog.{ArtifactKind}
use siorb.Policy.Versions.{Semver}
use siorb.Resolver.Constraint.{Requirements}
use siorb.Backends.Query.{QueryStatus, BackendQueryResult, verify_result}
use siorb.State.Store.{
  StateStore, Receipt, ReceiptOrigin, VerificationStatus, write_receipt, remove_receipt,
}
use siorb.Planner.{PlanStep, StepKind, ArtifactPlan, PlannedPackage, ExecutionPlan}
use siorb.Planner.Steps.{requested_constraint}
use siorb.Executor.{package_requires_receipt_commit}

-- The clock, and the path of a package's own files below the root of the store.
pub record ReceiptServices : Type 0 where
  pub unix_timestamp : ℕ
  pub artifact_path : String → String

-- `Architecture`'s `Display`
unfoldable pub architecture_name : Architecture → String
architecture_name Architecture.x86_64 = "x86_64"
architecture_name Architecture.arm64 = "arm64"
architecture_name Architecture.x86 = "x86"
architecture_name Architecture.arm = "arm"
architecture_name Architecture.unknown = "unknown"

abbrev is_portable : Option ArtifactPlan → Bool
is_portable none = false
is_portable (some artifact) = elim artifact.kind [
  | ArtifactKind.native_installer ↦ false
  | _ ↦ true
]

abbrev is_extract : StepKind → Bool
is_extract StepKind.extract = true
is_extract _ = false

-- `package_has_owned_artifact`
unfoldable pub package_has_owned_artifact : ExecutionPlan → String → Bool
package_has_owned_artifact plan logical_id =
    any
      (λ (step : PlanStep).
        step.logical_id == logical_id && is_extract step.kind && is_portable step.artifact)
      plan.steps

abbrev is_absent : QueryStatus → Bool
is_absent QueryStatus.not_installed = true
is_absent _ = false

abbrev receipt_error : String → SiorbError
receipt_error reason = with_reason ErrorKind.verification_failure reason

-- A removal keeps the receipt unless the package manager says that the package is gone.
unfoldable pub check_removal : PlannedPackage → Option BackendQueryResult → Result (Unit {0})
check_removal planned observation = if planned.backend == "artifact" then ok tt else do
  observed ← ok_or observation (receipt_error "receipt.removal_observation.missing")
  reject_if (not (observed.native_id == planned.native_id) || not (is_absent observed.status))
      (receipt_error "receipt.removal_not_verified")

abbrev pub version_missing : Option String → Bool
version_missing none = true
version_missing (some version) = false

abbrev observed_version_of : Option BackendQueryResult → Option String
observed_version_of none = none
observed_version_of (some observed) = observed.observed_version

module _ {semver : Semver} (requirements : Requirements semver) where
  unfoldable pub check_observed : PlannedPackage → BackendQueryResult → Result String
  check_observed planned observed = do
    reject_if (not (observed.native_id == planned.native_id))
        (receipt_error "receipt.observation.identity_mismatch")
    constraint ← requested_constraint requirements planned.desired_version
    verify_result requirements observed constraint
    reject_if (version_missing observed.observed_version)
        (receipt_error "receipt.observation.version_missing")
    ok observed.reason_code

  -- The reason that stands in the receipt.
  unfoldable pub check_observation : PlannedPackage → Option BackendQueryResult → Result String
  check_observation planned none =
      if planned.backend == "artifact"
      then ok "artifact digest, signer, type, and structure verified"
      else err (receipt_error "receipt.observation.missing")
  check_observation planned (some observed) = check_observed planned observed

  module _ (services : ReceiptServices) (plan : ExecutionPlan) (transaction_id : String) where
    unfoldable pub receipt_of : PlannedPackage → Option BackendQueryResult → String → Receipt
    receipt_of planned observation reason = record {
      schema_version = "1.0";
      logical_id = planned.logical_id;
      native_id = planned.native_id;
      backend = planned.backend;
      source_id = planned.source_id;
      requested_version = planned.desired_version;
      observed_version = observed_version_of observation;
      scope = planned.scope;
      channel = planned.channel;
      architecture = architecture_name planned.architecture;
      catalog_fingerprint = plan.catalog_fingerprint;
      policy_fingerprint = plan.policy_fingerprint;
      installed_at_unix = services.unix_timestamp;
      verification = record {
        status = VerificationStatus.verified;
        checked_at_unix = services.unix_timestamp;
        reason = reason;
      };
      owned_files =
          if planned.backend == "artifact" && package_has_owned_artifact plan planned.logical_id
          then services.artifact_path planned.logical_id ∷ []
          else [];
      transaction_id = transaction_id;
      origin =
          if operation_eq plan.operation Operation.adopt
          then ReceiptOrigin.adopted
          else ReceiptOrigin.installed;
    }

    unfoldable pub commit_removal :
        PlannedPackage → Option BackendQueryResult → StateStore → Result StateStore
    commit_removal planned observation store = do
      check_removal planned observation
      remove_receipt planned.logical_id store

    unfoldable pub commit_written :
        PlannedPackage → Option BackendQueryResult → StateStore → Result StateStore
    commit_written planned observation store = do
      reason ← check_observation planned observation
      write_receipt (receipt_of planned observation reason) store

    -- The match on the operation for a package that requires a commit, which none does for
    -- `reconcile` and `verify`. A failure leaves the store.
    unfoldable pub commit_package :
        PlannedPackage → Option BackendQueryResult → StateStore → Result StateStore
    commit_package planned observation store =
        if operation_eq plan.operation Operation.remove
        then commit_removal planned observation store
        else commit_written planned observation store

    -- The loop over the packages: the store that it leaves, and whether any receipt changed.
    unfoldable pub commit_packages :
        Map BackendQueryResult → List PlannedPackage → Bool → StateStore → StateStore × Result Bool
    commit_packages observations [] changed store = (store, ok changed)
    commit_packages observations (planned ∷ packages) changed store =
        elim (package_requires_receipt_commit plan planned.logical_id) [
          | false ↦ commit_packages observations packages changed store
          | true ↦ elim (commit_package planned (get observations planned.logical_id) store) [
            | ok committed ↦ commit_packages observations packages true committed
            | err e ↦ (store, err e)
          ]
        ]

    -- `commit_receipts`
    unfoldable pub commit_receipts : Map BackendQueryResult → StateStore → StateStore × Result Bool
    commit_receipts observations store = commit_packages observations plan.packages false store
