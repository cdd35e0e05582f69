-- ===== src/Executor/Tests.antt =====
-- A plan for a package of apt passes the check before it runs, and its receipt is written.
use siorb.Shared.{
  false, ◌≡◌, refl, subst, Any, ◌⊎◌, get, insert, ◌<>◌, ◌==◌, some, List, [], ◌∷◌, ascii_lowercase,
  decimal,
}
use siorb.Core.Errors.{ok}
use siorb.Core.Platform.{Operation, backend}
use siorb.Catalog.{PackageSource, tool_backend}
use siorb.Resolver.Constraint.{
  parse_constraint, is_safe_exact_version, exact_constraint, exact_requirement, normalize_version,
  requirement_of,
}
use siorb.Resolver.Resolve.{Resolution, require_selected}
use siorb.Backends.{backend_id, from_catalog}
use siorb.Backends.Arguments.{
  arguments_with_version, version_argument, arguments_for, install_arguments, query_arguments,
  validate_version_argument, unsafe_version,
}
use siorb.Backends.Command.{validate_package_id, unsafe_package_id, validate_command, build_command}
use siorb.Planner.{ExecutionPlan}
use siorb.Planner.Steps.{
  step_id, backend_step, observe_step, native_steps, observed_steps, requested_constraint,
}
use siorb.Planner.Artifacts.{artifact_steps}
use siorb.Planner.Build.{
  Collected, planned_package, no_change, native_package_steps, package_steps, collect, plan_of,
  build,
}
use siorb.Executor.Guards.{validate_native_receipt_verification}
use siorb.Executor.Guards.Built.{build-validate_native_receipt_verification}
use siorb.Backends.Query.{QueryStatus, BackendQueryResult, verify_result}
use siorb.State.Store.{Receipt, empty_store, write_receipt, validate_component}
use siorb.Executor.{package_requires_receipt_commit, step_commits_machine_state}
use siorb.Executor.Receipts.{
  ReceiptServices, commit_receipts, commit_packages, commit_package, commit_written,
  check_observation, check_observed, receipt_of,
}
use siorb.Executor.Receipts.{commit_removal, check_removal}
use siorb.Executor.Receipts.Removed.{IsRemoved, commit_receipts-IsRemoved}
use siorb.State.Store.{StateStore, remove_receipt}
use siorb.Shared.{remove, none}
use siorb.Executor.Receipts.Observed.{IsWritten, commit_receipts-IsWritten}
use siorb.Resolver.Constraint.{matches}
use siorb.Planner.Tests.{services, planner, options, firefox, resolved, command, query}

abbrev resolutions : List Resolution
resolutions = resolved "firefox" firefox (some "=128.0") ∷ []

abbrev collected : Collected
collected = record {
  packages = planned_package (resolved "firefox" firefox (some "=128.0")) firefox options ∷ [];
  steps =
      backend_step "step-0001" (resolved "firefox" firefox (some "=128.0")) firefox
        Operation.install command
      ∷ observe_step "step-0001" (resolved "firefox" firefox (some "=128.0")) Operation.install
          query
      ∷ [];
  warnings = [];
}

abbrev plan : ExecutionPlan
plan = plan_of services planner Operation.install resolutions collected

built : build services planner Operation.install resolutions options ≡ ok plan
unfolding build collect require_selected package_steps no_change native_package_steps from_catalog
    backend ascii_lowercase tool_backend native_steps requested_constraint parse_constraint
    requirement_of exact_constraint exact_requirement normalize_version build_command
    validate_package_id arguments_for arguments_with_version install_arguments query_arguments
    unsafe_version validate_version_argument version_argument unsafe_package_id backend_id
    validate_command observed_steps step_id backend_step artifact_steps decimal
    is_safe_exact_version
built = refl

native : (s : PackageSource) → some firefox ≡ some s → s.backend == "artifact" ≡ false
native s h =
    let same : firefox ≡ s = cc in
    subst (λ (x : PackageSource). x.backend == "artifact" ≡ false) same refl

build-validate_native_receipt_verification_example :
    validate_native_receipt_verification plan ≡ ok tt
build-validate_native_receipt_verification_example =
    build-validate_native_receipt_verification services planner Operation.install resolutions
      options plan (native, tt) built

abbrev observed : BackendQueryResult
observed = record {
  status = QueryStatus.installed;
  native_id = "firefox";
  observed_version = some "128.0";
  reason_code = "backend.query.installed";
}

abbrev receipt_services : ReceiptServices
receipt_services = record { unix_timestamp = 1784000000; artifact_path = λ id. "artifacts/" <> id }

abbrev receipt : Receipt
receipt =
    receipt_of services.requirements receipt_services plan "tx-1"
      (planned_package (resolved "firefox" firefox (some "=128.0")) firefox options) (some observed)
      "backend.query.installed"

stands :
    get
      (commit_receipts services.requirements receipt_services plan "tx-1"
        (("firefox", observed) ∷ [])
        empty_store).0.receipt_files
      "firefox.json"
    ≡ some receipt
unfolding commit_receipts commit_packages commit_package commit_written check_observation
    check_observed verify_result write_receipt validate_component package_requires_receipt_commit
    step_commits_machine_state plan_of backend_step observe_step planned_package
    requested_constraint parse_constraint requirement_of exact_constraint exact_requirement
    normalize_version is_safe_exact_version matches receipt_of get insert
stands = refl

commit_receipts-IsWritten_example :
    (get empty_store.receipt_files "firefox.json" ≡ some receipt)
    ⊎ Any
        (IsWritten services.requirements receipt_services plan "tx-1"
          (("firefox", observed) ∷ [])
          "firefox.json"
          receipt)
        plan.packages
commit_receipts-IsWritten_example =
    commit_receipts-IsWritten services.requirements receipt_services plan "tx-1"
      (("firefox", observed) ∷ []) empty_store "firefox.json" receipt stands

abbrev removal : ExecutionPlan
removal = record plan { operation = Operation.remove }

abbrev gone : BackendQueryResult
gone = record observed { status = QueryStatus.not_installed; observed_version = none }

abbrev store : StateStore
store = record empty_store { receipt_files = ("firefox.json", receipt) ∷ [] }

stood : get store.receipt_files "firefox.json" ≡ some receipt
unfolding get
stood = refl

taken :
    get
      (commit_receipts services.requirements receipt_services removal "tx-2"
        (("firefox", gone) ∷ [])
        store).0.receipt_files
      "firefox.json"
    ≡ none
unfolding commit_receipts commit_packages commit_package commit_removal check_removal remove_receipt
    validate_component package_requires_receipt_commit step_commits_machine_state plan_of
    backend_step observe_step planned_package get remove
taken = refl

commit_receipts-IsRemoved_example :
    Any
      (IsRemoved services.requirements receipt_services removal "tx-2"
        (("firefox", gone) ∷ [])
        "firefox.json")
      removal.packages
commit_receipts-IsRemoved_example =
    commit_receipts-IsRemoved services.requirements receipt_services removal "tx-2"
      (("firefox", gone) ∷ []) store "firefox.json" receipt stood taken
