-- ===== src/Planner/Artifacts.antt =====
-- `artifact_steps`: the steps for a package that is downloaded by itself.
use siorb.Shared.{
  ℕ, Bool, true, false, Option, none, some, String, ◌<>◌, List, [], ◌∷◌, if◌then◌else◌,
}
use siorb.Core.Errors.{Result, ok, err, ErrorKind, with_reason}
use siorb.Core.Platform.{Operation, operation_eq}
use siorb.Catalog.{PackageSource, ArtifactVerification, ArtifactKind}
use siorb.Resolver.Resolve.{Resolution}
use siorb.Planner.{PlanStep, ArtifactPlan, StepKind}
use siorb.Planner.Steps.{step_id}

abbrev text_or_empty : Option String → String
text_or_empty none = ""
text_or_empty (some text) = text

abbrev number_or_zero : Option ℕ → ℕ
number_or_zero none = 0
number_or_zero (some n) = n

-- The recipe of the artifact, from its verification material.
unfoldable pub plan_artifact :
    PackageSource → Operation → Option ArtifactVerification → Option ArtifactPlan
plan_artifact source operation none = none
plan_artifact source operation (some verification) = some (record {
  operation = operation;
  url = source.package_id;
  sha256 = verification.sha256;
  signer = verification.signer;
  content_type = text_or_empty verification.content_type;
  max_bytes = number_or_zero verification.max_bytes;
  kind = verification.kind;
  format = verification.format;
  archive_format = verification.archive_format;
  payload_path = verification.payload_path;
  strip_components = verification.strip_components;
  install_arguments = verification.install_arguments;
  allowed_redirect_hosts = verification.allowed_redirect_hosts;
})

abbrev pub artifact_plan : PackageSource → Operation → Option ArtifactPlan
artifact_plan source operation = plan_artifact source operation source.verification

abbrev signer_requirement : Option String → List String
signer_requirement none = []
signer_requirement (some signer) = ("signer:" <> signer) ∷ []

unfoldable pub artifact_requirements : Option ArtifactVerification → List String
artifact_requirements none = []
artifact_requirements (some verification) =
    ("sha256:" <> verification.sha256) ∷ signer_requirement verification.signer

abbrev max_bytes_of : Option ArtifactVerification → Option ℕ
max_bytes_of none = none
max_bytes_of (some verification) = verification.max_bytes

abbrev pub native_installer : Option ArtifactPlan → Bool
native_installer none = false
native_installer (some artifact) = elim artifact.kind [
  | ArtifactKind.native_installer ↦ true
  | _ ↦ false
]

abbrev pub apply_kind : Option ArtifactPlan → StepKind
apply_kind none = StepKind.installer
apply_kind (some artifact) = elim artifact.kind [
  | ArtifactKind.native_installer ↦ StepKind.installer
  | _ ↦ StepKind.extract
]

module _ (index : ℕ) (resolution : Resolution) (source : PackageSource)
    (operation : Operation) where
  unfoldable pub remove_step : PlanStep
  remove_step = record {
    id = step_id index <> "-remove";
    logical_id = resolution.canonical_id;
    kind = StepKind.extract;
    command = none;
    artifact = artifact_plan source operation;
    network_endpoints = [];
    expected_download_bytes = none;
    verification_requirements = "matching Siorb artifact receipt" ∷ [];
    requires_privilege = false;
    agreements = [];
    destructive = true;
  }

  unfoldable pub download_step : PlanStep
  download_step = record {
    id = step_id index <> "-download";
    logical_id = resolution.canonical_id;
    kind = StepKind.download;
    command = none;
    artifact = artifact_plan source operation;
    network_endpoints = source.package_id ∷ [];
    expected_download_bytes = max_bytes_of source.verification;
    verification_requirements = artifact_requirements source.verification;
    requires_privilege = false;
    agreements = [];
    destructive = false;
  }

  unfoldable pub verify_step : PlanStep
  verify_step = record {
    id = step_id index <> "-verify";
    logical_id = resolution.canonical_id;
    kind = StepKind.verify;
    command = none;
    artifact = artifact_plan source operation;
    network_endpoints = [];
    expected_download_bytes = none;
    verification_requirements = artifact_requirements source.verification;
    requires_privilege = false;
    agreements = [];
    destructive = false;
  }

  unfoldable pub apply_step : PlanStep
  apply_step = record {
    id = step_id index <> "-install";
    logical_id = resolution.canonical_id;
    kind = apply_kind (artifact_plan source operation);
    command = none;
    artifact = artifact_plan source operation;
    network_endpoints = [];
    expected_download_bytes = none;
    verification_requirements = "verified bytes from the preceding step" ∷ [];
    requires_privilege = source.requires_privilege;
    agreements = [];
    destructive = false;
  }

  unfoldable pub artifact_steps : Result (List PlanStep)
  artifact_steps =
      if operation_eq operation Operation.adopt
      then err (with_reason ErrorKind.verification_failure "artifact.adopt.unsupported")
      else if operation_eq operation Operation.remove
      then if native_installer (artifact_plan source operation)
        then err (with_reason ErrorKind.backend_failure "artifact.remove.unsupported")
        else ok (remove_step ∷ [])
      else if operation_eq operation Operation.verify
      then ok (download_step ∷ verify_step ∷ [])
      else ok (download_step ∷ verify_step ∷ apply_step ∷ [])
