-- ===== src/Planner.antt =====
-- crates/siorb-planner/src/lib.rs: plans, and their revalidation before they run.
pub mod Steps
pub mod Artifacts
pub mod Build
pub mod Revalidate
pub mod Tests
use siorb.Shared.{
  ℕ, Bool, true, false, not, ◌&&◌, Option, none, some, String, List, any, is_empty, if◌then◌else◌,
}
use siorb.Core.Platform.{Operation, Scope, Architecture, operation_eq}
use siorb.Catalog.{ArtifactKind, ArtifactFormat}
use siorb.Backends.{CommandSpec}

pub data Reproducibility : Type 0 where
  fully_reproducible best_effort unresolved : Reproducibility

pub data StepKind : Type 0 where
  backend download verify extract installer receipt no_change : StepKind

pub record ArtifactPlan : Type 0 where
  pub operation : Operation
  pub url : String
  pub sha256 : String
  pub signer : Option String
  pub content_type : String
  pub max_bytes : ℕ
  pub kind : ArtifactKind
  pub format : ArtifactFormat
  pub archive_format : Option String
  pub payload_path : Option String
  pub strip_components : ℕ
  pub install_arguments : List String
  pub allowed_redirect_hosts : List String

-- The texts `description` and `rollback_hint` are for people and are left out.
pub record PlanStep : Type 0 where
  pub id : String
  pub logical_id : String
  pub kind : StepKind
  pub command : Option CommandSpec
  pub artifact : Option ArtifactPlan
  pub network_endpoints : List String
  pub expected_download_bytes : Option ℕ
  pub verification_requirements : List String
  pub requires_privilege : Bool
  pub agreements : List String
  pub destructive : Bool

pub record PlannedPackage : Type 0 where
  pub requested : String
  pub logical_id : String
  pub source_id : String
  pub backend : String
  pub native_id : String
  pub current_version : Option String
  pub desired_version : Option String
  pub scope : Scope
  pub channel : String
  pub architecture : Architecture

pub record RevalidationGuard : Type 0 where
  pub platform_fingerprint : String
  pub catalog_fingerprint : String
  pub policy_fingerprint : String
  pub installed_fingerprint : String

-- The texts of `recovery_guidance` and the empty `conflicts` are left out.
pub record ExecutionPlan : Type 0 where
  pub schema_version : String
  pub plan_id : String
  pub operation : Operation
  pub requested : List String
  pub catalog_fingerprint : String
  pub platform_fingerprint : String
  pub policy_fingerprint : Option String
  pub created_at_unix : ℕ
  pub reproducibility : Reproducibility
  pub packages : List PlannedPackage
  pub steps : List PlanStep
  pub warnings : List String
  pub revalidation : RevalidationGuard

abbrev pub changes : StepKind → Bool
changes StepKind.no_change = false
changes StepKind.verify = false
changes _ = true

-- `ExecutionPlan::changes_machine`, `requires_privilege` and `requires_agreements`.
unfoldable pub changes_machine : ExecutionPlan → Bool
changes_machine plan =
    if operation_eq plan.operation Operation.verify
    then false
    else any (λ (step : PlanStep). changes step.kind) plan.steps

unfoldable pub plan_requires_privilege : ExecutionPlan → Bool
plan_requires_privilege plan = any (λ (step : PlanStep). step.requires_privilege) plan.steps

unfoldable pub requires_agreements : ExecutionPlan → Bool
requires_agreements plan = any (λ (step : PlanStep). not (is_empty step.agreements)) plan.steps
