-- ===== src/Resolver/Candidate.antt =====
-- `Rank`, `CandidateEvaluation` and `Resolver::evaluate`: what speaks against one source.
use siorb.Shared.{
  ℕ, ◌+◌, ◌%◌, ◌^◌, compare, Ordering, then_with, Bool, true, false, ◌&&◌, ◌||◌, not, Option, none,
  some, String, ◌<>◌, ◌==◌, List, [], ◌∷◌, ◌++◌, map, is_empty, if◌then◌else◌,
}
use siorb.Core.Platform.{Operation, InstalledPackage, PlatformContext, operation_eq}
use siorb.Catalog.{PackageManifest, PackageSource, ArtifactVerification}
use siorb.Policy.Layers.{LayeredPolicy, PolicyReason, PolicyDecision}
use siorb.Policy.Checks.{PolicyEvaluationContext, Services}
use siorb.Policy.Evaluate.{evaluate_with_context}
use siorb.Policy.Preference.{backend_preference}
use siorb.Resolver.Host.{
  ResolveOptions, Rejection, rejection_if, is_backend, host_rejections, backend_rejections,
}

pub record ResolutionContext : Type 0 where
  pub dry_run : Bool
  pub now_unix : Option ℕ
  pub network_urls : List String

-- `Reverse` is in the comparison. The priority is the two's complement of an `i32`.
pub record Rank : Type 0 where
  pub explicit_source : ℕ
  pub explicit_backend : ℕ
  pub policy_preference : ℕ
  pub trust : ℕ
  pub catalog_priority : ℕ

pub record CandidateEvaluation : Type 0 where
  pub source : PackageSource
  pub accepted : Bool
  pub rank : Option Rank
  pub rejections : List Rejection
  pub policy : PolicyDecision

-- An `i32` in its order, from 0 on.
abbrev pub signed_place : ℕ → ℕ
signed_place priority = (priority + 2 ^ 31) % 2 ^ 32

-- The derived order of `Rank`: by the fields in turn, the reversed ones the other way round.
unfoldable pub compare_ranks : Rank → Rank → Ordering
compare_ranks a b = then_with (compare a.explicit_source b.explicit_source) (
    then_with (compare a.explicit_backend b.explicit_backend) (
      then_with (compare b.policy_preference a.policy_preference) (
        then_with (compare a.trust b.trust)
          (compare (signed_place b.catalog_priority) (signed_place a.catalog_priority)))))

abbrev pub reasons_as_rejections : List PolicyReason → List Rejection
reasons_as_rejections [] = []
reasons_as_rejections (reason ∷ reasons) =
    record { code = reason.code; message = reason.message } ∷ reasons_as_rejections reasons

unfoldable pub policy_rejections : PolicyDecision → List Rejection
policy_rejections decision = if decision.allowed then [] else reasons_as_rejections decision.reasons

abbrev removes_or_upgrades : Operation → Bool
removes_or_upgrades operation =
    operation_eq operation Operation.remove || operation_eq operation Operation.upgrade

abbrev pub conflicts_with_pin : Option String → Option String → Bool
conflicts_with_pin (some pin) (some requested) = not (pin == requested)
conflicts_with_pin _ _ = false

unfoldable pub state_rejections :
    Option InstalledPackage → Operation → Option String → List Rejection
state_rejections none operation version = []
state_rejections (some installed) operation version =
    rejection_if (installed.held && removes_or_upgrades operation) "state.package.held"
      "package is held in Siorb state"
    ++ rejection_if (conflicts_with_pin installed.pinned version) "state.package.pinned"
        "requested version conflicts with the pin"

abbrev redirect_urls : Option ArtifactVerification → List String
redirect_urls none = []
redirect_urls (some verification) =
    map (λ host. "https://" <> host <> "/") verification.allowed_redirect_hosts

abbrev installed_version_of : Option InstalledPackage → Option String
installed_version_of none = none
installed_version_of (some installed) = installed.version

unfoldable pub candidate_policy_context :
    PackageSource
    → ResolveOptions
    → ResolutionContext
    → Option InstalledPackage
    → PolicyEvaluationContext
candidate_policy_context source options context installed = record {
  dry_run = context.dry_run;
  now_unix = context.now_unix;
  installed_version = installed_version_of installed;
  target_version = options.version;
  network_urls =
      if source.backend == "artifact"
      then source.package_id ∷ redirect_urls source.verification
      else context.network_urls;
}

abbrev flag : Bool → ℕ
flag true = 1
flag false = 0

abbrev names : Option String → String → Bool
names none value = false
names (some requested) value = requested == value

abbrev trust_level : String → ℕ
trust_level trust =
    if trust == "native"
    then 3
    else if trust == "sandboxed"
    then 2
    else if trust == "verified-upstream"
    then 1
    else 0

abbrev asks_for_backend : PackageSource → Option String → Bool
asks_for_backend source none = false
asks_for_backend source (some requested) = is_backend source requested

unfoldable pub rank_of : LayeredPolicy → PackageSource → ResolveOptions → Rank
rank_of policy source options = record {
  explicit_source = flag (names options.source source.id);
  explicit_backend = flag (asks_for_backend source options.via);
  policy_preference = backend_preference policy source.backend;
  trust = trust_level source.trust;
  catalog_priority = source.priority;
}

module _ (services : Services) (platform : PlatformContext) (policy : LayeredPolicy) where
  -- `Resolver::evaluate`
  unfoldable pub evaluate :
      PackageManifest
      → PackageSource
      → Operation
      → ResolveOptions
      → ResolutionContext
      → Option InstalledPackage
      → CandidateEvaluation
  evaluate manifest source operation options context installed =
      let decision =
        evaluate_with_context services policy manifest source operation
          (candidate_policy_context source options context installed) in
      let rejections =
        host_rejections platform source options
        ++ backend_rejections platform source
        ++ policy_rejections decision
        ++ state_rejections installed operation options.version in
      let accepted = is_empty rejections in
      record {
        source = source;
        accepted = accepted;
        rank = if accepted then some (rank_of policy source options) else none;
        rejections = rejections;
        policy = decision;
      }
