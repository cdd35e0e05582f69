-- ===== src/Policy/Layers.antt =====
-- `PolicyFile`, `LayeredPolicy`, the validation of a layer, and the self-update decision.
pub mod SelfUpdate
use siorb.Shared.{
  ℕ, Bool, true, false, ◌&&◌, ◌||◌, not, Option, none, some, String, ◌<>◌, len, ◌==◌, List, [], ◌∷◌,
  ◌++◌, map, any, all, is_empty, text_empty, trim, is_ascii, chars_any, chars_all,
  is_ascii_uppercase, is_ascii_alphanumeric, starts_with_char, ends_with_char, split_on, ltb, leb,
  eqb, if◌then◌else◌,
}
use siorb.Core.Errors.{Result, ok, err, ErrorKind, SiorbError, with_reason, ◌>>=◌, ◌>>◌, reject_if}

pub record PolicyFile : Type 0 where
  pub schema_version : String
  pub id : String
  pub allow_packages : List String
  pub deny_packages : List String
  pub allow_categories : List String
  pub deny_categories : List String
  pub allow_sources : List String
  pub deny_sources : List String
  pub allow_backends : List String
  pub deny_backends : List String
  pub allow_channels : List String
  pub deny_channels : List String
  pub allow_scopes : List String
  pub deny_scopes : List String
  pub allow_licenses : List String
  pub deny_licenses : List String
  pub preferred_backends : List String
  pub require_signatures : Bool
  pub require_digests : Bool
  pub trusted_publishers : List String
  pub minimum_provenance : Option String
  pub forbid_artifacts : Bool
  pub forbid_prerelease : Bool
  pub require_confirmation : Bool
  pub require_dry_run : Bool
  pub network_domains : List String
  pub prevent_downgrade : Bool
  pub prevent_uninstall : Bool
  pub freshness_days : Option ℕ
  pub allow_self_update : Option Bool

-- `PolicyFile::default`
abbrev pub default_policy : PolicyFile
default_policy = record {
  schema_version = "";
  id = "";
  allow_packages = [];
  deny_packages = [];
  allow_categories = [];
  deny_categories = [];
  allow_sources = [];
  deny_sources = [];
  allow_backends = [];
  deny_backends = [];
  allow_channels = [];
  deny_channels = [];
  allow_scopes = [];
  deny_scopes = [];
  allow_licenses = [];
  deny_licenses = [];
  preferred_backends = [];
  require_signatures = false;
  require_digests = false;
  trusted_publishers = [];
  minimum_provenance = none;
  forbid_artifacts = false;
  forbid_prerelease = false;
  require_confirmation = false;
  require_dry_run = false;
  network_domains = [];
  prevent_downgrade = false;
  prevent_uninstall = false;
  freshness_days = none;
  allow_self_update = none;
}

unfoldable pub secure_defaults : PolicyFile
secure_defaults = record default_policy {
  schema_version = "1.0";
  id = "builtin-secure-defaults";
  allow_backends =
      "winget" ∷ "scoop" ∷ "chocolatey" ∷ "homebrew-formula" ∷ "homebrew-cask" ∷ "macports" ∷ "apt"
      ∷ "dnf" ∷ "yum" ∷ "pacman" ∷ "zypper" ∷ "apk" ∷ "flatpak" ∷ "snap" ∷ "artifact" ∷ [];
  allow_channels = "stable" ∷ [];
  deny_channels = "nightly" ∷ "custom" ∷ [];
  require_signatures = true;
  require_digests = true;
  minimum_provenance = some "backend-repository";
  forbid_artifacts = false;
  forbid_prerelease = true;
  require_confirmation = false;
  prevent_downgrade = true;
  freshness_days = some 45;
  allow_self_update = some true;
}

-- `policy_error`
abbrev pub policy_error : String → SiorbError
policy_error reason = with_reason ErrorKind.policy_rejected reason

abbrev valid_label : String → Bool
valid_label label =
    not (text_empty label)
    && leb (len label) 63
    && starts_with_char is_ascii_alphanumeric label
    && ends_with_char is_ascii_alphanumeric label
    && chars_all (λ c. is_ascii_alphanumeric c || eqb c b'-') label

unfoldable pub valid_exact_domain : String → Bool
valid_exact_domain domain =
    if text_empty domain
      || ltb 253 (len domain)
      || not (is_ascii domain)
      || chars_any is_ascii_uppercase domain
    then false
    else all valid_label (split_on b'.' domain)

unfoldable pub provenance_level : String → Option ℕ
provenance_level value =
    if value == "unverified" || value == "none"
    then some 0
    else if value == "community"
    then some 1
    else if value == "verified-upstream"
    then some 2
    else if value == "backend-repository"
    then some 3
    else if value == "signed-release"
    then some 4
    else if value == "reproducible"
    then some 5
    else none

abbrev is_zero : Option ℕ → Bool
is_zero none = false
is_zero (some days) = eqb days 0

abbrev unknown_level : Option String → Bool
unknown_level none = false
unknown_level (some minimum) = elim (provenance_level minimum) [ none ↦ true | some level ↦ false ]

-- `PolicyFile::validate`
unfoldable pub validate : PolicyFile → Result (Unit {0})
validate policy = do
  reject_if (not (policy.schema_version == "1.0") && not (policy.schema_version == "1"))
      (policy_error "policy.schema.unsupported")
  reject_if (text_empty (trim policy.id)) (policy_error "policy.id.missing")
  reject_if (not (all valid_exact_domain policy.network_domains))
      (policy_error "policy.network_domain.invalid")
  reject_if (is_zero policy.freshness_days) (policy_error "policy.freshness.invalid")
  reject_if (unknown_level policy.minimum_provenance) (policy_error "policy.provenance.invalid")

-- The layers, lowest first, and their names; the fingerprint of the identity is not modelled.
pub record LayeredPolicy : Type 0 where
  pub layers : List PolicyFile
  pub id : String
  pub layer_names : List String

abbrev pub validate_all : List PolicyFile → Result (Unit {0})
validate_all [] = ok tt
validate_all (layer ∷ layers) = do validate layer; validate_all layers

abbrev pub last_or : String → List String → String
last_or name [] = name
last_or name (next ∷ names) = last_or next names

-- The built-in layer goes in front unless a layer of its name stands there.
abbrev pub with_defaults : List PolicyFile → List PolicyFile
with_defaults [] = secure_defaults ∷ []
with_defaults (layer ∷ layers) =
    if layer.id == "builtin-secure-defaults"
    then layer ∷ layers
    else secure_defaults ∷ layer ∷ layers

-- `LayeredPolicy::new`
unfoldable pub new_policy : List PolicyFile → Result LayeredPolicy
new_policy files = do
  let layers = with_defaults files
  validate_all layers
  let names = map (λ (layer : PolicyFile). layer.id) layers
  ok (record { layers = layers; id = last_or "builtin" names; layer_names = names })

pub record PolicyReason : Type 0 where
  pub code : String
  pub message : String
  pub layer : String

pub record PolicyDecision : Type 0 where
  pub allowed : Bool
  pub reasons : List PolicyReason
  pub confirmation_required : Bool
  pub dry_run_required : Bool

-- The reason that `deny` pushes.
abbrev pub denial : PolicyFile → String → String → PolicyReason
denial layer code message = record { code = code; message = message; layer = layer.id }

-- `if test { deny(..) }`: the reasons that it pushes.
abbrev pub deny_if : Bool → PolicyFile → String → String → List PolicyReason
deny_if true layer code message = denial layer code message ∷ []
deny_if false layer code message = []

-- `requires_interactive_confirmation`
abbrev pub confirmation_required_by : List PolicyFile → Bool
confirmation_required_by layers = any (λ (layer : PolicyFile). layer.require_confirmation) layers

abbrev pub dry_run_required_by : List PolicyFile → Bool
dry_run_required_by layers = any (λ (layer : PolicyFile). layer.require_dry_run) layers

abbrev is_some_false : Option Bool → Bool
is_some_false (some false) = true
is_some_false _ = false

abbrev pub self_update_reasons : Bool → List PolicyFile → List PolicyReason
self_update_reasons dry_run [] = []
self_update_reasons dry_run (layer ∷ layers) =
    deny_if (is_some_false layer.allow_self_update) layer "policy.self_update.denied"
      "self-update is disabled by policy"
    ++ deny_if (layer.require_dry_run && not dry_run) layer "policy.dry_run.required"
        "policy requires a dry-run for self-update"
    ++ self_update_reasons dry_run layers

unfoldable pub evaluate_self_update_with_context : Bool → LayeredPolicy → PolicyDecision
evaluate_self_update_with_context dry_run policy =
    let reasons = self_update_reasons dry_run policy.layers in
    record {
      allowed = is_empty reasons;
      reasons = reasons;
      confirmation_required = confirmation_required_by policy.layers;
      dry_run_required = dry_run_required_by policy.layers;
    }

abbrev pub first_code : List PolicyReason → String
first_code [] = "policy.self_update.denied"
first_code (reason ∷ reasons) = reason.code

unfoldable pub enforce_self_update_with_context : Bool → LayeredPolicy → Result (Unit {0})
unfolding evaluate_self_update_with_context
enforce_self_update_with_context dry_run policy =
    let decision = evaluate_self_update_with_context dry_run policy in
    if decision.allowed then ok tt else err (policy_error (first_code decision.reasons))

-- `enforce_self_update`
unfoldable pub enforce_self_update : LayeredPolicy → Result (Unit {0})
enforce_self_update policy = enforce_self_update_with_context false policy
