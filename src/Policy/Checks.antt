-- ===== src/Policy/Checks.antt =====
-- The checks of one layer: `check_membership`, the `enforce_` functions and the loop's body.
-- Each is the list of the reasons that it pushes.
use siorb.Shared.{
  ℕ, Bool, true, false, ◌&&◌, ◌||◌, not, Option, none, some, String, ◌<>◌, ◌==◌, List, [], ◌∷◌,
  ◌++◌, any, all, is_empty, contains, text_empty, trim, ascii_lowercase, ltb, if◌then◌else◌,
}
use siorb.Core.Platform.{Operation, operation_eq}
use siorb.Catalog.{PackageManifest, PackageSource, ArtifactVerification, requires_package_signer}
use siorb.Policy.Layers.{PolicyFile, PolicyReason, denial, deny_if, provenance_level}
use siorb.Policy.Dates.{enforce_freshness}
use siorb.Policy.Versions.{Semver, enforce_no_downgrade}

-- `PolicyEvaluationContext`
pub record PolicyEvaluationContext : Type 0 where
  pub dry_run : Bool
  pub now_unix : Option ℕ
  pub installed_version : Option String
  pub target_version : Option String
  pub network_urls : List String

-- What the checks call: the host of a URL that parses (`Url::parse`, `Url::host_str`), the versions
-- of `semver`, and the clock.
pub record Services : Type 1 where
  pub semver : Semver
  pub host_of : String → Option String
  pub unix_timestamp : ℕ

-- A list names the value, or everything.
abbrev pub lists : List String → String → Bool
lists entries value = any (λ (entry : String). entry == value || entry == "*") entries

unfoldable pub check_membership :
    PolicyFile → String → String → List String → List String → List PolicyReason
check_membership layer kind value allowed denied =
    if lists denied value
    then denial layer ("policy." <> kind <> ".denied") (kind <> " `" <> value <> "` is denied") ∷ []
    else if not (is_empty allowed) && not (lists allowed value)
    then denial layer ("policy." <> kind <> ".not_allowed")
        (kind <> " `" <> value <> "` is not allowed")
      ∷ []
    else []

abbrev pub denied_categories : PolicyFile → List String → List PolicyReason
denied_categories layer [] = []
denied_categories layer (category ∷ categories) =
    deny_if (contains layer.deny_categories category) layer "policy.category.denied"
      ("category `" <> category <> "` is denied")
    ++ denied_categories layer categories

unfoldable pub check_categories : PolicyFile → PackageManifest → List PolicyReason
check_categories layer manifest =
    deny_if
      (not (is_empty layer.allow_categories)
        && all (λ (category : String). not (contains layer.allow_categories category))
            manifest.categories)
      layer "policy.category.not_allowed" "no package category is allowed"
    ++ denied_categories layer manifest.categories

abbrev pub signer_of : Option ArtifactVerification → Option String
signer_of none = none
signer_of (some verification) = verification.signer

abbrev is_none {ℓ} : {A : Type ℓ} → Option A → Bool
is_none none = true
is_none (some a) = false

abbrev pub needs_signer_format : Option ArtifactVerification → Bool
needs_signer_format none = false
needs_signer_format (some verification) = requires_package_signer verification.format

abbrev pub no_digest : Option ArtifactVerification → Bool
no_digest none = true
no_digest (some verification) = text_empty verification.sha256

unfoldable pub check_artifact : PolicyFile → PackageSource → List PolicyReason
check_artifact layer source =
    let requires_native_signer =
      not (source.backend == "artifact") || needs_signer_format source.verification in
    deny_if (layer.forbid_artifacts && source.backend == "artifact") layer
      "policy.artifact.forbidden" "direct artifacts are forbidden"
    ++ deny_if (layer.forbid_prerelease && not (source.channel == "stable")) layer
        "policy.prerelease.forbidden" "pre-release channels are forbidden"
    ++ deny_if
        (layer.require_signatures
          && source.trust == "verified-upstream"
          && requires_native_signer
          && is_none (signer_of source.verification))
        layer "policy.signature.required" "source has no required signer identity"
    ++ deny_if
        (layer.require_digests && source.backend == "artifact" && no_digest source.verification)
        layer "policy.digest.required" "artifact has no required digest"

-- `eq_ignore_ascii_case` with one of the entries.
abbrev lists_ignoring_case : List String → String → Bool
lists_ignoring_case entries value =
    any (λ (entry : String). ascii_lowercase entry == ascii_lowercase value) entries

unfoldable pub enforce_trusted_publishers : PolicyFile → PackageSource → List PolicyReason
enforce_trusted_publishers layer source =
    if is_empty layer.trusted_publishers then [] else elim (signer_of source.verification) [
      | none ↦
          denial layer "policy.publisher.missing"
            "source does not carry a verifiable publisher identity"
          ∷ []
      | some signer ↦
          deny_if (not (lists_ignoring_case layer.trusted_publishers signer)) layer
            "policy.publisher.untrusted" ("publisher `" <> signer <> "` is not trusted")
    ]

unfoldable pub enforce_provenance : PolicyFile → PackageSource → List PolicyReason
enforce_provenance layer source = elim layer.minimum_provenance [
  | none ↦ []
  | some required ↦ elim (provenance_level required) [
    | none ↦ denial layer "policy.provenance.invalid" "policy has an unknown provenance level" ∷ []
    | some required_level ↦ elim (provenance_level (trim source.provenance)) [
      | none ↦
          denial layer "policy.provenance.missing" "source has no recognized provenance level" ∷ []
      | some actual_level ↦
          deny_if (ltb actual_level required_level) layer "policy.provenance.insufficient" (
            "source provenance `" <> source.provenance <> "` is below required `" <> required
            <> "`")
    ]
  ]
]

abbrev quiet : Operation → Bool
quiet operation = operation_eq operation Operation.verify || operation_eq operation Operation.adopt

-- The URLs that a step may reach: an artifact's own comes last if it is not named.
abbrev pub endpoints : PackageSource → PolicyEvaluationContext → List String
endpoints source context =
    if source.backend == "artifact" && not (contains context.network_urls source.package_id)
    then context.network_urls ++ source.package_id ∷ []
    else context.network_urls

-- The loop's body up to `enforce_provenance`: what the package and its source decide.
unfoldable pub static_reasons : PolicyFile → PackageManifest → PackageSource → List PolicyReason
static_reasons layer manifest source =
    check_membership layer "package" manifest.id layer.allow_packages layer.deny_packages
    ++ check_membership layer "source" source.id layer.allow_sources layer.deny_sources
    ++ check_membership layer "backend" source.backend layer.allow_backends layer.deny_backends
    ++ check_membership layer "channel" source.channel layer.allow_channels layer.deny_channels
    ++ check_membership layer "scope" source.scope layer.allow_scopes layer.deny_scopes
    ++ check_membership layer "license" manifest.license layer.allow_licenses layer.deny_licenses
    ++ check_categories layer manifest
    ++ check_artifact layer source
    ++ enforce_trusted_publishers layer source
    ++ enforce_provenance layer source

module _ (services : Services) where
  abbrev check_endpoints : PolicyFile → List String → List PolicyReason
  check_endpoints layer [] = []
  check_endpoints layer (raw ∷ urls) =
      elim (services.host_of raw) [
        | none ↦
            denial layer "policy.network_url.invalid"
              "network endpoint is not an absolute URL with a host"
            ∷ []
        | some host ↦
            deny_if (not (lists_ignoring_case layer.network_domains host)) layer
              "policy.network_domain.denied" ("network domain `" <> host <> "` is not allowed")
      ]
      ++ check_endpoints layer urls

  unfoldable pub enforce_network_domains :
      PolicyFile → PackageSource → Operation → PolicyEvaluationContext → List PolicyReason
  enforce_network_domains layer source operation context =
      let urls = endpoints source context in
      if is_empty layer.network_domains
      then []
      else if is_empty urls && not (quiet operation)
      then denial layer "policy.network_domain.unverifiable"
          "network endpoints are not known precisely enough to enforce the domain allowlist"
        ∷ []
      else check_endpoints layer urls

  abbrev pub changes_version : Operation → Bool
  changes_version operation =
      operation_eq operation Operation.install
      || operation_eq operation Operation.upgrade
      || operation_eq operation Operation.repair

  abbrev pub time_of : Option ℕ → ℕ
  time_of none = services.unix_timestamp
  time_of (some now) = now

  -- The rest of the loop's body: what depends on the operation and its context.
  unfoldable pub context_reasons :
      PolicyFile → PackageSource → Operation → PolicyEvaluationContext → List PolicyReason
  context_reasons layer source operation context =
      enforce_network_domains layer source operation context
      ++ enforce_freshness layer source.reviewed_at (time_of context.now_unix)
      ++ deny_if
          (layer.require_dry_run
            && not (operation_eq operation Operation.verify)
            && not context.dry_run)
          layer "policy.dry_run.required"
          "policy requires a successful dry-run before this operation"
      ++ (if layer.prevent_downgrade && changes_version operation
          then enforce_no_downgrade services.semver layer context.installed_version
              context.target_version
          else [])
      ++ deny_if (layer.prevent_uninstall && operation_eq operation Operation.remove) layer
          "policy.uninstall.prevented" "uninstallation is forbidden"

  -- The body of the loop of `evaluate_with_context`.
  unfoldable pub layer_reasons :
      PolicyFile
      → PackageManifest
      → PackageSource
      → Operation
      → PolicyEvaluationContext
      → List PolicyReason
  unfolding static_reasons context_reasons
  layer_reasons layer manifest source operation context =
      static_reasons layer manifest source ++ context_reasons layer source operation context
