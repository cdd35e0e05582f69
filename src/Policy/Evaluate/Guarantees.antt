-- ===== src/Policy/Evaluate/Guarantees.antt =====
-- What an allowed operation satisfies.
use siorb.Shared.{
  ℕ, ◌≤◌, Bool, true, false, ◌&&◌, ◌||◌, not, none, some, String, ◌==◌, ◌≡◌, refl, ◌∙◌, List, [],
  ◌∷◌, ◌++◌, any, all, is_empty, arith, Bool-cases, inl, inr, contains, trim,
}
use siorb.Core.Platform.{Operation}
use siorb.Catalog.{PackageManifest, PackageSource}
use siorb.Policy.Layers.{PolicyFile, LayeredPolicy, PolicyReason, secure_defaults, provenance_level}
use siorb.Policy.Checks.{
  PolicyEvaluationContext, Services, lists, layer_reasons, static_reasons, context_reasons,
  enforce_trusted_publishers, check_membership, check_categories, denied_categories, no_digest,
  check_artifact, enforce_provenance,
}
use siorb.Policy.Evaluate.{evaluate_with_context}
use siorb.Policy.Evaluate.Decide.{objections, evaluate_with_context-deny_wins}

-- The layer's deny lists name the package, its licence, one of its categories, or the source.
abbrev pub denies : PolicyFile → PackageManifest → PackageSource → Bool
denies layer manifest source =
    lists layer.deny_packages manifest.id
    || lists layer.deny_sources source.id
    || lists layer.deny_backends source.backend
    || lists layer.deny_channels source.channel
    || lists layer.deny_scopes source.scope
    || lists layer.deny_licenses manifest.license
    || any (λ (category : String). contains layer.deny_categories category) manifest.categories

is_empty-check_membership :
    (layer : PolicyFile) (kind value : String) (allowed denied : List String)
    → lists denied value ≡ true
    → is_empty (check_membership layer kind value allowed denied) ≡ false
unfolding check_membership
is_empty-check_membership layer kind value allowed denied h = rw h

clear-append :
    (xs ys : List PolicyReason)
    → is_empty (xs ++ ys) ≡ true
    → (is_empty xs ≡ true) × (is_empty ys ≡ true)
clear-append [] ys h = (refl, h)
clear-append (x ∷ xs) ys h = cc

is_empty-denied_categories :
    (layer : PolicyFile) (categories : List String)
    → any (λ (category : String). contains layer.deny_categories category) categories ≡ true
    → is_empty (denied_categories layer categories) ≡ false
is_empty-denied_categories layer [] h = ground arith
is_empty-denied_categories layer (category ∷ categories) h =
    ground (arith, h, is_empty-denied_categories layer categories)

is_empty-check_categories :
    (layer : PolicyFile) (manifest : PackageManifest)
    → any (λ (category : String). contains layer.deny_categories category) manifest.categories
      ≡ true
    → is_empty (check_categories layer manifest) ≡ false
unfolding check_categories
is_empty-check_categories layer manifest h =
    elim (Bool-cases (is_empty (check_categories layer manifest))) [
      | inl clear ↦ ground (
        arith,
        (clear-append _ (denied_categories layer manifest.categories) clear).1,
        is_empty-denied_categories layer manifest.categories h,
      )
      | inr objected ↦ objected
    ]

-- The checks of a package and its source that the guarantees are about.
static_reasons-clear :
    (layer : PolicyFile) (manifest : PackageManifest) (source : PackageSource)
    → is_empty (static_reasons layer manifest source) ≡ true
    → (is_empty
          (check_membership layer "package" manifest.id layer.allow_packages layer.deny_packages)
        ≡ true)
      × (is_empty (check_membership layer "source" source.id layer.allow_sources layer.deny_sources)
          ≡ true)
      × (is_empty (
            check_membership layer "backend" source.backend layer.allow_backends
              layer.deny_backends)
          ≡ true)
      × (is_empty (
            check_membership layer "channel" source.channel layer.allow_channels
              layer.deny_channels)
          ≡ true)
      × (is_empty (check_membership layer "scope" source.scope layer.allow_scopes layer.deny_scopes)
          ≡ true)
      × (is_empty (
            check_membership layer "license" manifest.license layer.allow_licenses
              layer.deny_licenses)
          ≡ true)
      × (is_empty (check_categories layer manifest) ≡ true)
      × (is_empty (check_artifact layer source) ≡ true)
      × (is_empty (enforce_trusted_publishers layer source) ≡ true)
      × (is_empty (enforce_provenance layer source) ≡ true)
unfolding static_reasons
static_reasons-clear layer manifest source h0 =
    let (h1, v) = clear-append _ _ h0 in
    let (h2, t) = clear-append _ _ h1 in
    let (h3, a) = clear-append _ _ h2 in
    let (h4, k) = clear-append _ _ h3 in
    let (h5, l) = clear-append _ _ h4 in
    let (h6, o) = clear-append _ _ h5 in
    let (h7, c) = clear-append _ _ h6 in
    let (h8, b) = clear-append _ _ h7 in
    let (p, s) = clear-append _ _ h8 in (p, s, b, c, o, l, k, a, t, v)

static-clear :
    (services : Services) (layer : PolicyFile) (manifest : PackageManifest) (source : PackageSource)
    (operation : Operation) (context : PolicyEvaluationContext)
    → is_empty (layer_reasons services layer manifest source operation context) ≡ true
    → is_empty (static_reasons layer manifest source) ≡ true
unfolding layer_reasons
static-clear services layer manifest source operation context h =
    (clear-append (static_reasons layer manifest source)
      (context_reasons services layer source operation context) h).0

-- A layer with no objection names nothing in its deny lists.
denies-clear :
    (layer : PolicyFile) (manifest : PackageManifest) (source : PackageSource)
    → is_empty (static_reasons layer manifest source) ≡ true
    → denies layer manifest source ≡ false
denies-clear layer manifest source h =
    let (p, s, b, c, o, l, k, a, t, v) = static_reasons-clear layer manifest source h in
    ground (
      arith,
      p,
      s,
      b,
      c,
      o,
      l,
      k,
      is_empty-check_membership layer "package" manifest.id layer.allow_packages
          layer.deny_packages,
      is_empty-check_membership layer "source" source.id layer.allow_sources layer.deny_sources,
      is_empty-check_membership layer "backend" source.backend layer.allow_backends
          layer.deny_backends,
      is_empty-check_membership layer "channel" source.channel layer.allow_channels
          layer.deny_channels,
      is_empty-check_membership layer "scope" source.scope layer.allow_scopes layer.deny_scopes,
      is_empty-check_membership layer "license" manifest.license layer.allow_licenses
          layer.deny_licenses,
      is_empty-check_categories layer manifest,
    )

any-all :
    (p q : PolicyFile → Bool) (layers : List PolicyFile)
    → ((layer : PolicyFile) → q layer ≡ true → p layer ≡ false)
    → any p layers ≡ true
    → all q layers ≡ false
any-all p q [] h e = cc
any-all p q (layer ∷ layers) h e = ground (arith, h layer, e, any-all p q layers h)

-- If a deny list of any layer names the package, its licence, one of its categories, or the
-- source's id, backend, channel or scope, the operation is not allowed, whatever the other lists
-- and layers say.
pub evaluate_with_context-denied :
    (services : Services) (policy : LayeredPolicy) (manifest : PackageManifest)
    (source : PackageSource) (operation : Operation) (context : PolicyEvaluationContext)
    → any (λ (layer : PolicyFile). denies layer manifest source) policy.layers ≡ true
    → (evaluate_with_context services policy manifest source operation context).allowed ≡ false
evaluate_with_context-denied services policy manifest source operation context h =
    evaluate_with_context-deny_wins services manifest source operation context policy
    ∙ any-all (λ (layer : PolicyFile). denies layer manifest source)
        (λ (layer : PolicyFile).
          is_empty (objections services manifest source operation context layer))
        policy.layers
        (λ layer clear.
          denies-clear layer manifest source
            (static-clear services layer manifest source operation context clear))
        h

level_three : provenance_level "backend-repository" ≡ some 3
unfolding provenance_level
level_three = refl

-- What the built-in layer asks of a source.
abbrev pub level_of : PackageSource → ℕ
level_of source = elim (provenance_level (trim source.provenance)) [ none ↦ 0 | some level ↦ level ]

-- What a layer with no objection to an artifact has checked.
check_artifact-clear :
    (layer : PolicyFile) (source : PackageSource)
    → is_empty (check_artifact layer source) ≡ true
    → ((layer.forbid_prerelease && not (source.channel == "stable")) ≡ false)
      × ((layer.require_digests && source.backend == "artifact" && no_digest source.verification)
          ≡ false)
unfolding check_artifact
check_artifact-clear layer source h = (ground (arith, h), ground (arith, h))

enforce_provenance-clear :
    (layer : PolicyFile) (source : PackageSource) (required : String) (level : ℕ)
    → layer.minimum_provenance ≡ some required
    → provenance_level required ≡ some level
    → is_empty (enforce_provenance layer source) ≡ true
    → level ≤ level_of source
unfolding enforce_provenance
enforce_provenance-clear layer source required level e f h = ground (arith, e, f, h)

secure_defaults-clear :
    (manifest : PackageManifest) (source : PackageSource)
    → is_empty (static_reasons secure_defaults manifest source) ≡ true
    → ((source.channel == "stable") ≡ true)
      × (3 ≤ level_of source)
      × ((source.backend == "artifact") ≡ true → no_digest source.verification ≡ false)
unfolding secure_defaults
secure_defaults-clear manifest source h =
    let (p, s, b, c, o, l, k, a, t, v) = static_reasons-clear secure_defaults manifest source h in
    let (stable, digest) = check_artifact-clear secure_defaults source a in
    (
      ground (arith, stable),
      enforce_provenance-clear secure_defaults source "backend-repository" 3 refl level_three v,
      λ e. ground (arith, digest, e),
    )

-- A policy whose lowest layer is the built-in one.
pub secure_first :
    (services : Services) (files : List PolicyFile) (policy : LayeredPolicy)
    (manifest : PackageManifest) (source : PackageSource) (operation : Operation)
    (context : PolicyEvaluationContext)
    → policy.layers ≡ secure_defaults ∷ files
    → (evaluate_with_context services policy manifest source operation context).allowed ≡ true
    → ((source.channel == "stable") ≡ true)
      × (3 ≤ level_of source)
      × ((source.backend == "artifact") ≡ true → no_digest source.verification ≡ false)
secure_first services files policy manifest source operation context layers allowed =
    let every = evaluate_with_context-deny_wins services manifest source operation context policy in
    secure_defaults-clear manifest source (
      static-clear services secure_defaults manifest source operation context
        (ground (arith, layers, every, allowed)))
