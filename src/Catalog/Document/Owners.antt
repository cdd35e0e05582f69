-- ===== src/Catalog/Document/Owners.antt =====
-- Who owns the identities of a document.
use siorb.Shared.{
  not, ◌||◌, contains, is_empty, ◌≡◌, sym, subst, ◌⊎◌, inl, inr, none, some, String, ◌==◌, eq_iff,
  List, [], ◌∷◌, ◌++◌, All, Any, Map, Set, get, insert, get-insert, Option-cases, arith,
}
use siorb.Core.Errors.{ok, >>=-eq-ok, reject_if-eq-ok}
use siorb.Catalog.{PackageManifest}
use siorb.Catalog.Identifiers.{normalize_identifier}
use siorb.Catalog.Sources.{CatalogServices, catalog_error}
use siorb.Catalog.Document.{
  reserved, lacks_metadata, register_identity, register_aliases, register_package, validate_sources,
  validate_packages, CatalogDocument, validate_document,
}

-- Every identity keeps its owner.
abbrev pub Extends : Map String → Map String → Type 0
Extends before after = (k owner : String) → get before k ≡ some owner → get after k ≡ some owner

Extends-trans : (a b c : Map String) → Extends a b → Extends b c → Extends a c
Extends-trans a b c h k i owner e = k i owner (h i owner e)

-- The identity had no owner, or this one.
Free : Map String → String → String → Type 0
Free before identity owner = (get before identity ≡ none) ⊎ (get before identity ≡ some owner)

Extends-insert :
    (before : Map String) (identity owner k other : String)
    → Free before identity owner
    → get before k ≡ some other
    → get (insert identity owner before) k ≡ some other
unfolding Free
Extends-insert before identity owner k other free e =
    ground (arith, e, free, get-insert identity k owner before, eq_iff identity k)

register_identity-Free :
    (before after : Map String) (identity owner : String)
    → register_identity before identity owner ≡ ok after
    → (after ≡ insert identity owner before) × Free before identity owner
unfolding register_identity Free
register_identity-Free before after identity owner h = elim (Option-cases (get before identity)) [
  | inl fresh ↦ (ground (arith, h, fresh), inl fresh)
  | inr (existing, e) ↦ (ground (arith, h, e), inr (ground (arith, h, e, eq_iff existing owner)))
]

-- The identity gets the owner, and no other identity loses its own.
register_identity-Extends :
    (before after : Map String) (identity owner : String)
    → register_identity before identity owner ≡ ok after
    → Extends before after × (get after identity ≡ some owner)
register_identity-Extends before after identity owner h =
    let (same, free) = register_identity-Free before after identity owner h in
    subst (λ m. Extends before m × (get m identity ≡ some owner)) (sym same)
      (
        λ k other e. Extends-insert before identity owner k other free e,
        ground (arith, get-insert identity identity owner before, eq_iff identity identity),
      )

module _ (services : CatalogServices) where
  -- The text is one that `normalize_identifier` takes to the identity.
  abbrev pub Spells : String → String → Type 0
  Spells n text = normalize_identifier services.nfkc text ≡ ok n

  register_aliases-Extends :
      (before after : Map String) (owner : String) (aliases : List String)
      → register_aliases services before owner aliases ≡ ok after
      → Extends before after × ((n : String) → Any (Spells n) aliases → get after n ≡ some owner)
  unfolding register_aliases
  register_aliases-Extends before after owner [] h =
      (subst (Extends before) (ground (arith, h)) (λ k other e. e), λ n named. elim named [ ])
  register_aliases-Extends before after owner (alias ∷ aliases) h =
      let (m, e1, h1) = >>=-eq-ok (normalize_identifier services.nfkc alias) _ h in
      let (unreserved, h2) =
        reject_if-eq-ok (contains reserved m) (catalog_error "catalog.alias.reserved") _ h1 in
      let (next, e3, h3) = >>=-eq-ok (register_identity before m owner) _ h2 in
      let (kept, new) = register_identity-Extends before next m owner e3 in
      let (later, others) = register_aliases-Extends next after owner aliases h3 in
      (
        Extends-trans before next after kept later,
        λ n named. by_alias n m next later e1 new (others n) named,
      )
    where
      by_alias :
          (n m : String) (next : Map String)
          → Extends next after
          → Spells m alias
          → get next m ≡ some owner
          → (Any (Spells n) aliases → get after n ≡ some owner)
          → Spells n alias ⊎ Any (Spells n) aliases
          → get after n ≡ some owner
      by_alias n m next later e1 new others (inl here) =
          let same : m ≡ n = ground (arith, e1, here) in
          later n owner (subst (λ k. get next k ≡ some owner) same new)
      by_alias n m next later e1 new others (inr there) = others there

  -- What identifies a package: its id, and its aliases, current and deprecated.
  abbrev pub HasName : PackageManifest → String → Type 0
  HasName manifest n =
      (n ≡ manifest.id) ⊎ Any (Spells n) (manifest.aliases ++ manifest.deprecated_aliases)

  register_package-Extends :
      (before after : Map String) (manifest : PackageManifest)
      → register_package services before manifest ≡ ok after
      → Extends before after × ((n : String) → HasName manifest n → get after n ≡ some manifest.id)
  unfolding register_package
  register_package-Extends before after manifest h =
      let (canonical, e1, h1) = >>=-eq-ok (normalize_identifier services.nfkc manifest.id) _ h in
      let (equal, h2) =
        reject_if-eq-ok (not (canonical == manifest.id)) (catalog_error "catalog.id.noncanonical") _
          h1 in
      let (unreserved, h3) =
        reject_if-eq-ok (contains reserved canonical) (catalog_error "catalog.id.reserved") _ h2 in
      let (next, e4, h4) = >>=-eq-ok (register_identity before canonical manifest.id) _ h3 in
      let (kept, new) = register_identity-Extends before next canonical manifest.id e4 in
      let (later, others) =
        register_aliases-Extends next after manifest.id
          (manifest.aliases ++ manifest.deprecated_aliases) h4 in
      let same : canonical ≡ manifest.id =
        (eq_iff canonical manifest.id).0 (ground (arith, equal)) in
      let own : get after manifest.id ≡ some manifest.id =
        later manifest.id manifest.id (subst (λ k. get next k ≡ some manifest.id) same new) in
      (Extends-trans before next after kept later, λ n named. by_name n own (others n) named)
    where
      by_name :
          (n : String)
          → get after manifest.id ≡ some manifest.id
          → (Any (Spells n) (manifest.aliases ++ manifest.deprecated_aliases)
              → get after n ≡ some manifest.id)
          → HasName manifest n
          → get after n ≡ some manifest.id
      by_name n own others (inl here) = subst (λ k. get after k ≡ some manifest.id) (sym here) own
      by_name n own others (inr there) = others there

  -- Each package owns its names.
  abbrev pub OwnsNames : Map String → PackageManifest → Type 0
  OwnsNames owners manifest = (n : String) → HasName manifest n → get owners n ≡ some manifest.id

  validate_packages-owners :
      (before : Map String) (seen : Set) (manifests : List PackageManifest)
      → validate_packages services before seen manifests ≡ ok tt
      → (owners : Map String) × Extends before owners × All (OwnsNames owners) manifests
  unfolding validate_packages
  validate_packages-owners before seen [] h = (before, λ k owner e. e, tt)
  validate_packages-owners before seen (manifest ∷ manifests) h =
      let (next, e1, h1) = >>=-eq-ok (register_package services before manifest) _ h in
      let (described, h2) =
        reject_if-eq-ok (lacks_metadata manifest) (catalog_error "catalog.metadata.missing") _ h1 in
      let (sourced, h3) =
        reject_if-eq-ok (is_empty manifest.sources) (catalog_error "catalog.sources.empty") _ h2 in
      let (seen', e4, h4) = >>=-eq-ok (validate_sources services seen manifest.sources) _ h3 in
      let (kept, named) = register_package-Extends before next manifest e1 in
      let (owners, later, all_named) = validate_packages-owners next seen' manifests h4 in
      (
        owners,
        Extends-trans before next owners kept later,
        (λ n has. later n manifest.id (named n has), all_named),
      )

  pub validate_document-owners :
      (document : CatalogDocument)
      → validate_document services document ≡ ok tt
      → (owners : Map String) × All (OwnsNames owners) document.packages
  unfolding validate_document
  validate_document-owners document h =
      let (supported, h1) =
        reject_if-eq-ok (not (document.schema_version == "1" || document.schema_version == "1.0"))
          (catalog_error "catalog.schema.unsupported") _ h in
      let (owners, extends, named) = validate_packages-owners [] [] document.packages h1 in
      (owners, named)
