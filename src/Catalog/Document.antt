-- ===== src/Catalog/Document.antt =====
-- crates/siorb-catalog/src/lib.rs: `CatalogDocument`, `validate_document` and
-- `Catalog::from_document`, the indices of a catalog by identity.
pub mod Owners
use siorb.Shared.{
  ℕ, suc, Bool, ◌||◌, not, Option, none, some, String, ◌==◌, List, [], ◌∷◌, ◌++◌, contains,
  is_empty, text_empty, trim, Map, Set, get, insert, contains_key, if◌then◌else◌,
}
use siorb.Core.Errors.{Result, ok, err, ◌>>=◌, ◌>>◌, reject_if}
use siorb.Catalog.{PackageManifest, PackageSource}
use siorb.Catalog.Identifiers.{normalize_identifier}
use siorb.Catalog.Sources.{CatalogServices, catalog_error, validate_source}

pub record CatalogDocument : Type 0 where
  pub schema_version : String
  pub catalog_version : ℕ
  pub generated_at : String
  pub expires_unix : Option ℕ
  pub packages : List PackageManifest

-- `CatalogIdentity` without the fingerprint of the document, which the planner alone reads.
pub record CatalogIdentity : Type 0 where
  pub id : String
  pub version : ℕ
  pub verified : Bool
  pub expires_unix : Option ℕ
  pub source : String

pub record Catalog : Type 0 where
  pub document : CatalogDocument
  pub exact : Map ℕ
  pub deprecated : Map ℕ
  pub identity : CatalogIdentity

abbrev reserved : List String
reserved =
    "install" ∷ "remove" ∷ "upgrade" ∷ "search" ∷ "info" ∷ "list" ∷ "plan" ∷ "why" ∷ "doctor"
    ∷ "adopt" ∷ "reconcile" ∷ "repair" ∷ "migrate" ∷ "bundle" ∷ "pin" ∷ "unpin" ∷ "hold" ∷ "unhold"
    ∷ "backend" ∷ "source" ∷ "catalog" ∷ "policy" ∷ "audit" ∷ "verify" ∷ "self" ∷ "completion"
    ∷ "version" ∷ []

-- `register_identity`: the owner of the identity is replaced, and another one before is an error.
unfoldable pub register_identity : Map String → String → String → Result (Map String)
register_identity identities identity manifest = elim (get identities identity) [
  | none ↦ ok (insert identity manifest identities)
  | some existing ↦
      if existing == manifest
      then ok (insert identity manifest identities)
      else err (catalog_error "catalog.alias.collision")
]

abbrev lacks_metadata : PackageManifest → Bool
lacks_metadata manifest =
    text_empty (trim manifest.name)
    || text_empty (trim manifest.description)
    || text_empty (trim manifest.homepage)
    || text_empty (trim manifest.license)

module _ (services : CatalogServices) where
  -- The loop over the aliases, current and deprecated.
  unfoldable pub register_aliases : Map String → String → List String → Result (Map String)
  register_aliases identities manifest [] = ok identities
  register_aliases identities manifest (alias ∷ aliases) = do
    normalized ← normalize_identifier services.nfkc alias
    reject_if (contains reserved normalized) (catalog_error "catalog.alias.reserved")
    extended ← register_identity identities normalized manifest
    register_aliases extended manifest aliases

  -- What the loop's body does for a package before its sources.
  unfoldable pub register_package : Map String → PackageManifest → Result (Map String)
  register_package identities manifest = do
    canonical ← normalize_identifier services.nfkc manifest.id
    reject_if (not (canonical == manifest.id)) (catalog_error "catalog.id.noncanonical")
    reject_if (contains reserved canonical) (catalog_error "catalog.id.reserved")
    named ← register_identity identities canonical manifest.id
    register_aliases named manifest.id (manifest.aliases ++ manifest.deprecated_aliases)

  -- The loop over the sources of a package.
  unfoldable pub validate_sources : Set → List PackageSource → Result Set
  validate_sources source_ids [] = ok source_ids
  validate_sources source_ids (source ∷ sources) = do
    validate_source services source
    reject_if (contains_key source_ids source.id) (catalog_error "catalog.source.duplicate")
    validate_sources (insert source.id tt source_ids) sources

  unfoldable pub validate_packages : Map String → Set → List PackageManifest → Result (Unit {0})
  validate_packages identities source_ids [] = ok tt
  validate_packages identities source_ids (manifest ∷ packages) = do
    registered ← register_package identities manifest
    reject_if (lacks_metadata manifest) (catalog_error "catalog.metadata.missing")
    reject_if (is_empty manifest.sources) (catalog_error "catalog.sources.empty")
    seen ← validate_sources source_ids manifest.sources
    validate_packages registered seen packages

  unfoldable pub validate_document : CatalogDocument → Result (Unit {0})
  validate_document document = do
    reject_if (not (document.schema_version == "1" || document.schema_version == "1.0"))
        (catalog_error "catalog.schema.unsupported")
    validate_packages [] [] document.packages

  -- `for alias in aliases { index_of.insert(normalize_identifier(alias)?, index) }`
  unfoldable pub index_aliases : Map ℕ → ℕ → List String → Result (Map ℕ)
  index_aliases indices index [] = ok indices
  index_aliases indices index (alias ∷ aliases) = do
    normalized ← normalize_identifier services.nfkc alias
    index_aliases (insert normalized index indices) index aliases

  -- The loop over the packages with their places, from `index` on.
  unfoldable pub index_packages : Map ℕ → Map ℕ → ℕ → List PackageManifest → Result (Map ℕ × Map ℕ)
  index_packages exact deprecated index [] = ok (exact, deprecated)
  index_packages exact deprecated index (manifest ∷ packages) = do
    known ← index_aliases (insert manifest.id index exact) index manifest.aliases
    old ← index_aliases deprecated index manifest.deprecated_aliases
    index_packages known old (suc index) packages

  -- `Catalog::from_document`
  unfoldable pub from_document : CatalogDocument → String → Bool → Result Catalog
  from_document document source verified = do
    validate_document document
    (exact, deprecated) ← index_packages [] [] 0 document.packages
    ok (record {
      document = document;
      exact = exact;
      deprecated = deprecated;
      identity = record {
        id = "siorb-main";
        version = document.catalog_version;
        verified = verified;
        expires_unix = document.expires_unix;
        source = source;
      };
    })

-- `Catalog::with_authenticated_expiry`
abbrev earlier : Option ℕ → ℕ → ℕ
earlier none other = other
earlier (some expiry) other = Prim.Native.Nat.min expiry other

unfoldable pub with_authenticated_expiry : Catalog → ℕ → Catalog
with_authenticated_expiry catalog expires_unix = record catalog {
  identity = record (catalog.identity) {
    expires_unix = some (earlier catalog.identity.expires_unix expires_unix);
  };
}
