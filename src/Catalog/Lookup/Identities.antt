-- ===== src/Catalog/Lookup/Identities.antt =====
-- What `lookup` makes of the names in a catalog that `from_document` built.
use siorb.Shared.{
  ℕ, zero, suc, Bool, true, ◌≡◌, sym, ◌∙◌, ap, subst, eq_iff, contains, Distinct, Any, map, ◌⊎◌,
  inl, inr, none, some, String, List, [], ◌∷◌, All, Map, get, Option-cases, arith,
}
use siorb.Core.Errors.{ok, >>=-eq-ok}
use siorb.Catalog.{PackageManifest}
use siorb.Catalog.Sources.{CatalogServices}
use siorb.Catalog.Document.{
  Catalog, CatalogDocument, validate_document, index_packages, from_document,
}
use siorb.Catalog.Document.Owners.{Spells, OwnsNames, validate_document-owners}
use siorb.Catalog.Lookup.{exact, deprecated_alias, package_at, at_index, lookup}
use siorb.Catalog.Lookup.Places.{
  Has, CurrentName, OldName, current-HasName, old-HasName, Owned, Indexed, index_packages-Owned,
}

abbrev pub ids : List PackageManifest → List String
ids packages = map (λ (x : PackageManifest). x.id) packages

contains-ids_at :
    (packages : List PackageManifest) (q : PackageManifest) (i : ℕ)
    → package_at packages i ≡ some q
    → contains (ids packages) q.id ≡ true
contains-ids_at [] q i h = cc
contains-ids_at (x ∷ xs) q zero h =
    let same : x.id ≡ q.id = ground (arith, h) in ground (arith, (eq_iff x.id q.id).1 same)
contains-ids_at (x ∷ xs) q (suc i) h = ground (arith, contains-ids_at xs q i h)

contains-ids :
    (packages : List PackageManifest) (p : PackageManifest)
    → Any (λ (x : PackageManifest). x ≡ p) packages
    → contains (ids packages) p.id ≡ true
contains-ids [] p h = elim h [ ]
contains-ids (x ∷ xs) p (inl same) =
    let id : x.id ≡ p.id = ap (λ (y : PackageManifest). y.id) same in
    ground (arith, (eq_iff x.id p.id).1 id)
contains-ids (x ∷ xs) p (inr there) = ground (arith, contains-ids xs p there)

-- No other place has a package with the id of `p`.
abbrev IsOnly : List PackageManifest → PackageManifest → Type 0
IsOnly packages p =
    (q : PackageManifest) (i : ℕ) → package_at packages i ≡ some q → q.id ≡ p.id → q ≡ p

Distinct-IsOnly :
    (packages : List PackageManifest) (p : PackageManifest)
    → Distinct (ids packages)
    → Any (λ (x : PackageManifest). x ≡ p) packages
    → IsOnly packages p
Distinct-IsOnly [] p distinct listed q i at id = elim listed [ ]
Distinct-IsOnly (x ∷ xs) p distinct (inl same) q zero at id =
    let here : x ≡ q = cc in sym here ∙ same
Distinct-IsOnly (x ∷ xs) p distinct (inl same) q (suc i) at id =
    let other : x.id ≡ q.id = ap (λ (y : PackageManifest). y.id) same ∙ sym id in
    absurd (ground (arith, distinct.0, contains-ids_at xs q i at, other))
Distinct-IsOnly (x ∷ xs) p distinct (inr there) q zero at id =
    let here : x ≡ q = cc in
    let other : x.id ≡ p.id = ap (λ (y : PackageManifest). y.id) here ∙ id in
    absurd (ground (arith, distinct.0, contains-ids xs p there, other))
Distinct-IsOnly (x ∷ xs) p distinct (inr there) q (suc i) at id =
    Distinct-IsOnly xs p distinct.1 there q i at id

module _ (services : CatalogServices) (catalog : Catalog) (request n : String)
    (spells : Spells services n request) where
  lookup-exact :
      (q : PackageManifest)
      → at_index catalog catalog.exact n ≡ some q
      → lookup services catalog request ≡ ok (exact q)
  unfolding lookup
  lookup-exact q e = ground (arith, spells, e)

  lookup-deprecated :
      (q : PackageManifest)
      → at_index catalog catalog.exact n ≡ none
      → at_index catalog catalog.deprecated n ≡ some q
      → lookup services catalog request ≡ ok (deprecated_alias q)
  unfolding lookup
  lookup-deprecated q e k = ground (arith, spells, e, k)

  -- What is found for a name that has a place is the package that owns the name.
  at_index-Owned :
      (owners : Map String) (indices : Map ℕ) (p : PackageManifest)
      → IsOnly catalog.document.packages p
      → Owned owners catalog.document.packages indices
      → get owners n ≡ some p.id
      → Has indices n
      → (q : PackageManifest) × (at_index catalog indices n ≡ some q) × (q ≡ p)
  at_index-Owned owners indices p only owned owner (i, e) =
      let (q, at, id) = owned n i e in
      (q, ground (arith, e, at), only q i at (ground (arith, owner, id)))

  -- If only `p` has its id, what stands at a place that its owner has is `p` itself.
  finds_current :
      (owners : Map String) (p : PackageManifest)
      → IsOnly catalog.document.packages p
      → Owned owners catalog.document.packages catalog.exact
      → get owners n ≡ some p.id
      → Has catalog.exact n
      → lookup services catalog request ≡ ok (exact p)
  finds_current owners p only owned owner has =
      let (q, at, same) = at_index-Owned owners catalog.exact p only owned owner has in
      subst (λ (x : PackageManifest). lookup services catalog request ≡ ok (exact x)) same
        (lookup-exact q at)

  finds_old :
      (owners : Map String) (p : PackageManifest)
      → IsOnly catalog.document.packages p
      → Owned owners catalog.document.packages catalog.deprecated
      → get owners n ≡ some p.id
      → Has catalog.deprecated n
      → get catalog.exact n ≡ none
      → lookup services catalog request ≡ ok (deprecated_alias p)
  finds_old owners p only owned owner has absent =
      let (q, at, same) = at_index-Owned owners catalog.deprecated p only owned owner has in
      subst (λ (x : PackageManifest). lookup services catalog request ≡ ok (deprecated_alias x))
        same (lookup-deprecated q (ground (arith, absent)) at)

  -- The package itself is found, and as a deprecated alias only by a name that is not current.
  abbrev pub Finds : PackageManifest → Type 0
  Finds p =
      (lookup services catalog request ≡ ok (exact p))
      ⊎ ((lookup services catalog request ≡ ok (deprecated_alias p))
          × OldName services p n
          × (CurrentName services p n → ⊥))

  Indexed-Finds :
      (owners : Map String) (p : PackageManifest)
      → IsOnly catalog.document.packages p
      → Owned owners catalog.document.packages catalog.exact
      → Owned owners catalog.document.packages catalog.deprecated
      → OwnsNames services owners p
      → Indexed owners catalog.document.packages services catalog.exact catalog.deprecated p
      → CurrentName services p n ⊎ OldName services p n
      → Finds p
  Indexed-Finds owners p only o1 o2 owns indexed (inl current) = inl (
      finds_current owners p only o1 (owns n (current-HasName services p n current))
        (indexed.0 n current))
  Indexed-Finds owners p only o1 o2 owns indexed (inr old) =
      let owner = owns n (old-HasName services p n old) in
      elim (Option-cases (get catalog.exact n)) [
        | inr present ↦ inl (finds_current owners p only o1 owner present)
        | inl absent ↦ inr (
          finds_old owners p only o2 owner (indexed.1 n old) absent,
          old,
          λ current. let (i, there) = indexed.0 n current in ground (arith, absent, there),
        )
      ]

All-at :
    {A : Type 0} (P : A → Type 0) (xs : List A) → All P xs → (x : A) → Any (λ y. y ≡ x) xs → P x
All-at P [] h x at = elim at [ ]
All-at P (y ∷ xs) h x (inl same) = subst P same h.0
All-at P (y ∷ xs) h x (inr there) = All-at P xs h.1 x there

-- Where no two packages of a document have one id, `lookup` in the catalog that `from_document`
-- built takes a request that spells the id or an alias of a package, current or deprecated, to that
-- package: as exact, or as a deprecated alias if the name is a deprecated alias of it and none of
-- its current names.
pub from_document-Finds :
    (services : CatalogServices) (document : CatalogDocument) (source : String) (verified : Bool)
    (catalog : Catalog) (p : PackageManifest) (request n : String)
    → from_document services document source verified ≡ ok catalog
    → Distinct (ids document.packages)
    → Any (λ (x : PackageManifest). x ≡ p) document.packages
    → (spells : Spells services n request) → CurrentName services p n ⊎ OldName services p n
    → Finds services catalog request n spells p
unfolding from_document get
from_document-Finds services document source verified catalog p request n h distinct listed spells
      name =
    let (valid, e1, h1) = >>=-eq-ok (validate_document services document) _ h in
    let (maps, e2, h2) = >>=-eq-ok (index_packages services [] [] 0 document.packages) _ h1 in
    let (owners, owns) = validate_document-owners services document e1 in
    let (o1, o2, k1, k2, indexed) =
      index_packages-Owned owners document.packages services [] [] maps.0 maps.1 0 document.packages
        (λ j. ap (package_at document.packages) (omega arith)) owns (λ k i e. cc) (λ k i e. cc)
        e2 in
    let built : Catalog = record {
      document = document;
      exact = maps.0;
      deprecated = maps.1;
      identity = record {
        id = "siorb-main";
        version = document.catalog_version;
        verified = verified;
        expires_unix = document.expires_unix;
        source = source;
      };
    } in
    let same : built ≡ catalog = cc in
    subst (λ (c : Catalog). Finds services c request n spells p) same
      (Indexed-Finds services built request n spells owners p
        (Distinct-IsOnly document.packages p distinct listed) o1 o2
        (All-at (OwnsNames services owners) document.packages owns p listed)
        (All-at (Indexed owners document.packages services maps.0 maps.1) document.packages indexed
          p listed)
        name)
