-- ===== src/Catalog/Lookup/Places.antt =====
-- The maps from identities to places that `from_document` builds.
use siorb.Shared.{
  ℕ, suc, ◌+◌, ◌≡◌, refl, sym, subst, ◌⊎◌, inl, inr, some, String, ◌==◌, eq_iff, List, [], ◌∷◌, All,
  Any, Any-append_left, Any-append_right, Map, get, insert, get-insert, Bool-cases, arith,
}
use siorb.Core.Errors.{ok, >>=-eq-ok}
use siorb.Catalog.{PackageManifest}
use siorb.Catalog.Identifiers.{normalize_identifier}
use siorb.Catalog.Sources.{CatalogServices}
use siorb.Catalog.Document.{index_aliases, index_packages}
use siorb.Catalog.Document.Owners.{Spells, HasName, OwnsNames}
use siorb.Catalog.Lookup.{package_at}

-- The identity has a place.
abbrev pub Has : Map ℕ → String → Type 0
Has indices k = (i : ℕ) × (get indices k ≡ some i)

Has-insert_self : (indices : Map ℕ) (k : String) (index : ℕ) → Has (insert k index indices) k
Has-insert_self indices k index = (index, ground (arith, get-insert k k index indices, eq_iff k k))

Has-insert :
    (indices : Map ℕ) (k j : String) (index : ℕ) → Has indices j → Has (insert k index indices) j
Has-insert indices k j index (i, e) = elim (Bool-cases (k == j)) [
  | inl same ↦ (index, ground (arith, same, get-insert k j index indices))
  | inr other ↦ (i, ground (arith, other, e, get-insert k j index indices))
]

module _ (services : CatalogServices) where
  -- The ways to ask for a package: its id and aliases, and its deprecated aliases.
  abbrev pub CurrentName : PackageManifest → String → Type 0
  CurrentName p n = (n ≡ p.id) ⊎ Any (Spells services n) p.aliases

  abbrev pub OldName : PackageManifest → String → Type 0
  OldName p n = Any (Spells services n) p.deprecated_aliases

  pub current-HasName : (p : PackageManifest) (n : String) → CurrentName p n → HasName services p n
  current-HasName p n (inl id) = inl id
  current-HasName p n (inr named) =
      inr (Any-append_left (Spells services n) p.aliases p.deprecated_aliases named)

  pub old-HasName : (p : PackageManifest) (n : String) → OldName p n → HasName services p n
  old-HasName p n named =
      inr (Any-append_right (Spells services n) p.aliases p.deprecated_aliases named)

module _ (owners : Map String) (all : List PackageManifest) where
  -- A place is that of a package which owns the identity.
  abbrev pub Owned : Map ℕ → Type 0
  Owned indices =
      (k : String) (i : ℕ)
      → get indices k ≡ some i
      → (q : PackageManifest) × (package_at all i ≡ some q) × (get owners k ≡ some q.id)

  Owned-insert :
      (indices : Map ℕ) (k : String) (index : ℕ) (p : PackageManifest)
      → package_at all index ≡ some p
      → get owners k ≡ some p.id
      → Owned indices
      → Owned (insert k index indices)
  Owned-insert indices k index p at owner owned j i e = elim (Bool-cases (k == j)) [
    | inl same ↦
        let place : index ≡ i = ground (arith, same, e, get-insert k j index indices) in
        let name : k ≡ j = (eq_iff k j).0 same in
        (
          p,
          subst (λ (n : ℕ). package_at all n ≡ some p) place at,
          subst (λ n. get owners n ≡ some p.id) name owner,
        )
    | inr other ↦ owned j i (ground (arith, other, e, get-insert k j index indices))
  ]

  module _ (services : CatalogServices) where
    index_aliases-Owned :
        (before after : Map ℕ) (index : ℕ) (p : PackageManifest) (aliases : List String)
        → package_at all index ≡ some p
        → ((n : String) → Any (Spells services n) aliases → get owners n ≡ some p.id)
        → Owned before
        → index_aliases services before index aliases ≡ ok after
        → Owned after
          × ((k : String) → Has before k → Has after k)
          × ((n : String) → Any (Spells services n) aliases → Has after n)
    unfolding index_aliases
    index_aliases-Owned before after index p [] at owns owned h =
        let same : before ≡ after = ground (arith, h) in
        (subst Owned same owned, λ k has. subst (λ m. Has m k) same has, λ n named. elim named [ ])
    index_aliases-Owned before after index p (alias ∷ aliases) at owns owned h =
        let (m, e1, h1) = >>=-eq-ok (normalize_identifier services.nfkc alias) _ h in
        let next = insert m index before in
        let (owned', kept, named) =
          index_aliases-Owned next after index p aliases at (λ n there. owns n (inr there))
            (Owned-insert before m index p at (owns m (inl e1)) owned) h1 in
        (
          owned',
          λ k has. kept k (Has-insert before m k index has),
          λ n spelled. by_alias n m e1 (kept m (Has-insert_self before m index)) (named n) spelled,
        )
      where
        by_alias :
            (n m : String)
            → Spells services m alias
            → Has after m
            → (Any (Spells services n) aliases → Has after n)
            → Spells services n alias ⊎ Any (Spells services n) aliases
            → Has after n
        by_alias n m e1 has others (inl here) =
            let same : m ≡ n = ground (arith, e1, here) in subst (Has after) same has
        by_alias n m e1 has others (inr there) = others there

    -- The packages from `index` on are these.
    abbrev At : ℕ → List PackageManifest → Type 0
    At index rest = (j : ℕ) → package_at all (index + j) ≡ package_at rest j

    At-tail :
        (index : ℕ) (p : PackageManifest) (rest : List PackageManifest)
        → At index (p ∷ rest)
        → At (suc index) rest
    At-tail index p rest at j =
        subst (λ (n : ℕ). package_at all n ≡ package_at rest j) (omega arith) (at (suc j))

    At-head :
        (index : ℕ) (p : PackageManifest) (rest : List PackageManifest)
        → At index (p ∷ rest)
        → package_at all index ≡ some p
    At-head index p rest at = subst (λ (n : ℕ). package_at all n ≡ some p) (omega arith) (at 0)

    -- Every name of the package has a place.
    abbrev pub Indexed : Map ℕ → Map ℕ → PackageManifest → Type 0
    Indexed known old p =
        ((n : String) → CurrentName services p n → Has known n)
        × ((n : String) → OldName services p n → Has old n)

    pub index_packages-Owned :
        (known old known' old' : Map ℕ) (index : ℕ) (rest : List PackageManifest)
        → At index rest
        → All (OwnsNames services owners) rest
        → Owned known
        → Owned old
        → index_packages services known old index rest ≡ ok (known', old')
        → Owned known'
          × Owned old'
          × ((k : String) → Has known k → Has known' k)
          × ((k : String) → Has old k → Has old' k)
          × All (Indexed known' old') rest
    unfolding index_packages
    index_packages-Owned known old known' old' index [] at owns o1 o2 h =
        let e1 : known ≡ known' = ground (arith, h) in
        let e2 : old ≡ old' = ground (arith, h) in
        (
          subst Owned e1 o1,
          subst Owned e2 o2,
          λ k has. subst (λ m. Has m k) e1 has,
          λ k has. subst (λ m. Has m k) e2 has,
          tt,
        )
    index_packages-Owned known old known' old' index (p ∷ rest) at owns o1 o2 h =
        let here = At-head index p rest at in
        let named = insert p.id index known in
        let o1' = Owned-insert known p.id index p here (owns.0 p.id (inl refl)) o1 in
        let (known1, e1, h1) = >>=-eq-ok (index_aliases services named index p.aliases) _ h in
        let (old1, e2, h2) =
          >>=-eq-ok (index_aliases services old index p.deprecated_aliases) _ h1 in
        let (p1, k1, n1) =
          index_aliases-Owned named known1 index p p.aliases here
            (λ n spelled. owns.0 n (current-HasName services p n (inr spelled))) o1' e1 in
        let (p2, k2, n2) =
          index_aliases-Owned old old1 index p p.deprecated_aliases here
            (λ n spelled. owns.0 n (old-HasName services p n spelled)) o2 e2 in
        let (q1, q2, m1, m2, others) =
          index_packages-Owned known1 old1 known' old' (suc index) rest (At-tail index p rest at)
            owns.1 p1 p2 h2 in
        let id : Has known1 p.id = k1 p.id (Has-insert_self known p.id index) in
        (
          q1,
          q2,
          λ k has. m1 k (k1 k (Has-insert known p.id k index has)),
          λ k has. m2 k (k2 k has),
          (
            (λ n name. m1 n (by_name known1 n id (n1 n) name), λ n spelled. m2 n (n2 n spelled)),
            others,
          ),
        )
      where
        by_name :
            (known2 : Map ℕ) (n : String)
            → Has known2 p.id
            → (Any (Spells services n) p.aliases → Has known2 n)
            → CurrentName services p n
            → Has known2 n
        by_name known2 n id others (inl same) = subst (Has known2) (sym same) id
        by_name known2 n id others (inr spelled) = others spelled
