-- ===== src/Catalog/Lookup.antt =====
-- crates/siorb-catalog/src/lib.rs: `Catalog::search` and `Catalog::lookup`.
pub mod Places
pub mod Identities
use siorb.Shared.{
  ℕ, zero, suc, ◌+◌, compare, Ordering, then_with, compare_codes, codes, Bool, true, false, Option,
  none, some, String, ◌<>◌, ◌==◌, List, [], ◌∷◌, length, contains, join, Map, get, leb, ltb,
  split_whitespace, contains_text, starts_with_text, if◌then◌else◌,
}
use siorb.Core.Errors.{Result, ok, ◌>>=◌}
use siorb.Catalog.{PackageManifest}
use siorb.Catalog.Identifiers.{normalize_identifier, normalize_search}
use siorb.Catalog.Sources.{CatalogServices}
use siorb.Catalog.Document.{Catalog}

pub record SearchHit : Type 0 where
  pub id : String
  pub name : String
  pub description : String
  pub score : ℕ

pub data Lookup : Type 0 where
  exact : PackageManifest → Lookup
  deprecated_alias : PackageManifest → Lookup
  ambiguous : List PackageManifest → Lookup
  missing : Lookup

-- The package at a place; the source indexes with places that it took itself.
abbrev pub package_at : List PackageManifest → ℕ → Option PackageManifest
package_at [] index = none
package_at (manifest ∷ packages) zero = some manifest
package_at (manifest ∷ packages) (suc index) = package_at packages index

abbrev id_score : String → String → ℕ
id_score normalized id =
    if id == normalized
    then 1000
    else if starts_with_text normalized id
    then 750
    else if contains_text normalized id
    then 500
    else 0

abbrev part_score : ℕ → ℕ → String → String → ℕ
part_score whole part normalized text =
    if text == normalized then whole else if contains_text normalized text then part else 0

abbrev token_score : String → List String → ℕ
token_score searchable [] = 0
token_score searchable (token ∷ tokens) =
    (if contains (split_whitespace searchable) token
      then 100
      else if contains_text token searchable
      then 30
      else 0)
    + token_score searchable tokens

-- `hits.sort_by`: the higher score first, then by id.
abbrev hit_after : SearchHit → SearchHit → Bool
hit_after left right =
    elim (then_with (compare right.score left.score)
      (compare_codes (codes left.id) (codes right.id))) [ Ordering.gt ↦ true | _ ↦ false ]

abbrev insert_hit : SearchHit → List SearchHit → List SearchHit
insert_hit hit [] = hit ∷ []
insert_hit hit (other ∷ hits) =
    let rest = insert_hit hit hits in
    if hit_after hit other then other ∷ rest else hit ∷ other ∷ hits

abbrev sort_hits : List SearchHit → List SearchHit
sort_hits [] = []
sort_hits (hit ∷ hits) = insert_hit hit (sort_hits hits)

-- `hits.truncate(limit)`
abbrev truncate : ℕ → List SearchHit → List SearchHit
truncate zero hits = []
truncate (suc limit) [] = []
truncate (suc limit) (hit ∷ hits) = hit ∷ truncate limit hits

-- The package that the identity has in an index.
abbrev pub at_index : Catalog → Map ℕ → String → Option PackageManifest
at_index catalog indices normalized = elim (get indices normalized) [
  | none ↦ none
  | some index ↦ package_at catalog.document.packages index
]

module _ (services : CatalogServices) where
  abbrev alias_score : String → List String → Result ℕ
  alias_score normalized [] = ok 0
  alias_score normalized (alias ∷ aliases) = do
    name ← normalize_search services.nfkc alias
    rest ← alias_score normalized aliases
    ok (part_score 850 350 normalized name + rest)

  -- The body of the loop over the packages.
  unfoldable pub score_package : String → PackageManifest → Result ℕ
  unfolding split_whitespace
  score_package normalized manifest = do
    name ← normalize_search services.nfkc manifest.name
    aliases ← alias_score normalized manifest.aliases
    let words =
        manifest.description
        <> " "
        <> join " " manifest.categories
        <> " "
        <> join " " manifest.search_terms
    searchable ← normalize_search services.nfkc words
    ok (
        id_score normalized manifest.id
        + part_score 900 450 normalized name
        + aliases
        + token_score searchable (split_whitespace normalized))

  unfoldable pub hits_of : String → List PackageManifest → Result (List SearchHit)
  unfolding score_package
  hits_of normalized [] = ok []
  hits_of normalized (manifest ∷ packages) = do
    score ← score_package normalized manifest
    rest ← hits_of normalized packages
    ok (
        if ltb 0 score
        then record {
          id = manifest.id;
          name = manifest.name;
          description = manifest.description;
          score = score;
        }
          ∷ rest
        else rest)

  -- `Catalog::search`
  unfoldable pub search_packages : Catalog → String → ℕ → Result (List SearchHit)
  unfolding hits_of
  search_packages catalog query limit = do
    normalized ← normalize_search services.nfkc query
    hits ← hits_of normalized catalog.document.packages
    ok (truncate limit (sort_hits hits))

  -- The packages of the hits that score high enough.
  unfoldable pub plausible : Catalog → List SearchHit → List PackageManifest
  plausible catalog [] = []
  plausible catalog (hit ∷ hits) =
      let rest = plausible catalog hits in
      if leb 700 hit.score
      then elim (get catalog.exact hit.id) [
        | none ↦ rest
        | some index ↦ elim (package_at catalog.document.packages index) [
          | none ↦ rest
          | some manifest ↦ manifest ∷ rest
        ]
      ]
      else rest

  -- The search that follows where no identity fits.
  unfoldable pub lookup_similar : Catalog → String → Result Lookup
  unfolding plausible
  lookup_similar catalog request = do
    hits ← search_packages catalog request 5
    let packages = plausible catalog hits
    ok (if ltb 1 (length packages) then ambiguous packages else missing)

  -- `Catalog::lookup`
  unfoldable pub lookup : Catalog → String → Result Lookup
  lookup catalog request = do
    normalized ← normalize_identifier services.nfkc request
    elim (at_index catalog catalog.exact normalized) [
      | some manifest ↦ ok (exact manifest)
      | none ↦ elim (at_index catalog catalog.deprecated normalized) [
        | some manifest ↦ ok (deprecated_alias manifest)
        | none ↦ lookup_similar catalog request
      ]
    ]
