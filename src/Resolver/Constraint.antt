-- ===== src/Resolver/Constraint.antt =====
-- `VersionConstraint`: its parser and `matches`. The crate `semver` is a parameter.
use siorb.Shared.{
  ℕ, code, Bool, false, ◌&&◌, ◌||◌, not, Option, none, some, String, ◌<>◌, len, ◌==◌, List, [], ◌∷◌,
  ◌++◌, map, length, any, text_empty, trim, trim_start, before_char, from_char, join, chars_any,
  chars_all, is_ascii, is_ascii_alphanumeric, is_ascii_digit, is_control, is_whitespace, one_of,
  starts_with_char, strip_prefix, split_on, eqb, ltb, leb, if◌then◌else◌,
}
use siorb.Core.Errors.{Result, ok, err, ErrorKind, SiorbError, with_reason, ◌>>=◌, ◌>>◌, reject_if}
use siorb.Policy.Versions.{Semver}

-- `semver::VersionReq`, its parser and its test, and the equality of versions.
pub record Requirements (semver : Semver) : Type 1 where
  pub VersionReq : Type 0
  pub parse_req : String → Option VersionReq
  pub matches_req : VersionReq → semver.Version → Bool
  pub same_version : semver.Version → semver.Version → Bool

-- `version_error`
abbrev pub version_error : SiorbError
version_error = with_reason ErrorKind.invalid_input "version.constraint.invalid"

-- `raw.chars().filter(..).collect()`: without white space.
abbrev pub without_spaces : String → String
without_spaces String.[] = String.[]
without_spaces (String.◌∷◌ c s) =
    let rest = without_spaces s in if is_whitespace (code c) then rest else String.◌∷◌ c rest

-- The parts of `value.rsplit_once(d)`, of a text that has `d`.
abbrev before_last : ℕ → String → String
before_last d String.[] = String.[]
before_last d (String.◌∷◌ c s) =
    let rest = before_last d s in if chars_any (eqb d) s then String.◌∷◌ c rest else String.[]

abbrev after_last : ℕ → String → String
after_last d String.[] = String.[]
after_last d (String.◌∷◌ c s) = let rest = after_last d s in if chars_any (eqb d) s then rest else s

abbrev unsafe_constraint : String → Bool
unsafe_constraint raw =
    text_empty raw
    || ltb 128 (len raw)
    || not (is_ascii raw)
    || chars_any (λ c. is_control c || not (is_ascii_alphanumeric c || one_of ".,+-:<>=^~*_xX " c))
        raw

unfoldable pub is_safe_exact_version : String → Bool
is_safe_exact_version value =
    not (text_empty value)
    && leb (len value) 128
    && is_ascii value
    && not (starts_with_char (eqb b'-') value)
    && chars_all (λ c. is_ascii_alphanumeric c || one_of ".+~:_-" c) value

abbrev pub strip_equals : String → Option String
strip_equals value = elim (strip_prefix "==" value) [
  | some rest ↦ some rest
  | none ↦ strip_prefix "=" value
]

unfoldable pub exact_constraint : String → Option String
unfolding is_safe_exact_version
exact_constraint value =
    if chars_any (eqb b',') value || chars_any (one_of "*xX") value
    then none
    else elim (strip_equals value) [
      | some rest ↦ if text_empty rest then none else some rest
      | none ↦
          if starts_with_char (one_of "<>^~") value
          then none
          else if is_safe_exact_version value
          then some value
          else none
    ]

abbrev bad_piece : String → Bool
bad_piece piece = text_empty piece || not (chars_all is_ascii_digit piece)

abbrev three_pieces : List String → List String
three_pieces [] = "0" ∷ "0" ∷ "0" ∷ []
three_pieces (a ∷ []) = a ∷ "0" ∷ "0" ∷ []
three_pieces (a ∷ b ∷ []) = a ∷ b ∷ "0" ∷ []
three_pieces (a ∷ b ∷ c ∷ rest) = a ∷ b ∷ c ∷ rest

-- `"=="` in front of a part is read as `"="`.
abbrev single_equals : String → String
single_equals part = elim (strip_prefix "==" part) [ none ↦ part | some rest ↦ "=" <> rest ]

module _ {semver : Semver} (requirements : Requirements semver) where
  unfoldable pub normalize_version : String → Option String
  unfolding split_on
  normalize_version text =
      let value = trim_start (one_of "vV") (trim text) in
      let pieces = split_on b'.' (before_char (one_of "-+") value) in
      let normalized = join "." (three_pieces pieces) <> from_char (one_of "-+") value in
      if ltb 3 (length pieces) || any bad_piece pieces
      then none
      else elim (semver.parse normalized) [ none ↦ none | some version ↦ some normalized ]

  -- `VersionConstraint`
  pub record VersionConstraint : Type 0 where
    pub raw : String
    pub requirement : Option (requirements.VersionReq)
    pub exact : Option String

  abbrev pub parsed_version : String → Option semver.Version
  parsed_version text = elim (normalize_version text) [
    | none ↦ none
    | some normalized ↦ semver.parse normalized
  ]

  -- The requirement of an exact version; one that is no semantic version has none.
  unfoldable pub exact_requirement : String → Result (Option (requirements.VersionReq))
  exact_requirement exact = elim (normalize_version exact) [
    | none ↦ ok none
    | some normalized ↦ elim (requirements.parse_req ("=" <> normalized)) [
      | none ↦ err version_error
      | some requirement ↦ ok (some requirement)
    ]
  ]

  unfoldable pub range_requirement : String → Result (Option (requirements.VersionReq))
  unfolding split_on
  range_requirement compact =
      elim (requirements.parse_req (join "," (map single_equals (split_on b',' compact)))) [
        | none ↦ err version_error
        | some requirement ↦ ok (some requirement)
      ]

  unfoldable pub requirement_of : String → Option String → Result (Option (requirements.VersionReq))
  requirement_of compact (some exact) = exact_requirement exact
  requirement_of compact none = range_requirement compact

  -- `VersionConstraint::parse`
  unfoldable pub parse_constraint : String → Result VersionConstraint
  unfolding split_on
  parse_constraint input = do
    let raw = trim input
    reject_if (unsafe_constraint raw) version_error
    let compact = without_spaces raw
    reject_if (text_empty compact || any text_empty (split_on b',' compact)) version_error
    let exact = exact_constraint compact
    requirement ← requirement_of compact exact
    ok (record { raw = compact; requirement = requirement; exact = exact })

  abbrev whole_version : String → List semver.Version
  whole_version text = elim (parsed_version text) [ none ↦ [] | some version ↦ version ∷ [] ]

  abbrev unless_listed : List semver.Version → List semver.Version → List semver.Version
  unless_listed versions [] = versions
  unless_listed versions (version ∷ more) =
      if any (λ other. requirements.same_version other version) versions
      then versions
      else versions ++ version ∷ []

  -- The version as it is, and without a revision after its last dash.
  unfoldable pub semantic_versions : String → List semver.Version
  semantic_versions text =
      let revision = after_last b'-' text in
      if chars_any (eqb b'-') text
        && not (text_empty revision)
        && chars_all (λ c. is_ascii_alphanumeric c || eqb c b'.') revision
      then unless_listed (whole_version text) (whole_version (before_last b'-' text))
      else whole_version text

  -- `VersionConstraint::matches`
  unfoldable pub matches : VersionConstraint → String → Bool
  matches constraint observed = elim constraint.exact [
    | some exact ↦ elim constraint.requirement [
      | none ↦ exact == observed
      | some requirement ↦ elim (parsed_version observed) [
        | none ↦ exact == observed
        | some version ↦ requirements.matches_req requirement version
      ]
    ]
    | none ↦ elim constraint.requirement [
      | none ↦ false
      | some requirement ↦ any (requirements.matches_req requirement) (semantic_versions observed)
    ]
  ]
