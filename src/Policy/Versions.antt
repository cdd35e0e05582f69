-- ===== src/Policy/Versions.antt =====
-- The comparison of versions: `compare_versions`, `exact_version` and `enforce_no_downgrade`.
-- `semver::Version` is a parameter.
pub mod Native
use siorb.Shared.{
  ℕ, zero, suc, ◌+◌, code, compare, Ordering, then_with, compare_codes, Bool, true, false, ◌&&◌,
  ◌||◌, not, Option, none, some, String, ◌<>◌, len, ◌==◌, List, [], ◌∷◌, ◌++◌, length, codes, any,
  is_empty, text_empty, trim, trim_start, before_char, from_char, join, is_ascii, chars_any,
  chars_all, is_ascii_digit, is_ascii_alphabetic, is_ascii_alphanumeric, starts_with_char, one_of,
  split_on, eqb, ltb, leb, if◌then◌else◌,
}
use siorb.Policy.Layers.{PolicyFile, PolicyReason, denial}

-- `semver::Version::parse` and the order of versions.
pub record Semver : Type 1 where
  pub Version : Type 0
  pub parse : String → Option Version
  pub compare_version : Version → Version → Ordering

-- What is left after a literal in front, if the text starts with it.
abbrev strip_char : ℕ → String → Option String
strip_char c String.[] = none
strip_char c (String.◌∷◌ d s) = if eqb (code d) c then some s else none

abbrev strip_equals : String → String
strip_equals value = elim (strip_char b'=' value) [
  | none ↦ value
  | some rest ↦ elim (strip_char b'=' rest) [ none ↦ rest | some more ↦ more ]
]

unfoldable pub exact_version : String → Option String
exact_version text =
    let value = strip_equals (trim text) in
    if text_empty value
      || chars_any (eqb b',') value
      || chars_any (eqb b'*') value
      || chars_any (eqb b'x') value
      || starts_with_char (one_of "<>^~") value
    then none
    else some value

unfoldable pub is_safe_native_version : String → Bool
is_safe_native_version value =
    not (text_empty value)
    && leb (len value) 128
    && is_ascii value
    && chars_all (λ c. is_ascii_alphanumeric c || one_of ".+~:_-" c) value

abbrev pub trim_leading_zeroes : List ℕ → List ℕ
trim_leading_zeroes [] = []
trim_leading_zeroes (b ∷ []) = b ∷ []
trim_leading_zeroes (b ∷ c ∷ rest) =
    let trimmed = trim_leading_zeroes (c ∷ rest) in if eqb b b'0' then trimmed else b ∷ c ∷ rest

abbrev pub native_byte_rank : Option ℕ → ℕ
native_byte_rank none = 1
native_byte_rank (some byte) =
    if eqb byte b'~' then 0 else if is_ascii_alphabetic byte then byte + 2 else byte + 258

abbrev pub first : List ℕ → Option ℕ
first [] = none
first (b ∷ bs) = some b

-- `slice.get(1..).unwrap_or_default()`
abbrev pub rest_of : List ℕ → List ℕ
rest_of [] = []
rest_of (b ∷ bs) = bs

abbrev pub starts_with_digit : List ℕ → Bool
starts_with_digit [] = false
starts_with_digit (b ∷ bs) = is_ascii_digit b

-- The leading digits, and what follows them.
abbrev pub digits : List ℕ → List ℕ
digits [] = []
digits (b ∷ bs) = let more = digits bs in if is_ascii_digit b then b ∷ more else []

abbrev pub after_digits : List ℕ → List ℕ
after_digits [] = []
after_digits (b ∷ bs) = let more = after_digits bs in if is_ascii_digit b then more else b ∷ bs

abbrev pub compare_numbers : List ℕ → List ℕ → Ordering
compare_numbers left right =
    let left_number = trim_leading_zeroes left in
    let right_number = trim_leading_zeroes right in
    then_with (compare (length left_number) (length right_number))
      (compare_codes left_number right_number)

abbrev pub unless_equal : Ordering → Option Ordering → Option Ordering
unless_equal Ordering.eq next = next
unless_equal ordering next = some ordering

-- The loop; `none` if the rounds run out.
unfoldable pub compare_rounds : ℕ → List ℕ → List ℕ → Option Ordering
compare_rounds zero left right = none
compare_rounds (suc n) left right =
    let after_numbers = compare_rounds n (after_digits left) (after_digits right) in
    let after_bytes = compare_rounds n (rest_of left) (rest_of right) in
    if is_empty left && is_empty right
    then some Ordering.eq
    else if starts_with_digit left && starts_with_digit right
    then unless_equal (compare_numbers (digits left) (digits right)) after_numbers
    else unless_equal (compare (native_byte_rank (first left)) (native_byte_rank (first right)))
        after_bytes

-- Of ASCII texts, whose bytes are their characters' numbers.
unfoldable pub compare_native_versions : String → String → Option Ordering
unfolding compare_rounds
compare_native_versions left right =
    compare_rounds (suc (length (codes left) + length (codes right))) (codes left) (codes right)

abbrev pad_to_three : List String → List String
pad_to_three [] = "0" ∷ "0" ∷ "0" ∷ []
pad_to_three (a ∷ []) = a ∷ "0" ∷ "0" ∷ []
pad_to_three (a ∷ b ∷ []) = a ∷ b ∷ "0" ∷ []
pad_to_three parts = parts

abbrev is_suffix_start : ℕ → Bool
is_suffix_start c = eqb c b'-' || eqb c b'+'

module _ (semver : Semver) where
  unfoldable pub loose_semver : String → Option semver.Version
  loose_semver text =
      let value = trim_start (λ c. eqb c b'v' || eqb c b'V') (trim text) in
      let numeric = split_on b'.' (before_char is_suffix_start value) in
      if text_empty value || not (is_ascii value)
      then none
      else if ltb 3 (length numeric)
          || any (λ (part : String). text_empty part || not (chars_all is_ascii_digit part)) numeric
      then none
      else semver.parse (join "." (pad_to_three numeric) <> from_char is_suffix_start value)

  unfoldable pub compare_versions : String → String → Option Ordering
  compare_versions left right =
      let native =
        if is_safe_native_version left && is_safe_native_version right
        then compare_native_versions left right
        else none in
      elim (loose_semver left) [
        | none ↦ native
        | some l ↦ elim (loose_semver right) [
          | none ↦ native
          | some r ↦ some (semver.compare_version l r)
        ]
      ]

  abbrev is_less : Option Ordering → Bool
  is_less (some Ordering.lt) = true
  is_less _ = false

  abbrev bind_exact : Option String → Option String
  bind_exact none = none
  bind_exact (some version) = exact_version version

  -- The reasons that `enforce_no_downgrade` pushes.
  unfoldable pub enforce_no_downgrade :
      PolicyFile → Option String → Option String → List PolicyReason
  enforce_no_downgrade layer none target_version = []
  enforce_no_downgrade layer (some installed) target_version = elim (bind_exact target_version) [
    | none ↦ []
    | some target ↦
        if is_less (compare_versions target installed)
        then denial layer "policy.downgrade.prevented"
            ("target version `" <> target <> "` is older than installed `" <> installed <> "`")
          ∷ []
        else []
  ]
