-- ===== src/Policy/Dates.antt =====
-- `parse_iso_date_days` and `enforce_freshness`: days since 1970-01-01.
pub mod Calendar
use siorb.Shared.{
  ℕ, ◌+◌, ◌-◌, ◌*◌, ◌/◌, ◌%◌, ◌^◌, Bool, true, false, ◌&&◌, ◌||◌, not, Option, none, some, String,
  ◌<>◌, List, [], ◌∷◌, ltb, leb, eqb, within, split_on, parse_below, decimal, if◌then◌else◌,
}
use siorb.Policy.Layers.{PolicyFile, PolicyReason, denial}

abbrev pub is_leap : ℕ → Bool
is_leap year = eqb (year % 4) 0 && (not (eqb (year % 100) 0) || eqb (year % 400) 0)

abbrev pub month_days : ℕ → ℕ → ℕ
month_days year month =
    if eqb month 2
    then (if is_leap year then 29 else 28)
    else if eqb month 4 || eqb month 6 || eqb month 9 || eqb month 11
    then 30
    else 31

-- The civil-date transform, exact: the number of the day from 0000-03-01 on.
unfoldable pub civil_day : ℕ → ℕ → ℕ → ℕ
civil_day year month day =
    let adjusted_year = if leb month 2 then year - 1 else year in
    let era = adjusted_year / 400 in
    let year_of_era = adjusted_year - era * 400 in
    let adjusted_month = if ltb 2 month then month - 3 else month + 9 in
    let day_of_year = (153 * adjusted_month + 2) / 5 + day - 1 in
    let day_of_era = year_of_era * 365 + year_of_era / 4 - year_of_era / 100 + day_of_year in
    era * 146097 + day_of_era

-- The checks and the sum after the parts are read, an `i64` as its two's complement below 2 ^ 64.
unfoldable pub date_days : ℕ → ℕ → ℕ → Option ℕ
date_days year month day =
    if ltb year 1970 || not (within 1 12 month)
    then none
    else if eqb day 0 || ltb (month_days year month) day
    then none
    else some ((civil_day year month day + (2 ^ 64 - 719468)) % 2 ^ 64)

abbrev parts_days : List String → Option ℕ
parts_days (year ∷ month ∷ day ∷ []) = elim (parse_below (2 ^ 63) year) [
  | none ↦ none
  | some y ↦ elim (parse_below (2 ^ 32) month) [
    | none ↦ none
    | some m ↦ elim (parse_below (2 ^ 32) day) [ none ↦ none | some d ↦ date_days y m d ]
  ]
]
parts_days _ = none

unfoldable pub parse_iso_date_days : String → Option ℕ
parse_iso_date_days value = parts_days (split_on b'-' value)

-- `a > b` of two `i64`s.
abbrev pub i64_after : ℕ → ℕ → Bool
i64_after a b = ltb ((b + 2 ^ 63) % 2 ^ 64) ((a + 2 ^ 63) % 2 ^ 64)

-- `u64::try_from(a - b).unwrap_or(u64::MAX)`
abbrev pub age_between : ℕ → ℕ → ℕ
age_between a b =
    let age = (a + 2 ^ 64 - b) % 2 ^ 64 in if ltb age (2 ^ 63) then age else 2 ^ 64 - 1

abbrev pub freshness_of : PolicyFile → ℕ → ℕ → ℕ → List PolicyReason
freshness_of layer max_age reviewed_day now_day =
    let age = age_between now_day reviewed_day in
    if i64_after reviewed_day now_day
    then denial layer "policy.freshness.future" "source review date is in the future" ∷ []
    else if ltb max_age age
    then denial layer "policy.freshness.exceeded"
        ("source review is " <> decimal age <> " days old; policy permits " <> decimal max_age)
      ∷ []
    else []

-- The reasons that `enforce_freshness` pushes, for the source's review date at a time.
unfoldable pub enforce_freshness : PolicyFile → String → ℕ → List PolicyReason
enforce_freshness layer reviewed_at now_unix = elim layer.freshness_days [
  | none ↦ []
  | some max_age ↦ elim (parse_iso_date_days reviewed_at) [
    | none ↦ denial layer "policy.freshness.unknown" "source review date is missing or invalid" ∷ []
    | some reviewed_day ↦ freshness_of layer max_age reviewed_day (now_unix / 86400)
  ]
]
