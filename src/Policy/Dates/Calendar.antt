-- ===== src/Policy/Dates/Calendar.antt =====
-- Day numbers follow the calendar.
use siorb.Shared.{
  zero, ap, subst, Bool-cases, ℕ, suc, ◌+◌, ◌-◌, ◌*◌, ◌/◌, ◌≤◌, ◌<◌, ◌∙◌, sym, inl, inr, true,
  false, ◌≡◌, refl, Option, some, ltb, if◌then◌else◌, arith,
}
use siorb.Policy.Dates.{is_leap, month_days, civil_day, date_days}

-- The day after.
abbrev pub next_date : ℕ → ℕ → ℕ → ℕ × ℕ × ℕ
next_date year month day =
    if ltb day (month_days year month)
    then (year, month, suc day)
    else if ltb month 12
    then (year, suc month, 1)
    else (suc year, 1, 1)

-- The first of March of a year.
abbrev march : ℕ → ℕ
march year =
    let e = year / 400 in let r = year - e * 400 in e * 146097 + (r * 365 + r / 4 - r / 100)

march-suc_leap : (y : ℕ) → is_leap (suc y) ≡ true → march (suc y) ≡ march y + 366
march-suc_leap y h = ground arith

march-suc_common : (y : ℕ) → is_leap (suc y) ≡ false → march (suc y) ≡ march y + 365
march-suc_common y h = ground arith

-- The days from the first of March to the first of a month.
abbrev month_start : ℕ → ℕ
month_start month = (153 * (if ltb 2 month then month - 3 else month + 9) + 2) / 5

civil_day_lem :
    (y m d : ℕ)
    → 1 ≤ d
    → suc (civil_day y m d) ≡ march (if ltb 2 m then y else y - 1) + month_start m + d
unfolding civil_day
civil_day_lem y m d h = ground arith

month_start-suc :
    (y m : ℕ)
    → 1 ≤ m
    → m ≤ 11
    → ltb 2 m ≡ true
    → month_start (suc m) ≡ month_start m + month_days y m
month_start-suc y m h1 h11 h = ground arith

month_start-january : (y : ℕ) → month_start 2 ≡ month_start 1 + month_days y 1
month_start-january y = ground arith

-- The first day of the next month.
month_end-january : (y : ℕ) → civil_day y 2 1 ≡ suc (civil_day y 1 31)
month_end-january y = ground (arith, civil_day_lem y 2 1, civil_day_lem y 1 31)

month_end-february :
    (y : ℕ) → civil_day (suc y) 3 1 ≡ suc (civil_day (suc y) 2 (month_days (suc y) 2))
month_end-february y = elim (Bool-cases (is_leap (suc y))) [
  | inl h ↦
      ground (arith, h, march-suc_leap y h, civil_day_lem (suc y) 3 1, civil_day_lem (suc y) 2 29)
  | inr h ↦
      ground (arith, h, march-suc_common y h, civil_day_lem (suc y) 3 1, civil_day_lem (suc y) 2 28)
]

month_days-pos : (y m : ℕ) → 1 ≤ month_days y m
month_days-pos y m = ground arith

month_end-later :
    (y m : ℕ) → 3 ≤ m → m ≤ 11 → civil_day y (suc m) 1 ≡ suc (civil_day y m (month_days y m))
month_end-later y m h3 h11 = ground (
  arith,
  month_days-pos y m,
  month_start-suc y m,
  civil_day_lem y (suc m) 1,
  civil_day_lem y m (month_days y m),
)

month_end-december : (y : ℕ) → civil_day (suc y) 1 1 ≡ suc (civil_day y 12 31)
month_end-december y = ground (arith, civil_day_lem (suc y) 1 1, civil_day_lem y 12 31)

month_end :
    (y m : ℕ)
    → 1 ≤ y
    → 1 ≤ m
    → m ≤ 11
    → civil_day y (suc m) 1 ≡ suc (civil_day y m (month_days y m))
month_end zero m hy h1 h11 = omega arith
month_end (suc y) zero hy h1 h11 = omega arith
month_end (suc y) (suc zero) hy h1 h11 = month_end-january (suc y)
month_end (suc y) (suc (suc zero)) hy h1 h11 = month_end-february y
month_end (suc y) (suc (suc (suc m))) hy h1 h11 =
    month_end-later (suc y) (suc (suc (suc m))) (omega arith) h11

civil_day-suc : (y m d : ℕ) → 1 ≤ d → civil_day y m (suc d) ≡ suc (civil_day y m d)
civil_day-suc y m d h = ground (arith, civil_day_lem y m (suc d), civil_day_lem y m d)

-- The number of a date.
abbrev day_of : ℕ × ℕ × ℕ → ℕ
day_of (y, m, d) = civil_day y m d

civil_day-next :
    (y m d : ℕ)
    → 1970 ≤ y
    → 1 ≤ m
    → m ≤ 12
    → 1 ≤ d
    → d ≤ month_days y m
    → day_of (next_date y m d) ≡ suc (civil_day y m d)
civil_day-next y m d hy h1 h12 hd hm = elim (Bool-cases (ltb d (month_days y m))) [
  | inl inside ↦ (rw inside) ∙ civil_day-suc y m d hd
  | inr last ↦
      let at_end : d ≡ month_days y m = ground (arith, last) in
      elim (Bool-cases (ltb m 12)) [
        | inl before ↦
            (rw (last, before))
            ∙ month_end y m (omega arith) h1 (ground (arith, before))
            ∙ ap (λ e. suc (civil_day y m e)) (sym at_end)
        | inr december ↦
            let twelve : m ≡ 12 = ground (arith, december) in
            (rw (last, december))
            ∙ month_end-december y
            ∙ ap (λ e. suc (civil_day y 12 e)) (sym (at_end ∙ ap (month_days y) twelve))
            ∙ ap (λ n. suc (civil_day y n d)) (sym twelve)
      ]
]

-- The dates whose numbers are exact, far below the limit of an `i64`.
abbrev pub IsDate : ℕ × ℕ × ℕ → Type 0
IsDate (y, m, d) = (1970 ≤ y) × (y ≤ 1000000) × (1 ≤ m) × (m ≤ 12) × (1 ≤ d) × (d ≤ month_days y m)

next_date-IsDate : (y m d : ℕ) → IsDate (y, m, d) → y < 1000000 → IsDate (next_date y m d)
next_date-IsDate y m d (hy, hy', h1, h12, hd, hm) below =
    elim (Bool-cases (ltb d (month_days y m))) [
      | inl inside ↦
          let e : (y, m, suc d) ≡ next_date y m d = rw inside in
          subst IsDate e (hy, hy', h1, h12, omega arith, ground (arith, inside))
      | inr last ↦ elim (Bool-cases (ltb m 12)) [
        | inl before ↦
            let e : (y, suc m, 1) ≡ next_date y m d = rw (last, before) in
            subst IsDate e
              (hy, hy', omega arith, ground (arith, before), omega arith, month_days-pos y (suc m))
        | inr december ↦
            let e : (suc y, 1, 1) ≡ next_date y m d = rw (last, december) in
            subst IsDate e (
              omega arith,
              omega arith,
              omega arith,
              omega arith,
              omega arith,
              month_days-pos (suc y) 1,
            )
      ]
    ]

civil_day-bounds :
    (y m d : ℕ) → IsDate (y, m, d) → (719468 ≤ civil_day y m d) × (civil_day y m d ≤ 1000000000)
civil_day-bounds y m d (hy, hy', h1, h12, hd, hm) = ground (arith, civil_day_lem y m d)

-- `date_days` of a triple.
abbrev pub days_of : ℕ × ℕ × ℕ → Option ℕ
days_of (y, m, d) = date_days y m d

date_days-IsDate : (date : ℕ × ℕ × ℕ) → IsDate date → days_of date ≡ some (day_of date - 719468)
unfolding date_days
date_days-IsDate (y, m, d) (hy, hy', h1, h12, hd, hm) =
    ground (arith, civil_day-bounds y m d (hy, hy', h1, h12, hd, hm))

-- The first of January of 1970 has the number 0, and the day after a date has the next number,
-- leap years included, for the dates of the years from 1970 up to 999999.
pub date_days-next :
    (y m d : ℕ)
    → IsDate (y, m, d)
    → y < 1000000
    → (date_days 1970 1 1 ≡ some 0)
      × ((n : ℕ) × (date_days y m d ≡ some n) × (days_of (next_date y m d) ≡ some (suc n)))
unfolding date_days civil_day
date_days-next y m d date below =
    let (hy, hy', h1, h12, hd, hm) = date in
    (
      refl,
      (
        civil_day y m d - 719468,
        date_days-IsDate (y, m, d) date,
        date_days-IsDate (next_date y m d) (next_date-IsDate y m d date below)
            ∙ ap some
                (ground (arith, civil_day-next y m d hy h1 h12 hd hm, civil_day-bounds y m d date)),
      ),
    )
