-- ===== src/Policy/Versions/Native.antt =====
-- The order of native versions: it always answers, and swapping the versions reverses the answer.
use siorb.Shared.{
  ℕ, zero, suc, ◌+◌, ◌≤◌, Ordering, reverse_ordering, Bool, true, false, ◌&&◌, Option, none, some,
  String, ◌≡◌, refl, ap, ◌∙◌, List, [], ◌∷◌, length, codes, is_empty, if◌then◌else◌, arith,
  compare_reverse, compare_codes-reverse,
}
use siorb.Policy.Versions.{
  digits, after_digits, rest_of, first, starts_with_digit, native_byte_rank, compare_numbers,
  trim_leading_zeroes, unless_equal, compare_rounds, compare_native_versions,
}

abbrev pub reversed : Option Ordering → Option Ordering
reversed none = none
reversed (some o) = some (reverse_ordering o)

unless_equal-reversed :
    (o : Ordering) (next : Option Ordering)
    → unless_equal (reverse_ordering o) (reversed next) ≡ reversed (unless_equal o next)
unless_equal-reversed Ordering.lt next = refl
unless_equal-reversed Ordering.eq next = refl
unless_equal-reversed Ordering.gt next = refl

compare_numbers-reverse :
    (a b : List ℕ) → compare_numbers b a ≡ reverse_ordering (compare_numbers a b)
compare_numbers-reverse a b = ground (
  arith,
  compare_reverse (length (trim_leading_zeroes a)) (length (trim_leading_zeroes b)),
  compare_codes-reverse (trim_leading_zeroes a) (trim_leading_zeroes b),
)

and_comm : (p q : Bool) → (p && q) ≡ (q && p)
and_comm p q = ground arith

-- A round, of its tests and results.
round : Bool → Bool → Option Ordering → Option Ordering → Option Ordering
round p q x y = if p then some Ordering.eq else if q then x else y

round-reversed :
    (p q : Bool) (x y : Option Ordering)
    → round p q (reversed x) (reversed y) ≡ reversed (round p q x y)
unfolding round
round-reversed true q x y = refl
round-reversed false true x y = refl
round-reversed false false x y = refl

unless_reverse_lem :
    (o : Ordering) (next : Option Ordering) {o' : Ordering} {next' : Option Ordering}
    → o' ≡ reverse_ordering o
    → next' ≡ reversed next
    → unless_equal o' next' ≡ reversed (unless_equal o next)
unless_reverse_lem o next e f = rw (e, f, unless_equal-reversed o next)

round_reverse_lem :
    (x y : Option Ordering) {p p' q q' : Bool} {x' y' : Option Ordering}
    → p' ≡ p
    → q' ≡ q
    → x' ≡ reversed x
    → y' ≡ reversed y
    → round p' q' x' y' ≡ reversed (round p q x y)
round_reverse_lem x y {p = p} {q = q} e f g h = rw (e, f, g, h, round-reversed p q x y)

compare_rounds-reverse :
    (n : ℕ) (a b : List ℕ) → compare_rounds n b a ≡ reversed (compare_rounds n a b)
unfolding compare_rounds round
compare_rounds-reverse zero a b = refl
compare_rounds-reverse (suc n) a b =
    round_reverse_lem _ _ (and_comm (is_empty b) (is_empty a))
      (and_comm (starts_with_digit b) (starts_with_digit a))
      (unless_reverse_lem _ _ (compare_numbers-reverse (digits a) (digits b))
        (compare_rounds-reverse n (after_digits a) (after_digits b)))
      (unless_reverse_lem _ _
        (compare_reverse (native_byte_rank (first a)) (native_byte_rank (first b)))
        (compare_rounds-reverse n (rest_of a) (rest_of b)))

length-after_digits : (l : List ℕ) → length (after_digits l) ≤ length l
length-after_digits [] = omega arith
length-after_digits (b ∷ bs) = ground (arith, length-after_digits bs)

length-after_digit :
    (l : List ℕ) → starts_with_digit l ≡ true → suc (length (after_digits l)) ≤ length l
length-after_digit [] h = ground arith
length-after_digit (b ∷ bs) h = ground (arith, length-after_digits bs)

-- The loop answers.
Answers : Option Ordering → Type 0
Answers o = (a : Ordering) × (o ≡ some a)

unless_equal-Answers :
    (o : Ordering) (next : Option Ordering) → Answers next → Answers (unless_equal o next)
unfolding Answers
unless_equal-Answers Ordering.lt next h = (Ordering.lt, refl)
unless_equal-Answers Ordering.eq next h = h
unless_equal-Answers Ordering.gt next h = (Ordering.gt, refl)

round-Answers :
    (p q : Bool) (x y : Option Ordering)
    → (p ≡ false → q ≡ true → Answers x)
    → (p ≡ false → q ≡ false → Answers y)
    → Answers (round p q x y)
unfolding Answers round
round-Answers true q x y f g = (Ordering.eq, refl)
round-Answers false true x y f g = f refl refl
round-Answers false false x y f g = g refl refl

shrink_digits :
    (a b : List ℕ)
    → (starts_with_digit a && starts_with_digit b) ≡ true
    → suc (length (after_digits a) + length (after_digits b)) ≤ length a + length b
shrink_digits a b h = ground (arith, length-after_digit a, length-after_digits b)

shrink_byte :
    (a b : List ℕ)
    → (is_empty a && is_empty b) ≡ false
    → suc (length (rest_of a) + length (rest_of b)) ≤ length a + length b
shrink_byte [] [] h = ground arith
shrink_byte [] (b ∷ bs) h = omega arith
shrink_byte (a ∷ as_) [] h = omega arith
shrink_byte (a ∷ as_) (b ∷ bs) h = omega arith

never : {A : Type 0} → ⊥ → A
never x = elim x [ ]

-- A round more than the bytes is enough.
compare_rounds-Answers :
    (n : ℕ) (a b : List ℕ) → suc (length a + length b) ≤ n → Answers (compare_rounds n a b)
unfolding compare_rounds round
compare_rounds-Answers zero a b h = never (omega arith)
compare_rounds-Answers (suc n) a b h =
    round-Answers (is_empty a && is_empty b) (starts_with_digit a && starts_with_digit b) _ _
      (λ p q. unless_equal-Answers _ _ (
        compare_rounds-Answers n (after_digits a) (after_digits b)
          (omega (arith, shrink_digits a b q))))
      (λ p q.
        unless_equal-Answers _ _
          (compare_rounds-Answers n (rest_of a) (rest_of b) (omega (arith, shrink_byte a b p))))

-- The comparison of two native versions ends with an ordering after at most as many rounds as the
-- versions have bytes, one more for the end, and the comparison of the swapped versions ends with
-- the reverse ordering.
pub compare_native_versions-total :
    (left right : String)
    → (o : Ordering) × (compare_native_versions left right ≡ some o)
      × (compare_native_versions right left ≡ some (reverse_ordering o))
unfolding compare_native_versions Answers
compare_native_versions-total left right =
    let l = codes left in
    let r = codes right in
    let n = suc (length l + length r) in
    let (o, e) : Answers (compare_rounds n l r) = compare_rounds-Answers n l r (omega arith) in
    (
      o,
      e,
      ap (λ k. compare_rounds k r l) (ap suc (omega arith))
          ∙ compare_rounds-reverse n l r
          ∙ ap reversed e,
    )
