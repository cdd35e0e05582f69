-- ===== src/Shared/Orders.antt =====
-- `std::cmp::Ordering`, and the order of texts: by code points, which is the order of UTF-8 bytes.
use Prim.Native.Nat.{ℕ, compare, Ordering}
use mathlib.Core.Path.{◌≡◌, refl}
use mathlib.Core.List.{List, [], ◌∷◌}
use native.Mathlib.Omega.{arith}

-- `Ordering::then_with` and `Ordering::reverse`.
abbrev pub then_with : Ordering → Ordering → Ordering
then_with Ordering.lt b = Ordering.lt
then_with Ordering.eq b = b
then_with Ordering.gt b = Ordering.gt

abbrev pub reverse_ordering : Ordering → Ordering
reverse_ordering Ordering.lt = Ordering.gt
reverse_ordering Ordering.eq = Ordering.eq
reverse_ordering Ordering.gt = Ordering.lt

-- `a.cmp(b)` of two slices of numbers.
abbrev pub compare_codes : List ℕ → List ℕ → Ordering
compare_codes [] [] = Ordering.eq
compare_codes [] (b ∷ bs) = Ordering.lt
compare_codes (a ∷ as_) [] = Ordering.gt
compare_codes (a ∷ as_) (b ∷ bs) = then_with (compare a b) (compare_codes as_ bs)

pub compare_reverse : (a b : ℕ) → compare b a ≡ reverse_ordering (compare a b)
compare_reverse a b = ground arith

pub then_with-reverse :
    (a b : Ordering)
    → reverse_ordering (then_with a b) ≡ then_with (reverse_ordering a) (reverse_ordering b)
then_with-reverse Ordering.lt b = refl
then_with-reverse Ordering.eq b = refl
then_with-reverse Ordering.gt b = refl

pub compare_codes-reverse :
    (a b : List ℕ) → compare_codes b a ≡ reverse_ordering (compare_codes a b)
compare_codes-reverse [] [] = refl
compare_codes-reverse [] (b ∷ bs) = refl
compare_codes-reverse (a ∷ as_) [] = refl
compare_codes-reverse (a ∷ as_) (b ∷ bs) =
    ground (arith, compare_reverse a b, compare_codes-reverse as_ bs)

-- What two comparisons in a row say of a third: `a` with `b`, `b` with `c`, then `a` with `c`.
abbrev pub Composes : Ordering → Ordering → Ordering → Type 0
Composes Ordering.eq p q = q ≡ p
Composes Ordering.lt Ordering.gt q = Unit
Composes Ordering.lt _ q = q ≡ Ordering.lt
Composes Ordering.gt Ordering.lt q = Unit
Composes Ordering.gt _ q = q ≡ Ordering.gt

pub Composes-flip : (o p q : Ordering) → Composes o p q → Composes p o q
Composes-flip Ordering.eq Ordering.eq q h = h
Composes-flip Ordering.eq Ordering.lt q h = h
Composes-flip Ordering.eq Ordering.gt q h = h
Composes-flip Ordering.lt Ordering.eq q h = h
Composes-flip Ordering.lt Ordering.lt q h = h
Composes-flip Ordering.lt Ordering.gt q h = tt
Composes-flip Ordering.gt Ordering.eq q h = h
Composes-flip Ordering.gt Ordering.lt q h = tt
Composes-flip Ordering.gt Ordering.gt q h = h

Composes-compare :
    (a b c : ℕ) (o p : Ordering) → compare a b ≡ o → compare b c ≡ p → Composes o p (compare a c)
Composes-compare a b c Ordering.eq p h k = ground (arith, h, k)
Composes-compare a b c Ordering.lt Ordering.eq h k = ground (arith, h, k)
Composes-compare a b c Ordering.lt Ordering.lt h k = ground (arith, h, k)
Composes-compare a b c Ordering.lt Ordering.gt h k = tt
Composes-compare a b c Ordering.gt Ordering.eq h k = ground (arith, h, k)
Composes-compare a b c Ordering.gt Ordering.lt h k = tt
Composes-compare a b c Ordering.gt Ordering.gt h k = ground (arith, h, k)

pub compare-Composes : (a b c : ℕ) → Composes (compare a b) (compare b c) (compare a c)
compare-Composes a b c = Composes-compare a b c (compare a b) (compare b c) refl refl

pub Composes-lt_right : (o : Ordering) → Composes o Ordering.lt Ordering.lt
Composes-lt_right Ordering.eq = refl
Composes-lt_right Ordering.lt = refl
Composes-lt_right Ordering.gt = tt

pub Composes-gt_right : (o : Ordering) → Composes o Ordering.gt Ordering.gt
Composes-gt_right Ordering.eq = refl
Composes-gt_right Ordering.lt = tt
Composes-gt_right Ordering.gt = refl

pub then_with-Composes :
    (o p q o' p' q' : Ordering)
    → Composes o p q
    → Composes o' p' q'
    → Composes (then_with o o') (then_with p p') (then_with q q')
then_with-Composes Ordering.eq Ordering.eq q o' p' q' h h' = rw h h'
then_with-Composes Ordering.eq Ordering.lt q o' p' q' h h' = rw h (Composes-lt_right o')
then_with-Composes Ordering.eq Ordering.gt q o' p' q' h h' = rw h (Composes-gt_right o')
then_with-Composes Ordering.lt Ordering.eq q o' p' q' h h' =
    rw h (Composes-flip p' Ordering.lt Ordering.lt (Composes-lt_right p'))
then_with-Composes Ordering.lt Ordering.lt q o' p' q' h h' = rw h
then_with-Composes Ordering.lt Ordering.gt q o' p' q' h h' = tt
then_with-Composes Ordering.gt Ordering.eq q o' p' q' h h' =
    rw h (Composes-flip p' Ordering.gt Ordering.gt (Composes-gt_right p'))
then_with-Composes Ordering.gt Ordering.lt q o' p' q' h h' = tt
then_with-Composes Ordering.gt Ordering.gt q o' p' q' h h' = rw h

pub compare_codes-Composes :
    (a b c : List ℕ) → Composes (compare_codes a b) (compare_codes b c) (compare_codes a c)
compare_codes-Composes [] [] c = refl
compare_codes-Composes [] (b ∷ bs) [] = tt
compare_codes-Composes [] (b ∷ bs) (c ∷ cs) =
    Composes-flip (compare_codes (b ∷ bs) (c ∷ cs)) Ordering.lt Ordering.lt
      (Composes-lt_right (compare_codes (b ∷ bs) (c ∷ cs)))
compare_codes-Composes (a ∷ as_) [] [] = refl
compare_codes-Composes (a ∷ as_) [] (c ∷ cs) = tt
compare_codes-Composes (a ∷ as_) (b ∷ bs) [] = Composes-gt_right (compare_codes (a ∷ as_) (b ∷ bs))
compare_codes-Composes (a ∷ as_) (b ∷ bs) (c ∷ cs) =
    then_with-Composes (compare a b) (compare b c) (compare a c) (compare_codes as_ bs)
      (compare_codes bs cs) (compare_codes as_ cs) (compare-Composes a b c)
      (compare_codes-Composes as_ bs cs)
