-- ===== src/Shared/Lists.antt =====
-- Lists measured by native numbers, and the Boolean tests of Rust's slices and iterators.
use Prim.Native.Nat.{ℕ, zero, suc, ◌+◌}
use Prim.Native.String.{String}
use mathlib.Core.Path.{◌≡◌, refl}
use mathlib.Core.Logic.{◌⊎◌, inl, inr}
use mathlib.Core.Bool.{Bool, true, false, not, ◌&&◌, ◌||◌}
use mathlib.Core.Option.{Option, none, some}
use mathlib.Core.List.{List, [], ◌∷◌, ◌++◌, map}
use native.Mathlib.Omega.{arith}
use text.Mathlib.Text.{◌==◌}
use siorb.Shared.Tests.{if◌then◌else◌, Bool-cases}

module _ {ℓ} {A : Type ℓ} where
  abbrev pub length : List A → ℕ
  length [] = 0
  length (x ∷ xs) = suc (length xs)

  abbrev pub is_empty : List A → Bool
  is_empty [] = true
  is_empty (x ∷ xs) = false

  -- `iter().any(p)` and `iter().all(p)`.
  abbrev pub any : (A → Bool) → List A → Bool
  any p [] = false
  any p (x ∷ xs) = p x || any p xs

  abbrev pub all : (A → Bool) → List A → Bool
  all p [] = true
  all p (x ∷ xs) = p x && all p xs

  -- `iter().find(p)`.
  abbrev pub find : (A → Bool) → List A → Option A
  find p [] = none
  find p (x ∷ xs) = if p x then some x else find p xs

  -- `iter().filter(p).collect()`.
  abbrev pub keep : (A → Bool) → List A → List A
  keep p [] = []
  keep p (x ∷ xs) = if p x then x ∷ keep p xs else keep p xs

  -- A predicate that holds of every element, or of some element with its place known.
  abbrev pub All {κ} : (A → Type κ) → List A → Type κ
  All P [] = Unit
  All P (x ∷ xs) = P x × All P xs

  abbrev pub Any : (A → Type 0) → List A → Type 0
  Any P [] = ⊥
  Any P (x ∷ xs) = P x ⊎ Any P xs

  pub any-append : (p : A → Bool) (xs ys : List A) → any p (xs ++ ys) ≡ (any p xs || any p ys)
  any-append p [] ys = refl
  any-append p (x ∷ xs) ys = ground (arith, any-append p xs ys)

  pub is_empty-append : (xs ys : List A) → is_empty (xs ++ ys) ≡ (is_empty xs && is_empty ys)
  is_empty-append [] ys = refl
  is_empty-append (x ∷ xs) ys = refl

  pub is_empty-keep : (p : A → Bool) (xs : List A) → is_empty (keep p xs) ≡ all (λ x. not (p x)) xs
  is_empty-keep p [] = refl
  is_empty-keep p (x ∷ xs) = ground (arith, is_empty-keep p xs)

  -- What follows from each element that `Any` can name follows from it.
  pub Any-elim : (P : A → Type 0) (Q : Type 0) → ((x : A) → P x → Q) → (xs : List A) → Any P xs → Q
  Any-elim P Q f [] h = elim h [ ]
  Any-elim P Q f (x ∷ xs) (inl here) = f x here
  Any-elim P Q f (x ∷ xs) (inr there) = Any-elim P Q f xs there

  pub Any-mono : (P Q : A → Type 0) → ((x : A) → P x → Q x) → (xs : List A) → Any P xs → Any Q xs
  Any-mono P Q f [] h = elim h [ ]
  Any-mono P Q f (x ∷ xs) (inl here) = inl (f x here)
  Any-mono P Q f (x ∷ xs) (inr there) = inr (Any-mono P Q f xs there)

  pub Any-append_left : (P : A → Type 0) (xs ys : List A) → Any P xs → Any P (xs ++ ys)
  Any-append_left P [] ys h = elim h [ ]
  Any-append_left P (x ∷ xs) ys (inl here) = inl here
  Any-append_left P (x ∷ xs) ys (inr there) = inr (Any-append_left P xs ys there)

  pub Any-append_right : (P : A → Type 0) (xs ys : List A) → Any P ys → Any P (xs ++ ys)
  Any-append_right P [] ys h = h
  Any-append_right P (x ∷ xs) ys h = inr (Any-append_right P xs ys h)

  pub length-append : (xs ys : List A) → length (xs ++ ys) ≡ length xs + length ys
  length-append [] ys = omega arith
  length-append (x ∷ xs) ys = omega (arith, length-append xs ys)

either : {P Q R S : Type 0} → (P → R) → (Q → S) → P ⊎ Q → R ⊎ S
either f g (inl h) = inl (f h)
either f g (inr h) = inr (g h)

-- What holds of the elements that are kept.
module _ {A : Type 0} (p : A → Bool) (P : A → Type 0) where
  pub Any-keep : (xs : List A) → Any P (keep p xs) → Any (λ x. P x × (p x ≡ true)) xs
  Any-keep [] h = elim h [ ]
  Any-keep (x ∷ xs) h = elim (Bool-cases (p x)) [
    | inl kept ↦ either (λ here. (here, kept)) (Any-keep xs) (rw kept at h)
    | inr dropped ↦ inr (Any-keep xs (rw dropped at h))
  ]

  pub All-keep : (xs : List A) → All P (keep p xs) → All (λ x. p x ≡ true → P x) xs
  All-keep [] h = tt
  All-keep (x ∷ xs) h = elim (Bool-cases (p x)) [
    | inl kept ↦ let (here, there) = (rw kept at h) in (λ k. here, All-keep xs there)
    | inr dropped ↦ (λ k. cc, All-keep xs (rw dropped at h))
  ]

pub Any-map :
    {A B : Type 0} (f : A → B) (P : B → Type 0) (xs : List A)
    → Any P (map f xs)
    → Any (λ x. P (f x)) xs
Any-map f P [] h = elim h [ ]
Any-map f P (x ∷ xs) (inl here) = inl here
Any-map f P (x ∷ xs) (inr there) = inr (Any-map f P xs there)

-- `Vec<String>::contains`.
abbrev pub contains : List String → String → Bool
contains [] a = false
contains (x ∷ xs) a = x == a || contains xs a

-- No string stands twice.
abbrev pub Distinct : List String → Type 0
Distinct [] = Unit
Distinct (x ∷ xs) = (contains xs x ≡ false) × Distinct xs

abbrev pub replicate {ℓ} : {A : Type ℓ} → ℕ → A → List A
replicate zero a = []
replicate (suc n) a = a ∷ replicate n a
