-- ===== src/Shared/MapLaws.antt =====
-- Laws of the maps, in the form that has no side condition.
use Prim.Native.Nat.{suc, ◌≤◌}
use Prim.Native.String.{String}
use mathlib.Core.Path.{◌≡◌, refl, ap}
use mathlib.Core.Logic.{inl, inr}
use mathlib.Core.Bool.{Bool, true, false, ◌&&◌, ◌||◌}
use mathlib.Core.Option.{Option, none, some}
use mathlib.Core.List.{List, [], ◌∷◌}
use native.Mathlib.Omega.{arith}
use text.Mathlib.Text.{◌==◌}
use text.Mathlib.TextEquality.{eq_iff, path_by_compare}
use text.Mathlib.TextPositions.{eq_refl, compare_refl}
use siorb.Shared.Tests.{if◌then◌else◌, Bool-cases}
use siorb.Shared.Lists.{length, any, contains, Distinct}
use siorb.Shared.Maps.{Map, get, contains_key, insert, remove, modify, upsert, keys}

module _ {ℓ} {V : Type ℓ} where
  pub get-insert :
      (k i : String) (v : V) (m : Map V)
      → get (insert k v m) i ≡ (if k == i then some v else get m i)
  unfolding get insert
  get-insert k i v [] = refl
  get-insert k i v ((j, w) ∷ m) =
      ground
        (arith, eq_iff k i, eq_iff j i, path_by_compare k j, compare_refl k, get-insert k i v m)

  pub get-remove :
      (k i : String) (m : Map V) → get (remove k m) i ≡ (if k == i then none else get m i)
  unfolding get remove
  get-remove k i [] = ground arith
  get-remove k i ((j, w) ∷ m) = ground (arith, eq_iff k i, eq_iff j i, eq_iff j k, get-remove k i m)

  pub contains_key-insert :
      (k i : String) (v : V) (m : Map V)
      → contains_key (insert k v m) i ≡ (k == i || contains_key m i)
  unfolding contains_key insert
  contains_key-insert k i v [] = ground arith
  contains_key-insert k i v ((j, w) ∷ m) = ground (
    arith,
    eq_iff k i,
    eq_iff j i,
    path_by_compare k j,
    compare_refl k,
    contains_key-insert k i v m,
  )

  pub length-insert :
      (k : String) (v : V) (m : Map V)
      → contains_key m k ≡ false
      → length (insert k v m) ≡ suc (length m)
  unfolding contains_key insert
  length-insert k v [] h = refl
  length-insert k v ((j, w) ∷ m) h =
      ground (arith, eq_iff j k, path_by_compare k j, eq_refl k, length-insert k v m)

  pub contains-keys : (m : Map V) (k : String) → contains (keys m) k ≡ contains_key m k
  unfolding contains_key
  contains-keys [] k = refl
  contains-keys ((j, v) ∷ m) k = ground (arith, contains-keys m k)

  pub length-keys : (m : Map V) → length (keys m) ≡ length m
  length-keys [] = refl
  length-keys (e ∷ m) = ap suc (length-keys m)

  -- A map that grows by `insert` holds each key once.
  pub insert-Distinct :
      (k : String) (v : V) (m : Map V)
      → contains_key m k ≡ false
      → Distinct (keys m)
      → Distinct (keys (insert k v m))
  unfolding contains_key insert
  insert-Distinct k v [] h d = (refl, tt)
  insert-Distinct k v ((j, w) ∷ m) h d = ground (
    arith,
    eq_iff j k,
    eq_iff k j,
    path_by_compare k j,
    contains-keys m k,
    contains-keys m j,
    contains-keys (insert k v m) j,
    contains_key-insert k j v m,
    insert-Distinct k v m,
  )

  pub contains_key→some :
      (k : String) (m : Map V) → contains_key m k ≡ true → (v : V) × (get m k ≡ some v)
  unfolding contains_key get
  contains_key→some k [] h = absurd (ground (arith, h))
  contains_key→some k ((j, v) ∷ m) h = elim (Bool-cases (j == k)) [
    | inl here ↦ (v, rw here)
    | inr there ↦ let (w, e) = contains_key→some k m (rw there at h) in (w, rw there e)
  ]

  pub contains_key-get :
      (k : String) (m : Map V) → contains_key m k ≡ elim (get m k) [ none ↦ false | some v ↦ true ]
  unfolding contains_key get
  contains_key-get k [] = refl
  contains_key-get k ((j, v) ∷ m) = ground (arith, contains_key-get k m)

  get-modify :
      (k i : String) (f : V → V) (m : Map V)
      → get (modify k f m) i
        ≡ elim (get m i) [ none ↦ none | some v ↦ some (if k == i then f v else v) ]
  unfolding get modify
  get-modify k i f [] = refl
  get-modify k i f ((j, v) ∷ m) =
      ground (arith, eq_iff j k, eq_iff j i, eq_iff k i, get-modify k i f m)

  keys-modify : (k : String) (f : V → V) (m : Map V) → keys (modify k f m) ≡ keys m
  unfolding modify
  keys-modify k f [] = refl
  keys-modify k f ((j, v) ∷ m) = ap (λ l. j ∷ l) (keys-modify k f m)

  -- The value at a key, or the one that `or_insert` would put there.
  abbrev pub value_or : V → Option V → V
  value_or start none = start
  value_or start (some v) = v

  pub get-upsert :
      (k i : String) (f : V → V) (start : V) (m : Map V)
      → get (upsert k f start m) i
        ≡ (if k == i then some (f (value_or start (get m k))) else get m i)
  unfolding upsert
  get-upsert k i f start m =
      ground
        (arith, eq_iff k i, get-modify k i f m, get-insert k i (f start) m, contains_key-get k m)

  pub upsert-Distinct :
      (k : String) (f : V → V) (start : V) (m : Map V)
      → Distinct (keys m)
      → Distinct (keys (upsert k f start m))
  unfolding upsert
  upsert-Distinct k f start m d = elim (Bool-cases (contains_key m k)) [
    | inl old ↦ rw (old, keys-modify) d
    | inr new ↦ rw new (insert-Distinct k (f start) m new d)
  ]

  -- With distinct keys, a test of the entry at a key is a test of the value that `get` finds.
  pub any-get :
      (k : String) (test : V → Bool) (m : Map V)
      → Distinct (keys m)
      → any (λ (e : String × V). e.0 == k && test e.1) m
        ≡ elim (get m k) [ none ↦ false | some v ↦ test v ]
  unfolding get
  any-get k test [] d = refl
  any-get k test ((j, v) ∷ m) d =
      ground (arith, eq_iff j k, any-get k test m d.1, contains-keys m j, contains_key-get j m)

-- Distinct members of a list are at most as many as its elements.
erase : String → List String → List String
erase x [] = []
erase x (y ∷ ys) = if y == x then ys else y ∷ erase x ys

length-erase :
    (x : String) (ys : List String) → contains ys x ≡ true → length ys ≡ suc (length (erase x ys))
unfolding erase
length-erase x [] h = ground arith
length-erase x (y ∷ ys) h = ground (arith, length-erase x ys)

contains-erase :
    (x z : String) (ys : List String)
    → contains ys z ≡ true
    → (x == z) ≡ false
    → contains (erase x ys) z ≡ true
unfolding erase
contains-erase x z [] h n = ground arith
contains-erase x z (y ∷ ys) h n =
    ground (arith, eq_iff y x, eq_iff y z, eq_iff x z, contains-erase x z ys)

distinct_ne :
    (x z : String) (xs : List String)
    → contains xs x ≡ false
    → contains xs z ≡ true
    → (x == z) ≡ false
distinct_ne x z [] a b = ground arith
distinct_ne x z (y ∷ ys) a b =
    ground (arith, eq_iff x z, eq_iff y x, eq_iff y z, distinct_ne x z ys)

pub Distinct-length-le :
    (xs ys : List String)
    → Distinct xs
    → ((z : String) → contains xs z ≡ true → contains ys z ≡ true)
    → length xs ≤ length ys
Distinct-length-le [] ys d h = omega arith
Distinct-length-le (x ∷ xs) ys d h =
    let here : contains ys x ≡ true = h x (ground (arith, eq_refl x)) in
    let rest =
      Distinct-length-le xs (erase x ys) d.1
        (λ z m. contains-erase x z ys (h z (ground arith)) (distinct_ne x z xs d.0 m)) in
    omega (arith, length-erase x ys here)
