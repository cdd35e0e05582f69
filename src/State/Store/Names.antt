-- ===== src/State/Store/Names.antt =====
-- What `validate_component` lets into a path.
use siorb.Shared.{
  ℕ, true, false, String, ◌≡◌, ◌≢◌, refl, ◌≤◌, [], ◌∷◌, code, eqb, len, text_empty, chars_all,
  split_on, arith, eq_iff,
}
use siorb.Core.Errors.{ok}
use siorb.State.Store.{component_character, validate_component}

component_character-separator :
    (c : ℕ)
    → component_character c ≡ true
    → (eqb c b'/' ≡ false) × (eqb c 92 ≡ false) × (eqb c 0 ≡ false)
component_character-separator c h = ground arith

split_on-one :
    (d : ℕ) (s : String)
    → ((c : ℕ) → component_character c ≡ true → eqb c d ≡ false)
    → chars_all component_character s ≡ true
    → split_on d s ≡ s ∷ []
unfolding split_on
split_on-one d String.[] h all = refl
split_on-one d (String.◌∷◌ c s) h all = ground (arith, h (code c), split_on-one d s h)

-- A name that `validate_component` accepts is one component of a path: it is not empty, has at
-- most 128 bytes, is neither `.` nor `..`, and splitting it at `/` or `\\` gives it back whole.
pub validate_component-one :
    (name : String)
    → validate_component name ≡ ok tt
    → (text_empty name ≡ false)
      × (len name ≤ 128)
      × (name ≢ ".")
      × (name ≢ "..")
      × (split_on b'/' name ≡ name ∷ [])
      × (split_on 92 name ≡ name ∷ [])
unfolding validate_component
validate_component-one name h =
    let all : chars_all component_character name ≡ true = ground (arith, h) in
    (
      ground (arith, h),
      ground (arith, h),
      λ e. ground (arith, h, e, eq_iff name "."),
      λ e. ground (arith, h, e, eq_iff name ".."),
      split_on-one b'/' name (λ c t. (component_character-separator c t).0) all,
      split_on-one 92 name (λ c t. (component_character-separator c t).1) all,
    )
