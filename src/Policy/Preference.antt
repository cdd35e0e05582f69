-- ===== src/Policy/Preference.antt =====
-- crates/siorb-policy/src/lib.rs: `backend_preference` and `parse_scope`.
use siorb.Shared.{ℕ, suc, ◌-◌, ◌^◌, Option, none, some, String, ◌==◌, List, [], ◌∷◌, if◌then◌else◌}
use siorb.Core.Platform.{Scope}
use siorb.Policy.Layers.{PolicyFile, LayeredPolicy}

-- `iter().position(|value| value == wanted)`
abbrev pub position : String → List String → Option ℕ
position wanted [] = none
position wanted (value ∷ values) =
    if value == wanted
    then some 0
    else elim (position wanted values) [ none ↦ none | some place ↦ some (suc place) ]

-- The place in the last layer that prefers the backend.
unfoldable pub preferred_place : String → List PolicyFile → Option ℕ
preferred_place backend [] = none
preferred_place backend (layer ∷ layers) = elim (preferred_place backend layers) [
  | some place ↦ some place
  | none ↦ position backend layer.preferred_backends
]

abbrev pub place_or : ℕ → Option ℕ → ℕ
place_or other none = other
place_or other (some place) = place

-- `LayeredPolicy::backend_preference`; `usize::MAX` where no layer prefers the backend.
unfoldable pub backend_preference : LayeredPolicy → String → ℕ
unfolding preferred_place
backend_preference policy backend = place_or (2 ^ 64 - 1) (preferred_place backend policy.layers)

unfoldable pub parse_scope : String → Option Scope
parse_scope value =
    if value == "user"
    then some Scope.user
    else if value == "system"
    then some Scope.system
    else if value == "auto"
    then some Scope.auto
    else none
