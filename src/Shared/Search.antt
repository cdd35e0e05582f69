-- ===== src/Shared/Search.antt =====
-- Pieces of texts: Rust's `starts_with`, `contains`, `strip_prefix` and `split_whitespace`.
use Prim.Native.Nat.{ℕ}
use Prim.Native.Char.{Char, code}
use Prim.Native.String.{String}
use mathlib.Core.Bool.{Bool, true, false, ◌&&◌, ◌||◌}
use mathlib.Core.Option.{Option, none, some}
use mathlib.Core.List.{List, [], ◌∷◌}
use siorb.Shared.Tests.{eqb, within, if◌then◌else◌}
use siorb.Shared.Text.{text_empty, is_whitespace, is_ascii_digit}

-- `value.strip_prefix(prefix)`: what follows the prefix, if the text starts with it.
abbrev pub strip_prefix : String → String → Option String
strip_prefix String.[] s = some s
strip_prefix (String.◌∷◌ c p) String.[] = none
strip_prefix (String.◌∷◌ c p) (String.◌∷◌ d s) =
    let rest = strip_prefix p s in if eqb (code c) (code d) then rest else none

-- `value.starts_with(prefix)` for a text.
abbrev pub starts_with_text : String → String → Bool
starts_with_text String.[] s = true
starts_with_text (String.◌∷◌ c p) String.[] = false
starts_with_text (String.◌∷◌ c p) (String.◌∷◌ d s) = eqb (code c) (code d) && starts_with_text p s

-- `value.contains(piece)` and `value.ends_with(piece)` for a text.
abbrev pub contains_text : String → String → Bool
contains_text piece String.[] = text_empty piece
contains_text piece (String.◌∷◌ c s) =
    starts_with_text piece (String.◌∷◌ c s) || contains_text piece s

abbrev same_text : String → String → Bool
same_text String.[] String.[] = true
same_text String.[] (String.◌∷◌ d s) = false
same_text (String.◌∷◌ c p) String.[] = false
same_text (String.◌∷◌ c p) (String.◌∷◌ d s) = eqb (code c) (code d) && same_text p s

abbrev pub ends_with_text : String → String → Bool
ends_with_text piece String.[] = text_empty piece
ends_with_text piece (String.◌∷◌ c s) = same_text piece (String.◌∷◌ c s) || ends_with_text piece s

-- The first word grows by a character if it begins here.
abbrev add_to_word : Bool → Char → List String → List String
add_to_word joins c [] = String.◌∷◌ c String.[] ∷ []
add_to_word true c (word ∷ rest) = String.◌∷◌ c word ∷ rest
add_to_word false c (word ∷ rest) = String.◌∷◌ c String.[] ∷ word ∷ rest

abbrev starts_word : String → Bool
starts_word String.[] = false
starts_word (String.◌∷◌ c s) = if is_whitespace (code c) then false else true

-- `value.split_whitespace()`
unfoldable pub split_whitespace : String → List String
split_whitespace String.[] = []
split_whitespace (String.◌∷◌ c s) =
    let rest = split_whitespace s in
    if is_whitespace (code c) then rest else add_to_word (starts_word s) c rest

-- `char::is_ascii_hexdigit`
abbrev pub is_ascii_hexdigit : ℕ → Bool
is_ascii_hexdigit c = is_ascii_digit c || within b'a' b'f' c || within b'A' b'F' c
