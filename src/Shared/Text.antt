-- ===== src/Shared/Text.antt =====
-- Text as Rust's `str` reads it: characters by their numbers, and the methods the program calls.
use Prim.Native.Nat.{ℕ, zero, suc, ◌+◌, ◌-◌, ◌*◌, ◌/◌, ◌%◌}
use Prim.Native.Char.{Char, code}
use Prim.Native.String.{String, ◌++◌}
use mathlib.Core.Bool.{Bool, true, false, ◌&&◌, ◌||◌}
use mathlib.Core.Option.{Option, none, some}
use mathlib.Core.List.{List, [], ◌∷◌}
use siorb.Shared.Tests.{ltb, eqb, within, if◌then◌else◌}

-- `char::is_control`: the general category Cc.
abbrev pub is_control : ℕ → Bool
is_control c = ltb c 32 || within 127 159 c

-- `char::is_whitespace`: the property White_Space.
abbrev pub is_whitespace : ℕ → Bool
is_whitespace c =
    within 9 13 c
    || eqb c 32
    || eqb c 133
    || eqb c 160
    || eqb c 5760
    || within 8192 8202 c
    || eqb c 8232
    || eqb c 8233
    || eqb c 8239
    || eqb c 8287
    || eqb c 12288

abbrev pub is_ascii_digit : ℕ → Bool
is_ascii_digit c = within b'0' b'9' c

abbrev pub is_ascii_alphabetic : ℕ → Bool
is_ascii_alphabetic c = within b'a' b'z' c || within b'A' b'Z' c

abbrev pub is_ascii_alphanumeric : ℕ → Bool
is_ascii_alphanumeric c = is_ascii_alphabetic c || is_ascii_digit c

-- `value.chars().any(p)` and `value.chars().all(p)`, over the characters' numbers.
abbrev pub chars_any : (ℕ → Bool) → String → Bool
chars_any p String.[] = false
chars_any p (String.◌∷◌ c s) = p (code c) || chars_any p s

abbrev pub chars_all : (ℕ → Bool) → String → Bool
chars_all p String.[] = true
chars_all p (String.◌∷◌ c s) = p (code c) && chars_all p s

abbrev pub text_empty : String → Bool
text_empty String.[] = true
text_empty (String.◌∷◌ c s) = false

-- The characters of a literal, and of any text, as numbers.
abbrev pub codes : String → List ℕ
codes String.[] = []
codes (String.◌∷◌ c s) = code c ∷ codes s

-- `"...".contains(character)` for a set of characters written as a text.
abbrev pub one_of : String → ℕ → Bool
one_of String.[] c = false
one_of (String.◌∷◌ d s) c = eqb (code d) c || one_of s c

-- `str::is_ascii`.
abbrev pub is_ascii : String → Bool
is_ascii s = chars_all (λ c. ltb c 128) s

-- `value.starts_with(p)` and `value.ends_with(p)` for one character.
abbrev pub starts_with_char : (ℕ → Bool) → String → Bool
starts_with_char p String.[] = false
starts_with_char p (String.◌∷◌ c s) = p (code c)

abbrev pub ends_with_char : (ℕ → Bool) → String → Bool
ends_with_char p String.[] = false
ends_with_char p (String.◌∷◌ c String.[]) = p (code c)
ends_with_char p (String.◌∷◌ c (String.◌∷◌ d s)) = ends_with_char p (String.◌∷◌ d s)

-- The first piece grows by a character.
abbrev push_front : Char → List String → List String
push_front c [] = String.◌∷◌ c String.[] ∷ []
push_front c (piece ∷ pieces) = String.◌∷◌ c piece ∷ pieces

-- `value.split(d)` for one character: always at least one piece.
unfoldable pub split_on : ℕ → String → List String
split_on d String.[] = String.[] ∷ []
split_on d (String.◌∷◌ c s) =
    let pieces = split_on d s in if eqb (code c) d then String.[] ∷ pieces else push_front c pieces

-- The digit of a number below ten.
abbrev digit_text : ℕ → String
digit_text zero = "0"
digit_text (suc zero) = "1"
digit_text (suc (suc zero)) = "2"
digit_text (suc (suc (suc zero))) = "3"
digit_text (suc (suc (suc (suc zero)))) = "4"
digit_text (suc (suc (suc (suc (suc zero))))) = "5"
digit_text (suc (suc (suc (suc (suc (suc zero)))))) = "6"
digit_text (suc (suc (suc (suc (suc (suc (suc zero))))))) = "7"
digit_text (suc (suc (suc (suc (suc (suc (suc (suc zero)))))))) = "8"
digit_text (suc (suc (suc (suc (suc (suc (suc (suc (suc n))))))))) = "9"

-- The digits of `n` before `rest`. The rounds are bounded by the fuel; `suc n` is enough.
decimal_from : ℕ → ℕ → String → String
decimal_from zero n rest = rest
decimal_from (suc fuel) n rest =
    let done = digit_text (n % 10) ++ rest in
    let more = decimal_from fuel (n / 10) done in if ltb n 10 then done else more

-- `{n}` in a format string.
unfoldable pub decimal : ℕ → String
unfolding decimal_from
decimal n = decimal_from (suc n) n ""

abbrev pub is_ascii_uppercase : ℕ → Bool
is_ascii_uppercase c = within b'A' b'Z' c

-- The lower-case letter of an upper-case one.
abbrev lowercase_of : ℕ → String
lowercase_of c =
    if eqb c b'A'
    then "a"
    else if eqb c b'B'
    then "b"
    else if eqb c b'C'
    then "c"
    else if eqb c b'D'
    then "d"
    else if eqb c b'E'
    then "e"
    else if eqb c b'F'
    then "f"
    else if eqb c b'G'
    then "g"
    else if eqb c b'H'
    then "h"
    else if eqb c b'I'
    then "i"
    else if eqb c b'J'
    then "j"
    else if eqb c b'K'
    then "k"
    else if eqb c b'L'
    then "l"
    else if eqb c b'M'
    then "m"
    else if eqb c b'N'
    then "n"
    else if eqb c b'O'
    then "o"
    else if eqb c b'P'
    then "p"
    else if eqb c b'Q'
    then "q"
    else if eqb c b'R'
    then "r"
    else if eqb c b'S'
    then "s"
    else if eqb c b'T'
    then "t"
    else if eqb c b'U'
    then "u"
    else if eqb c b'V'
    then "v"
    else if eqb c b'W'
    then "w"
    else if eqb c b'X'
    then "x"
    else if eqb c b'Y'
    then "y"
    else "z"

-- `str::to_ascii_lowercase`; two texts are equal up to ASCII case if these are equal.
unfoldable pub ascii_lowercase : String → String
ascii_lowercase String.[] = String.[]
ascii_lowercase (String.◌∷◌ c s) =
    let rest = ascii_lowercase s in
    if is_ascii_uppercase (code c) then lowercase_of (code c) ++ rest else String.◌∷◌ c rest

-- `value.trim_start_matches(p)`, `value.trim_end_matches(p)` and `value.trim()`.
abbrev pub trim_start : (ℕ → Bool) → String → String
trim_start p String.[] = String.[]
trim_start p (String.◌∷◌ c s) =
    let rest = trim_start p s in if p (code c) then rest else String.◌∷◌ c s

abbrev pub trim_end : (ℕ → Bool) → String → String
trim_end p String.[] = String.[]
trim_end p (String.◌∷◌ c s) =
    let rest = trim_end p s in
    if text_empty rest && p (code c) then String.[] else String.◌∷◌ c rest

abbrev pub trim : String → String
trim s = trim_end is_whitespace (trim_start is_whitespace s)

-- The part before the first character with `p`, and the rest from it on.
abbrev pub before_char : (ℕ → Bool) → String → String
before_char p String.[] = String.[]
before_char p (String.◌∷◌ c s) =
    let rest = before_char p s in if p (code c) then String.[] else String.◌∷◌ c rest

abbrev pub from_char : (ℕ → Bool) → String → String
from_char p String.[] = String.[]
from_char p (String.◌∷◌ c s) =
    let rest = from_char p s in if p (code c) then String.◌∷◌ c s else rest

-- `parts.join(d)`
abbrev pub join : String → List String → String
join d [] = ""
join d (part ∷ []) = part
join d (part ∷ next ∷ parts) = part ++ d ++ join d (next ∷ parts)

-- The number that digits write, after `n`, if all are digits.
abbrev digits_from : ℕ → String → Option ℕ
digits_from n String.[] = some n
digits_from n (String.◌∷◌ c s) =
    let rest = digits_from (n * 10 + (code c - b'0')) s in
    if is_ascii_digit (code c) then rest else none

abbrev unsigned : String → Option ℕ
unsigned s = if text_empty s then none else digits_from 0 s

abbrev strip_plus : String → String
strip_plus String.[] = String.[]
strip_plus (String.◌∷◌ c s) = if eqb (code c) b'+' then s else String.◌∷◌ c s

-- `value.parse()` for a number below `limit`, of a text without `-`: one `+` may stand in front.
abbrev pub parse_below : ℕ → String → Option ℕ
parse_below limit s = elim (unsigned (strip_plus s)) [
  | none ↦ none
  | some n ↦ if ltb n limit then some n else none
]
