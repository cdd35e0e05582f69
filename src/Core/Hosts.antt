-- ===== src/Core/Hosts.antt =====
-- crates/siorb-core/src/lib.rs: `validate_public_network_host` and the address checks.
-- Parsing and printing an IP address is the standard library's: the record `Addresses`.
use Prim.Native.Nat.{bit_and}
use siorb.Shared.{
  ℕ, Bool, true, false, ◌&&◌, ◌||◌, not, Option, none, some, String, len, ◌==◌, List, [], ◌∷◌, any,
  all, chars_any, chars_all, is_ascii, is_ascii_alphanumeric, is_ascii_digit, is_control,
  text_empty, trim, trim_end, starts_with_char, ends_with_char, strip_prefix, ends_with_text,
  ascii_lowercase, split_on, eqb, ltb, within, if◌then◌else◌,
}

pub data PublicHostError : Type 0 where
  invalid local_name non_public_address : PublicHostError

-- `std::net::IpAddr`: four bytes, or eight segments of 16 bits, of which two decide.
pub data IpAddr : Type 0 where
  v4 : (first second third fourth : ℕ) → IpAddr
  v6 : (segment_0 segment_1 : ℕ) (others : List ℕ) → IpAddr

pub record Addresses : Type 0 where
  pub parse_ip : String → Option IpAddr
  pub show_ip : IpAddr → String

pub data HostResult : Type 0 where
  public_host : String → HostResult
  rejected : PublicHostError → HostResult

abbrev pub host_accepted : HostResult → Bool
host_accepted (public_host canonical) = true
host_accepted (rejected why) = false

unfoldable pub is_public_ipv4 : ℕ → ℕ → ℕ → Bool
is_public_ipv4 first second third =
    if (eqb first 0 || eqb first 10 || eqb first 127)
      || (eqb first 100 && within 64 127 second)
      || (eqb first 169 && eqb second 254)
      || (eqb first 172 && within 16 31 second)
      || (eqb first 192 && (eqb second 0 || eqb second 168))
      || (eqb first 198 && (eqb second 18 || eqb second 19))
      || (eqb first 198 && eqb second 51 && eqb third 100)
      || (eqb first 203 && eqb second 0 && eqb third 113)
    then false
    else ltb first 224

unfoldable pub is_public_ipv6 : ℕ → ℕ → Bool
is_public_ipv6 segment_0 segment_1 =
    eqb (bit_and segment_0 0xe000) 0x2000 && not (eqb segment_0 0x2001 && eqb segment_1 0x0db8)

unfoldable pub is_public_ip : IpAddr → Bool
unfolding is_public_ipv4 is_public_ipv6
is_public_ip (v4 first second third fourth) = is_public_ipv4 first second third
is_public_ip (v6 segment_0 segment_1 others) = is_public_ipv6 segment_0 segment_1

-- `value.strip_suffix(']')`
abbrev strip_last : String → Option String
strip_last String.[] = none
strip_last (String.◌∷◌ c String.[]) = if String.◌∷◌ c String.[] == "]" then some "" else none
strip_last (String.◌∷◌ c (String.◌∷◌ d s)) = elim (strip_last (String.◌∷◌ d s)) [
  | none ↦ none
  | some rest ↦ some (String.◌∷◌ c rest)
]

abbrev unbracketed : String → String
unbracketed host = elim (strip_prefix "[" host) [
  | none ↦ host
  | some rest ↦ elim (strip_last rest) [ none ↦ host | some inner ↦ inner ]
]

abbrev last_label : List String → String
last_label [] = ""
last_label (label ∷ []) = label
last_label (label ∷ next ∷ labels) = last_label (next ∷ labels)

unfoldable pub has_local_suffix : String → Bool
has_local_suffix canonical =
    let suffix = last_label (split_on b'.' canonical) in
    suffix == "localhost"
    || suffix == "local"
    || suffix == "internal"
    || suffix == "home"
    || suffix == "lan"

abbrev pub bad_label : String → Bool
bad_label label =
    text_empty label
    || ltb 63 (len label)
    || starts_with_char (eqb b'-') label
    || ends_with_char (eqb b'-') label
    || not (chars_all (λ c. is_ascii_alphanumeric c || eqb c b'-') label)

-- The name of a host, once it is no IP address.
unfoldable pub validate_host_name : String → HostResult
unfolding has_local_suffix
validate_host_name host =
    let canonical = ascii_lowercase (trim_end (eqb b'.') host) in
    let labels = split_on b'.' canonical in
    if not (is_ascii host) || ltb 253 (len host) || ends_with_text ".." host
    then rejected PublicHostError.invalid
    else if text_empty canonical
        || not (chars_any (eqb b'.') canonical)
        || canonical == "localhost"
        || has_local_suffix canonical
    then rejected PublicHostError.local_name
    else if any bad_label labels
    then rejected PublicHostError.invalid
    else if all (chars_all is_ascii_digit) labels
    then rejected PublicHostError.non_public_address
    else public_host canonical

unfoldable pub validate_public_network_host : Addresses → String → HostResult
unfolding validate_host_name is_public_ip
validate_public_network_host addresses host =
    if text_empty host || not (trim host == host) || chars_any is_control host
    then rejected PublicHostError.invalid
    else elim (addresses.parse_ip (unbracketed host)) [
      | some address ↦
          if is_public_ip address
          then public_host (addresses.show_ip address)
          else rejected PublicHostError.non_public_address
      | none ↦ validate_host_name host
    ]
