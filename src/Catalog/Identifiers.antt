-- ===== src/Catalog/Identifiers.antt =====
-- crates/siorb-catalog/src/lib.rs: `normalize_identifier` and `normalize_search`.
-- The compatibility normal form of Unicode (`nfkc`) is a parameter.
use siorb.Shared.{
  Bool, ◌||◌, not, String, len, is_ascii, is_ascii_alphanumeric, is_control, one_of, chars_all,
  chars_any, text_empty, starts_with_char, ends_with_char, trim, ascii_lowercase, eqb, ltb,
}
use siorb.Core.Errors.{Result, ok, ErrorKind, SiorbError, with_reason, ◌>>◌, reject_if}

abbrev invalid_input : String → SiorbError
invalid_input reason = with_reason ErrorKind.invalid_input reason

unfoldable pub unsafe_identifier : String → Bool
unsafe_identifier normalized =
    text_empty normalized
    || ltb 80 (len normalized)
    || starts_with_char (eqb b'-') normalized
    || ends_with_char (eqb b'-') normalized
    || not (chars_all (λ c. is_ascii_alphanumeric c || one_of "+-._" c) normalized)

module _ (nfkc : String → String) where
  unfoldable pub normalize_identifier : String → Result String
  unfolding unsafe_identifier
  normalize_identifier input = do
    let trimmed = trim input
    reject_if (not (is_ascii trimmed)) (invalid_input "input.identifier.confusable")
    let normalized = ascii_lowercase (nfkc trimmed)
    reject_if (unsafe_identifier normalized) (invalid_input "input.identifier.unsafe")
    ok normalized

  unfoldable pub normalize_search : String → Result String
  normalize_search input = do
    let value = ascii_lowercase (nfkc (trim input))
    reject_if (text_empty value || ltb 200 (len value) || chars_any is_control value)
        (invalid_input "input.search.unsafe")
    ok value
