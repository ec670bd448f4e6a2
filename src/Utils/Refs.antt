-- ===== src/Utils/Refs.antt =====
-- The Git ref checks of crates/flanforge-utils/src/lib.rs.
use flanforge.Base.{
  ℕ, Bool, true, false, not, ◌&&◌, ◌||◌, ◌==◌, Text, [], codes, length, ltb, all, drop, split,
  starts_with, ends_with, ends_with_byte, contains_text, is_ascii_alphanumeric, to_ascii_lowercase,
  if◌then◌else◌,
}
pub mod Literal

abbrev pub is_ref_byte : Bool → ℕ → Bool
is_ref_byte wildcards byte =
    is_ascii_alphanumeric byte
    || (byte == b'/' || byte == b'-' || byte == b'_' || byte == b'.')
    || (wildcards && (byte == b'*' || byte == b'?'))

-- No segment after the first is empty, hidden or a lock file.
unfoldable pub is_safe_ref_segment : Text → Bool
is_safe_ref_segment segment =
    not (length segment == 0)
    && not (starts_with segment (codes "."))
    && not (ends_with (to_ascii_lowercase segment) (codes ".lock"))

unfoldable pub is_safe_ref_shape : Text → Bool → Bool
is_safe_ref_shape value wildcards =
    if not (starts_with value (codes "refs/"))
      || ltb 256 (length value)
      || (ends_with_byte b'/' value || ends_with_byte b'.' value)
      || contains_text value (codes "//")
      || contains_text value (codes "..")
      || contains_text value (codes "@{")
      || not (all (is_ref_byte wildcards) value)
    then false
    else all is_safe_ref_segment (drop 1 (split b'/' value))

unfoldable pub is_safe_git_ref : Text → Bool
is_safe_git_ref value = is_safe_ref_shape value false

unfoldable pub is_safe_git_ref_pattern : Text → Bool
is_safe_git_ref_pattern value = is_safe_ref_shape value true
