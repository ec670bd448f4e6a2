-- ===== src/Wire/Pointer.antt =====
-- image/pointer.rs, validation.rs and error.rs: names and keys that are safe, and the pointer to
-- one volume. A pointer's texts are its bytes; on Unix a path is absolute exactly if it starts with
-- a slash, and its components are its segments between the slashes.
use flanforge.Base.{
  ℕ, ◌^◌, Bool, false, not, ◌&&◌, ◌||◌, ◌==◌, ltb, leb, any, all, Text, codes, text_eq, starts_with,
  contains_text, split, is_ascii_alphanumeric, is_ascii_control, List, [], ◌∷◌, length, Result,
  ◌>>◌, refuse_if,
}

pub data WireError : Type 0 where
  encode decode : Text → WireError
  invalid : Text → Text → WireError

abbrev is_wire_name_byte : ℕ → Bool
is_wire_name_byte b = is_ascii_alphanumeric b || b == b'-' || b == b'_' || b == b'.'

unfoldable pub is_safe_name : Text → ℕ → Bool
unfolding text_eq contains_text all
is_safe_name value maximum_bytes =
    leb 1 (length value)
    && leb (length value) maximum_bytes
    && not (text_eq value (codes "."))
    && not (text_eq value (codes ".."))
    && not (contains_text value (codes ".."))
    && all is_wire_name_byte value

abbrev is_dots : Text → Bool
is_dots segment = text_eq segment (codes ".") || text_eq segment (codes "..")

-- The current directory is a component only at the start of a relative path, the parent anywhere.
abbrev has_dot_component : List Text → Bool
has_dot_component [] = false
has_dot_component (first ∷ rest) =
    text_eq first (codes ".") || any (λ s. text_eq s (codes "..")) (first ∷ rest)

unfoldable pub is_safe_key : Text → ℕ → Bool
unfolding any contains_text split text_eq
is_safe_key value maximum_bytes =
    not (length value == 0)
    && leb (length value) maximum_bytes
    && not (any is_ascii_control value)
    && (not (starts_with value (codes "/")) || not (contains_text value (codes "//")))
    && not (any is_dots (split b'/' value))
    && not (has_dot_component (split b'/' value))
    && (not (starts_with value (codes "/")) || starts_with value (codes "/"))

pub record VolumePointer : Type 0 where
  pub pool : Text
  pub volume_name : Text
  pub volume_key : Text
  pub virtual_bytes : ℕ
  pub generation : ℕ
  pub produced_at_unix : ℕ

abbrev max_logical_name_bytes : ℕ
max_logical_name_bytes = 128

abbrev max_volume_key_bytes : ℕ
max_volume_key_bytes = 4096

abbrev max_virtual_image_bytes : ℕ
max_virtual_image_bytes = 1024 ^ 4

abbrev refused : Text → WireError
refused = invalid (codes "libvirt volume pointer")

unfoldable pub ensure_pointer_valid : VolumePointer → Result (Unit {0}) WireError
unfolding is_safe_name is_safe_key
ensure_pointer_valid p =
    refuse_if (not (is_safe_name p.pool max_logical_name_bytes)) (refused (codes "pool"))
    >> (refuse_if (not (is_safe_name p.volume_name max_logical_name_bytes))
          (refused (codes "volume_name"))
        >> (refuse_if (not (is_safe_key p.volume_key max_volume_key_bytes))
              (refused (codes "volume_key"))
            >> refuse_if (p.virtual_bytes == 0 || ltb max_virtual_image_bytes p.virtual_bytes)
                (refused (codes "virtual_bytes"))))

unfoldable pub is_same_volume : VolumePointer → VolumePointer → Bool
unfolding text_eq
is_same_volume p other =
    text_eq p.volume_name other.volume_name || text_eq p.volume_key other.volume_key
