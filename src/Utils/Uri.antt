-- ===== src/Utils/Uri.antt =====
-- The libvirt URI check of crates/flanforge-utils/src/lib.rs.
use flanforge.Base.{
  ℕ, Bool, true, false, not, ◌&&◌, ◌||◌, ◌==◌, Option, none, some, Text, List, [], ◌∷◌, codes,
  length, ltb, leb, all, split_once, starts_with, ends_with_byte, strip_prefix, contains_text,
  contains_byte, text_eq, is_ascii_alphanumeric, is_ascii_digit, is_ascii_graphic, if◌then◌else◌,
  parse, is_some,
}
pub mod Transport

-- `str::split_once` by a text, and `str::rsplit_once` by a byte
unfoldable pub split_once_text : Text → Text → Option (Text × Text)
split_once_text t [] = none
split_once_text t (x ∷ s) =
    let later = split_once_text t s in
    elim (strip_prefix (x ∷ s) t) [
      | some rest ↦ some ([], rest)
      | none ↦ elim later [ none ↦ none | some (a, b) ↦ some (x ∷ a, b) ]
    ]

unfoldable pub rsplit_once : ℕ → Text → Option (Text × Text)
rsplit_once c [] = none
rsplit_once c (x ∷ s) = elim (rsplit_once c s) [
  | some (a, b) ↦ some (x ∷ a, b)
  | none ↦ if x == c then some ([], s) else none
]

abbrev pub is_user_byte : ℕ → Bool
is_user_byte byte = is_ascii_alphanumeric byte || byte == b'-' || byte == b'_' || byte == b'.'

abbrev pub is_host_byte : ℕ → Bool
is_host_byte byte = is_ascii_alphanumeric byte || byte == b'-' || byte == b'.'

abbrev pub u16_max : ℕ
u16_max = 65535

abbrev pub is_bad_port : Text → Bool
is_bad_port port =
    length port == 0 || not (all is_ascii_digit port) || not (is_some (parse u16_max port))

abbrev pub is_host : Text → Bool
is_host host =
    not (length host == 0)
    && leb (length host) 253
    && not (starts_with host (codes "."))
    && not (ends_with_byte b'.' host)
    && not (contains_text host (codes ".."))
    && all is_host_byte host

abbrev pub is_host_and_port : Text → Bool
is_host_and_port host = elim (rsplit_once b':' host) [
  | some (name, port) ↦ if is_bad_port port then false else is_host name
  | none ↦ is_host host
]

unfoldable pub is_libvirt_authority : Text → Bool
is_libvirt_authority authority = elim (split_once b'@' authority) [
  | some (user, host) ↦
      if length user == 0 || not (all is_user_byte user) then false else is_host_and_port host
  | none ↦ is_host_and_port authority
]

-- `match scheme`: the transport, where the scheme names one.
unfoldable pub transport_of : Text → Option Text
transport_of scheme =
    if text_eq scheme (codes "qemu")
    then some (codes "unix")
    else strip_prefix scheme (codes "qemu+")

unfoldable pub is_supported_transport : Text → Text → Bool → Bool
is_supported_transport transport authority is_insecure_allowed =
    if text_eq transport (codes "unix")
    then length authority == 0
    else if text_eq transport (codes "tcp") && not is_insecure_allowed
    then false
    else if text_eq transport (codes "ssh")
        || text_eq transport (codes "tls")
        || text_eq transport (codes "tcp")
    then is_libvirt_authority authority
    else false

abbrev pub is_uri_text : Text → Bool
is_uri_text uri =
    not (length uri == 0)
    && leb (length uri) 255
    && not (contains_byte uri b'?' || contains_byte uri b'#' || contains_byte uri b' ')
    && all is_ascii_graphic uri

unfoldable pub is_supported_libvirt_uri : Text → Bool → Bool
unfolding transport_of is_supported_transport
is_supported_libvirt_uri uri is_insecure_allowed =
    if not (is_uri_text uri) then false else elim (split_once_text (codes "://") uri) [
      | none ↦ false
      | some (scheme, rest) ↦ elim (transport_of scheme) [
        | none ↦ false
        | some transport ↦ elim (split_once b'/' rest) [
          | none ↦ false
          | some (authority, path) ↦
              if not (text_eq path (codes "system") || text_eq path (codes "session"))
              then false
              else is_supported_transport transport authority is_insecure_allowed
        ]
      ]
    ]
