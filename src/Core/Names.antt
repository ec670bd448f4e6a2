-- ===== src/Core/Names.antt =====
-- crates/flanforge-core/src/identifiers/names.rs: the validated identifiers. A validated name is
-- the text that it wraps.
use flanforge.Base.{
  split, ends_with_byte, ℕ, Bool, false, not, ◌&&◌, ◌||◌, List, [], ◌∷◌, ◌++◌, none, some, Text,
  codes, text_eq, ltb, leb, ◌==◌, if◌then◌else◌, length, get_elem?, all, is_some, unwrap_or,
  is_ascii_alphanumeric, is_ascii_lowercase, is_ascii_digit, split_once, Result, ok, err, refuse_if,
  ◌>>◌,
}
pub mod Repository
pub mod Examples

abbrev pub ProfileName : Type 0
ProfileName = Text

abbrev pub RunnerLabel : Type 0
RunnerLabel = Text

abbrev pub VmName : Type 0
VmName = Text

abbrev pub VmPrefix : Type 0
VmPrefix = Text

abbrev pub RepositoryName : Type 0
RepositoryName = Text

-- `kind: &'static str`
pub data Kind : Type 0 where
  profile_name runner_label vm_name vm_prefix : Kind

pub data IdentifierError : Type 0 where
  wrong_length : Kind → ℕ → ℕ → IdentifierError
  wrong_character : Kind → IdentifierError
  wrong_repository : IdentifierError
  wrong_vm_prefix : IdentifierError

abbrev pub is_name_byte : ℕ → Bool
is_name_byte byte = is_ascii_alphanumeric byte || byte == b'-' || byte == b'_' || byte == b'.'

abbrev pub is_profile_byte : ℕ → Bool
is_profile_byte byte =
    is_ascii_lowercase byte || is_ascii_digit byte || byte == b'_' || byte == b'-'

-- `value.as_bytes().first().is_some_and(u8::is_ascii_alphanumeric)`
unfoldable pub starts_alphanumeric : Text → Bool
starts_alphanumeric [] = false
starts_alphanumeric (b ∷ s) = is_ascii_alphanumeric b

-- The `new` that the `identifier!` macro writes.
unfoldable pub identifier : Kind → ℕ → ℕ → (ℕ → Bool) → Text → Result Text IdentifierError
identifier kind min max valid value = do
  refuse_if (not (leb min (length value) && leb (length value) max)) (wrong_length kind min max)
  refuse_if (not (starts_alphanumeric value) || not (all valid value)) (wrong_character kind)
  ok value

unfoldable pub new_profile_name : Text → Result ProfileName IdentifierError
unfolding identifier
new_profile_name = identifier profile_name 1 32 is_profile_byte

unfoldable pub new_runner_label : Text → Result RunnerLabel IdentifierError
unfolding identifier
new_runner_label = identifier runner_label 1 64 is_name_byte

unfoldable pub new_vm_name : Text → Result VmName IdentifierError
unfolding identifier
new_vm_name = identifier vm_name 1 80 is_name_byte

unfoldable pub new_vm_prefix : Text → Result VmPrefix IdentifierError
unfolding identifier
new_vm_prefix = identifier vm_prefix 3 24 is_name_byte

-- `VmName::with_suffix`
unfoldable pub with_suffix : VmName → Text → Result VmName IdentifierError
unfolding new_vm_name
with_suffix name suffix = new_vm_name (name ++ suffix)

-- `VmPrefix::ensure_valid`
unfoldable pub ensure_valid : VmPrefix → Result (Unit {0}) IdentifierError
unfolding ends_with_byte
ensure_valid prefix = if ends_with_byte b'-' prefix then ok tt else err wrong_vm_prefix

-- The conditions that `RepositoryName::new` puts on each of the two parts.
unfoldable pub is_unsafe_segment : Text → Bool
is_unsafe_segment s =
    (length s == 0)
    || ltb 100 (length s)
    || text_eq s (codes ".")
    || text_eq s (codes "..")
    || not (starts_alphanumeric s)
    || not (all is_name_byte s)

unfoldable pub new_repository_name : Text → Result RepositoryName IdentifierError
unfolding split is_unsafe_segment
new_repository_name value = do
  refuse_if (ltb 201 (length value)) wrong_repository
  let parts = split b'/' value
  let owner = unwrap_or (get_elem? parts 0) []
  let repository = unwrap_or (get_elem? parts 1) []
  refuse_if (is_some (get_elem? parts 2) || is_unsafe_segment owner || is_unsafe_segment repository)
      wrong_repository
  ok value

unfoldable pub owner : RepositoryName → Text
owner name = elim (split_once b'/' name) [ none ↦ [] | some (o, r) ↦ o ]

unfoldable pub repository : RepositoryName → Text
repository name = elim (split_once b'/' name) [ none ↦ [] | some (o, r) ↦ r ]
