-- ===== src/Core/Source.antt =====
-- crates/flanforge-core/src/allocation/{size,source,origin,outcome}.rs and image/*.rs: what an
-- allocation boots from, how large it is, and how it ended.
use flanforge.Base.{
  all, length, is_ascii_hexdigit, ℕ, Bool, true, false, ◌&&◌, Option, none, some, Text, codes,
  text_eq, leb, Result,
}
use flanforge.Core.Names.{VmName, ProfileName, IdentifierError, with_suffix}

-- `AllocationId(Uuid)`: the 128-bit number.
abbrev pub AllocationId : Type 0
AllocationId = ℕ

pub record GuestSize : Type 0 where
  pub cpu_count : ℕ  -- u8
  pub memory_mb : ℕ  -- u32
  pub storage_mb : ℕ  -- u64

abbrev pub max_storage_mb : ℕ
max_storage_mb = 1048576

-- The `#[validate(range(..))]` attributes of `GuestSize`.
unfoldable pub is_valid_size : GuestSize → Bool
is_valid_size s =
    leb 1 s.cpu_count
    && leb s.cpu_count 64
    && leb 2048 s.memory_mb
    && leb s.memory_mb 131072
    && leb 16384 s.storage_mb
    && leb s.storage_mb max_storage_mb

pub data AllocationMode : Type 0 where
  cold warm regenerate : AllocationMode

pub data CloneKind : Type 0 where
  template_kind warm_kind : CloneKind

pub data FallbackReason : Type 0 where
  not_declared no_record repointed absent not_stopped stale_base : FallbackReason
  unclaimed quarantined not_promoted fingerprint_unavailable unsupported : FallbackReason
  storage_too_small unknown : FallbackReason

abbrev pub BaseFingerprint : Type 0
BaseFingerprint = Text

-- Equal only where both sides are known.
-- `BaseFingerprint::validate`
unfoldable pub is_valid_fingerprint : BaseFingerprint → Bool
unfolding all
is_valid_fingerprint value =
    leb 1 (length value) && leb (length value) 128 && all is_ascii_hexdigit value

unfoldable pub is_fingerprint_match : Option BaseFingerprint → Option BaseFingerprint → Bool
is_fingerprint_match (some recorded) (some current) = text_eq recorded current
is_fingerprint_match _ _ = false

pub record CloneSource : Type 0 where
  pub name : VmName
  pub kind : CloneKind
  pub base_fingerprint : Option BaseFingerprint
  pub fallback_reason : Option FallbackReason

pub data AllocationOrigin : Type 0 where
  cloned : AllocationOrigin
  hot_reuse : VmName → ℕ → ℕ → AllocationOrigin

unfoldable pub is_hot_reuse : AllocationOrigin → Bool
is_hot_reuse cloned = false
is_hot_reuse (hot_reuse vm_name jobs_served booted_at_unix) = true

unfoldable pub hot_vm_name : AllocationOrigin → Option VmName
hot_vm_name cloned = none
hot_vm_name (hot_reuse vm_name jobs_served booted_at_unix) = some vm_name

pub data TerminalReason : Type 0 where
  capacity : TerminalReason

pub data RetentionResult : Type 0 where
  promoted rolled_back skipped rejected failed : RetentionResult

pub data RetentionPhase : Type 0 where
  strip stop stage verify retire promote : RetentionPhase

pub record RetentionOutcome : Type 0 where
  pub outcome : RetentionResult
  pub phase : RetentionPhase
  pub reason : Text
  pub generation : Option ℕ
  pub duration_ms : Option ℕ

pub data WarmImageState : Type 0 where
  staging promoted : WarmImageState

pub record WarmGeneration : Type 0 where
  pub generation : ℕ
  pub base_fingerprint : BaseFingerprint
  pub produced_by : AllocationId
  pub produced_at_unix : ℕ

pub record WarmImageRecord : Type 0 where
  pub profile : ProfileName
  pub warm_template : VmName
  pub generation : ℕ
  pub base_fingerprint : BaseFingerprint
  pub produced_by : AllocationId
  pub produced_at_unix : ℕ
  pub state : WarmImageState
  pub previous : Option WarmGeneration

abbrev pub staging_suffix : Text
staging_suffix = codes ".staging"

abbrev pub previous_suffix : Text
previous_suffix = codes ".previous"

unfoldable pub staging_name : WarmImageRecord → Result VmName IdentifierError
unfolding with_suffix
staging_name r = with_suffix r.warm_template staging_suffix

unfoldable pub previous_name : WarmImageRecord → Result VmName IdentifierError
unfolding with_suffix
previous_name r = with_suffix r.warm_template previous_suffix
