-- ===== src/Manager/Warm.antt =====
-- crates/flanforge-manager/src/warm/source.rs: what an allocation boots from. The answers of the
-- worker, of the image store and of the quarantine set are the parameter `WarmAnswers`.
use flanforge.Base.{
  ℕ, Bool, true, false, not, ◌&&◌, ◌||◌, Option, none, some, List, text_eq, is_some_and,
  if◌then◌else◌, Result, ok, err, ok_or, refuse_if, ◌>>◌, ◌>>=◌,
}
use flanforge.Core.Names.{VmName}
use flanforge.Core.Source.{
  BaseFingerprint, AllocationMode, CloneKind, warm_kind, template_kind, CloneSource, FallbackReason,
  not_declared, unsupported, quarantined, absent, unclaimed, no_record, repointed, not_promoted,
  not_stopped, fingerprint_unavailable, stale_base, WarmImageState, promoted, WarmImageRecord,
  is_fingerprint_match,
}
use flanforge.Core.Allocation.{
  Allocation, AllocationState, preparing, booting, state_eq, is_warm_kind,
}
use flanforge.Core.Config.{Profile}
use flanforge.Manager.Model.{HostMachine}
pub mod Table
pub mod Examples

pub record SourceSelection : Type 0 where
  pub source : CloneSource
  pub warm_generation : Option ℕ

pub data WarmAvailability : Type 0 where
  ready busy_image absent_image : WarmAvailability

-- An answer that failed is `none`.
pub record WarmAnswers : Type 0 where
  pub base_fingerprint : Option BaseFingerprint
  pub is_warm_supported : Bool
  pub is_quarantined : Bool
  pub listing : Option (List HostMachine)
  pub image : Option (Option WarmImageRecord)
  pub warm_availability : WarmImageRecord → List HostMachine → Option WarmAvailability
  pub is_unclaimed_image : VmName → List HostMachine → Option Bool

unfoldable pub template_source :
    Profile → Option BaseFingerprint → Option FallbackReason → CloneSource
template_source profile base_fingerprint fallback_reason = record {
  name = profile.template;
  kind = template_kind;
  base_fingerprint = base_fingerprint;
  fallback_reason = fallback_reason;
}

unfoldable pub missing_record : WarmAnswers → VmName → List HostMachine → FallbackReason
missing_record answers warm listing = elim (answers.is_unclaimed_image warm listing) [
  | some b ↦ if b then unclaimed else no_record
  | none ↦ absent
]

-- `match self.inner.images.load(name)`
abbrev pub loaded : WarmAnswers → VmName → List HostMachine → Result WarmImageRecord FallbackReason
loaded answers warm listing = elim answers.image [
  | none ↦ err (missing_record answers warm listing)
  | some found ↦ ok_or found (missing_record answers warm listing)
]

abbrev pub is_promoted : WarmImageState → Bool
is_promoted promoted = true
is_promoted _ = false

-- `match self.inner.worker.warm_availability(..)`
abbrev pub check_availability : Option WarmAvailability → Result (Unit {0}) FallbackReason
check_availability (some WarmAvailability.ready) = ok tt
check_availability (some WarmAvailability.busy_image) = err not_stopped
check_availability (some WarmAvailability.absent_image) = err absent
check_availability none = err absent

abbrev pub selected : VmName → WarmImageRecord → SourceSelection
selected warm image = record {
  source = record {
    name = warm;
    kind = warm_kind;
    base_fingerprint = some image.base_fingerprint;
    fallback_reason = none;
  };
  warm_generation = some image.generation;
}

unfoldable pub warm_source : WarmAnswers → Profile → Result SourceSelection FallbackReason
unfolding is_fingerprint_match
warm_source answers profile = do
  warm ← ok_or profile.warm_template not_declared
  refuse_if (not answers.is_warm_supported) unsupported
  refuse_if answers.is_quarantined quarantined
  listing ← ok_or answers.listing absent
  image ← loaded answers warm listing
  refuse_if (not (text_eq image.warm_template warm)) repointed
  refuse_if (not (is_promoted image.state)) not_promoted
  check_availability (answers.warm_availability image listing)
  fingerprint ← ok_or answers.base_fingerprint fingerprint_unavailable
  refuse_if (not (is_fingerprint_match (some image.base_fingerprint) (some fingerprint))) stale_base
  ok (selected warm image)

abbrev pub is_warm : AllocationMode → Bool
is_warm AllocationMode.warm = true
is_warm _ = false

abbrev pub from_template : WarmAnswers → Profile → Option FallbackReason → SourceSelection
from_template answers profile reason = record {
  source = template_source profile answers.base_fingerprint reason;
  warm_generation = none;
}

unfoldable pub resolve_source : WarmAnswers → Profile → AllocationMode → SourceSelection
unfolding warm_source template_source
resolve_source answers profile mode =
    if not (is_warm mode)
    then from_template answers profile none
    else elim (warm_source answers profile) [
      | ok selection ↦ selection
      | err reason ↦ from_template answers profile (some reason)
    ]

-- The test of `ensure_warm_quarantined`: a warm guest that failed before it was reached.
unfoldable pub is_quarantining : Allocation → Bool
is_quarantining a =
    is_some_and a.source (λ s. is_warm_kind s.kind)
    && (state_eq a.state preparing || state_eq a.state booting)
