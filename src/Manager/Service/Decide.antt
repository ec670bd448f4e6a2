-- ===== src/Manager/Service/Decide.antt =====
-- What a create decides: the request's authorization, and the record and the claim it is admitted
-- with.
use flanforge.Base.{
  ℕ, Bool, not, ◌&&◌, ◌||◌, ◌==◌, Option, none, some, Text, List, [], ◌∷◌, ◌++◌, find,
  filter_option, unwrap_or, if◌then◌else◌, Result, ok, map_err, ok_or, refuse_if, ◌>>◌, ◌>>=◌,
}
use flanforge.Core.Names.{VmName, RunnerLabel, ProfileName, new_runner_label}
use flanforge.Core.Source.{
  AllocationId, AllocationMode, GuestSize, BaseFingerprint, CloneSource, WarmImageRecord,
}
use flanforge.Core.Hot.{HotGuest, HotLane, from_ref_protected, is_retaining, is_lane_admitted}
use flanforge.Core.Allocation.{
  Allocation, AllocationRequest, is_terminal, is_same_attempt, is_regenerate, new_allocation,
  set_clone_source,
}
use flanforge.Core.Config.{Config, Profile, is_hot_enabled}
use flanforge.Core.Claims.{
  ForgejoClaims, ensure_authorized, is_valid_request, is_ref_protected, workflow_file,
}
use flanforge.Core.Sizing.{RequestOptions, resolve_size, resolve_hot_age, resolve_mode}
use flanforge.Manager.Model.{
  HostMachine, Entry, ManagerError, busy, probe_failed, invalid_request, request_exceeds_profile,
  authorization, invalid_runner_label, allocations,
}
use flanforge.Manager.Admission.{ensure_sole_producer, ensure_capacity, hot_snapshot, floored}
use flanforge.Manager.Pool.{HotContext, HotClaim, HotDecision, plan_hot_claim, apply}
use flanforge.Manager.Pool.Drain.{Host}
use flanforge.Manager.Pool.Bounds.{Live}
use flanforge.Manager.Pool.Yield.{YieldRead}
use flanforge.Manager.Resolve
use flanforge.Manager.Resolve.{vm_name}
use flanforge.Manager.Warm.{WarmAnswers, SourceSelection, resolve_source, is_promoted}

pub record Answers : Type 0 where
  pub now : ℕ
  pub id : AllocationId
  pub label : Text
  pub warm : WarmAnswers
  pub base_storage_mb : CloneSource → Option ℕ
  pub is_hot_supported : Bool
  pub base_fingerprint : Option BaseFingerprint
  pub promoted_image : Option (Option WarmImageRecord)
  pub machines : Option (List HostMachine)
  pub hot : Option (List HotGuest)
  pub is_closing : Bool
  pub is_clone_source_evidence_deferred : Bool
  pub host : Host
  pub live : Live
  pub is_counted : Bool
  pub yields : ℕ → YieldRead
  pub is_saved : Allocation → Bool
  pub history_limit : ℕ

pub record Resolved : Type 0 where
  pub profile : Profile
  pub size : GuestSize
  pub mode : AllocationMode
  pub source : SourceSelection
  pub lane : HotLane
  pub age_seconds : Option ℕ

pub record CreateAllocation : Type 0 where
  pub allocation : Allocation
  pub is_new : Bool

unfoldable pub effective_size : Answers → GuestSize → CloneSource → GuestSize
unfolding floored
effective_size answers size source = elim (answers.base_storage_mb source) [
  | none ↦ size
  | some base_mb ↦ floored size base_mb
]

unfoldable pub authorize :
    Answers
    → Config
    → AllocationRequest
    → RequestOptions
    → ForgejoClaims
    → Result Resolved ManagerError
authorize answers config request options claims = do
  refuse_if (not (is_valid_request request)) invalid_request
  profile ← Resolve.profile config request
  map_err authorization (ensure_authorized claims profile request)
  size ← map_err (λ e. request_exceeds_profile) (resolve_size options profile)
  age_seconds ← map_err (λ e. request_exceeds_profile) (resolve_hot_age options.hot profile)
  let mode = resolve_mode options profile (unwrap_or (workflow_file claims) [])
  let source = resolve_source answers.warm profile mode
  ok (record {
    profile = profile;
    size = effective_size answers size source.source;
    mode = mode;
    source = source;
    lane = from_ref_protected (is_ref_protected claims);
    age_seconds = age_seconds;
  })

unfoldable pub promoted_generation : Option (Option WarmImageRecord) → Option ℕ
promoted_generation none = none
promoted_generation (some found) = elim (filter_option found (λ image. is_promoted image.state)) [
  | none ↦ none
  | some image ↦ some image.generation
]

unfoldable pub hot_context :
    Answers → Config → ProfileName → Profile → HotLane → Option ℕ → Option HotContext
unfolding promoted_generation
hot_context answers config name profile lane age_seconds =
    elim (filter_option profile.hot is_hot_enabled) [
      | none ↦ none
      | some hot ↦
          if config.runtime.max_hot_vms == 0 || not (is_lane_admitted hot.lanes lane)
          then none
          else if not answers.is_hot_supported
          then none
          else some (record {
            hot = hot;
            name = name;
            lane = lane;
            fingerprint = answers.base_fingerprint;
            warm_generation = promoted_generation answers.promoted_image;
            max_hot_vms = config.runtime.max_hot_vms;
            age_seconds = age_seconds;
          })
    ]

-- The context that `prepare_hot` answers with.
unfoldable pub requested_context :
    Answers → Config → AllocationRequest → Resolved → RequestOptions → Option HotContext
unfolding hot_context
requested_context answers config request resolved options =
    if not (is_regenerate resolved.mode) && is_retaining options.hot
    then hot_context answers config request.profile resolved.profile resolved.lane
        resolved.age_seconds
    else none

abbrev pub is_live_attempt : AllocationRequest → Allocation → Bool
is_live_attempt request a = not (is_terminal a.state) && is_same_attempt a.request request

unfoldable pub idempotent : List Entry → AllocationRequest → Option Allocation
idempotent entries request = find (is_live_attempt request) (allocations entries)

-- The record that the admission decides on, and the claim that it takes.
pub record Decided : Type 0 where
  pub allocation : Allocation
  pub claim : Option HotClaim

abbrev pub planned : Answers → List Entry → List HotGuest → Option HotContext → Option HotClaim
planned answers entries hot none = none
planned answers entries hot (some context) =
    plan_hot_claim answers.now entries hot context answers.id

-- The new record, its clone source, and the claim that is applied to it.
unfoldable pub made :
    Answers
    → Config
    → List Entry
    → List HotGuest
    → AllocationRequest
    → RequestOptions
    → Resolved
    → RunnerLabel
    → VmName
    → Decided
unfolding requested_context
made answers config entries hot request options resolved runner_label vm_name =
    let fresh =
      new_allocation answers.id answers.now request vm_name runner_label resolved.mode
        resolved.size in
    let evidenced =
      if answers.is_clone_source_evidence_deferred
      then fresh
      else set_clone_source answers.now resolved.source.source resolved.source.warm_generation
          fresh in
    let context = requested_context answers config request resolved options in
    let claim = planned answers entries hot context in
    let decision : HotDecision = record {
      claim = claim;
      context = context;
      lane = resolved.lane;
      age_seconds = resolved.age_seconds;
      mode = resolved.mode;
      max_hot_vms = config.runtime.max_hot_vms;
    } in
    record {
      allocation = apply answers.now decision options.hot resolved.profile evidenced;
      claim = claim;
    }

unfoldable pub decide :
    Answers
    → Config
    → List Entry
    → AllocationRequest
    → RequestOptions
    → Resolved
    → Result Decided ManagerError
unfolding made
decide answers config entries request options resolved = do
  ensure_sole_producer entries request.profile resolved.mode
  machines ← ok_or answers.machines (busy probe_failed none)
  hot ← hot_snapshot answers.hot config
  ensure_capacity entries config resolved.size machines hot
  runner_label ←
      map_err (λ e. invalid_runner_label)
        (new_runner_label (resolved.profile.runner_label ++ (b'-' ∷ answers.label)))
  name ← vm_name config request
  ok (made answers config entries hot request options resolved runner_label name)
