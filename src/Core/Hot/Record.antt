-- ===== src/Core/Hot/Record.antt =====
-- hot/record.rs: the durable record of one pool machine. The clock that the source reads is the
-- argument `now`.
use flanforge.Base.{
  leb, is_ok, is_none_or, ℕ, Bool, true, false, not, ◌&&◌, Option, none, some, text_eq, is_some,
  if◌then◌else◌, Result, ok, err, refuse_if, ◌>>◌, ◌>>=◌, saturating_add, u32_max,
}
use flanforge.Core.Names.{ProfileName, VmName, new_vm_name, new_profile_name}
use flanforge.Core.Source.{
  AllocationId, GuestSize, CloneSource, is_valid_size, is_valid_fingerprint,
}
use flanforge.Core.Hot.Lane.{HotLane, lane_eq}
use flanforge.Core.Hot.State.{
  HotState, HotDrainReason, HotTransitionError, provisioning, idle, claimed, recycling,
  can_transition_to, is_claim_bearing, state_eq,
}

pub record HotGuest : Type 0 where
  pub vm_name : VmName
  pub profile : ProfileName
  pub lane : HotLane
  pub state : HotState
  pub size : GuestSize
  pub source : CloneSource
  pub warm_generation : Option ℕ
  pub age_limit_seconds : Option ℕ
  pub booted_at_unix : ℕ
  pub updated_at_unix : ℕ
  pub jobs_served : ℕ  -- u32
  pub claimed_by : Option AllocationId
  pub drain_reason : Option HotDrainReason

-- `HotGuest::new`
unfoldable pub new_guest :
    ℕ → VmName → ProfileName → HotLane → GuestSize → CloneSource → Option ℕ → Option ℕ → HotGuest
new_guest now vm_name profile lane size source warm_generation age_limit_seconds = record {
  vm_name = vm_name;
  profile = profile;
  lane = lane;
  state = provisioning;
  size = size;
  source = source;
  warm_generation = warm_generation;
  age_limit_seconds = age_limit_seconds;
  booted_at_unix = now;
  updated_at_unix = now;
  jobs_served = 0;
  claimed_by = none;
  drain_reason = none;
}

-- A method that takes `&mut self` returns the new record.
unfoldable pub ensure_state : ℕ → HotState → HotGuest → Result HotGuest HotTransitionError
unfolding can_transition_to
ensure_state now next guest =
    if not (can_transition_to guest.state next)
    then err (record { from = guest.state; to = next })
    else ok (record guest { state = next; updated_at_unix = now })

unfoldable pub ensure_claimed : ℕ → AllocationId → HotGuest → Result HotGuest HotTransitionError
unfolding ensure_state
ensure_claimed now id guest = do
  refuse_if (not (state_eq guest.state idle)) (record { from = guest.state; to = claimed })
  moved ← ensure_state now claimed guest
  ok (record moved { claimed_by = some id })

unfoldable pub ensure_released : ℕ → HotGuest → Result HotGuest HotTransitionError
unfolding ensure_state
ensure_released now guest = do
  refuse_if (not (state_eq guest.state claimed)) (record { from = guest.state; to = recycling })
  moved ← ensure_state now recycling guest
  ok (record moved { claimed_by = none; jobs_served = saturating_add u32_max moved.jobs_served 1 })

unfoldable pub is_serving : HotGuest → ProfileName → HotLane → Bool
unfolding lane_eq
is_serving guest profile lane =
    state_eq guest.state idle && text_eq guest.profile profile && lane_eq guest.lane lane

abbrev bool_eq : Bool → Bool → Bool
bool_eq true b = b
bool_eq false b = not b

-- The record's one condition across fields.
unfoldable pub validate_claim : HotGuest → Bool
unfolding is_claim_bearing
validate_claim guest = bool_eq (is_some guest.claimed_by) (is_claim_bearing guest.state)

-- `range(min = 1)` of an optional number.
abbrev is_positive : Option ℕ → Bool
is_positive none = true
is_positive (some n) = leb 1 n

-- `HotGuest::validate`: the nested validations, the ranges and `validate_claim`.
unfoldable pub validate_guest : HotGuest → Bool
unfolding validate_claim is_valid_size is_valid_fingerprint new_vm_name new_profile_name
validate_guest guest =
    validate_claim guest
    && is_ok (new_vm_name guest.vm_name)
    && is_ok (new_profile_name guest.profile)
    && is_valid_size guest.size
    && is_ok (new_vm_name guest.source.name)
    && is_none_or guest.source.base_fingerprint is_valid_fingerprint
    && is_positive guest.warm_generation
    && is_positive guest.age_limit_seconds
