-- ===== src/Manager/Pool/Claim.antt =====
-- hot/claim.rs, the context of hot/model.rs, and the decision of service.rs.
use flanforge.Base.{
  ℕ, Bool, not, ◌&&◌, Option, none, some, Text, List, map, filter, filter_map, contains, is_some,
  filter_option, unwrap_or, ◌==◌, if◌then◌else◌, ok, err,
}
use flanforge.Core.Names.{ProfileName}
use flanforge.Core.Source.{
  AllocationId, AllocationMode, AllocationOrigin, cloned, hot_reuse, hot_vm_name, CloneSource,
  BaseFingerprint,
}
use flanforge.Core.Hot.{
  HotGuest, HotLane, HotRefusal, regeneration, not_enabled, lane_not_admitted, pool_full,
  unsupported_backend, HotRequest, is_retaining, is_lane_admitted, is_holding_machine, new_guest,
  ensure_claimed,
}
use flanforge.Core.Allocation.{Allocation, is_terminal, is_regenerate, set_hot, set_hot_refused}
use flanforge.Core.Config.{HotConfig, Profile, is_hot_enabled}
use flanforge.Manager.Model.{Entry, allocations}
use flanforge.Manager.Pool.Select.{HotPolicy, claimable, is_pool_expandable}

-- `policy` carries the context's fingerprint and generation, and the time that it reads.
pub record HotContext : Type 0 where
  pub hot : HotConfig
  pub name : ProfileName
  pub lane : HotLane
  pub fingerprint : Option BaseFingerprint
  pub warm_generation : Option ℕ
  pub max_hot_vms : ℕ
  pub age_seconds : Option ℕ

unfoldable pub policy : ℕ → HotContext → HotPolicy
policy now c = record {
  hot = c.hot;
  fingerprint = c.fingerprint;
  warm_generation = c.warm_generation;
  now = now;
}

pub data HotClaim : Type 0 where
  reused : HotGuest → AllocationOrigin → CloneSource → HotClaim
  retained : HotClaim

-- The names that the non-terminal entries claim through their origin.
unfoldable pub live_hot_names : List Entry → List Text
live_hot_names entries =
    filter_map (λ (a : Allocation). hot_vm_name a.origin)
      (filter (λ a. not (is_terminal a.state)) (allocations entries))

abbrev pub will_retain : List Text → Allocation → Bool
will_retain recorded a =
    not (is_terminal a.state)
    && is_some a.hot_lane
    && not (contains recorded (unwrap_or (hot_vm_name a.origin) a.vm_name))

unfoldable pub in_flight_retentions : List Entry → List HotGuest → List ProfileName
in_flight_retentions entries hot =
    let recorded =
      map (λ (g : HotGuest). g.vm_name) (filter (λ g. is_holding_machine g.state) hot) in
    map (λ (a : Allocation). a.request.profile)
      (filter (will_retain recorded) (allocations entries))

-- The claiming run's own lifetime replaces the one that the machine was retained under.
abbrev pub with_age : Option ℕ → HotGuest → HotGuest
with_age none g = g
with_age (some age) g = record g { age_limit_seconds = some age }

abbrev pub reuse : HotGuest → HotClaim
reuse g = reused g (hot_reuse g.vm_name g.jobs_served g.booted_at_unix) g.source

-- The branch that found a machine: the claim is taken on a copy of its record.
unfoldable pub claim_machine : ℕ → AllocationId → HotContext → HotGuest → Option HotClaim
unfolding ensure_claimed
claim_machine now id context g = elim (ensure_claimed now id g) [
  | ok held ↦ some (reuse (with_age context.age_seconds held))
  | err e ↦ none
]

unfoldable pub plan_hot_claim :
    ℕ → List Entry → List HotGuest → HotContext → AllocationId → Option HotClaim
unfolding claim_machine policy
plan_hot_claim now entries hot context id =
    elim (claimable hot context.name context.lane (live_hot_names entries) (policy now context)) [
      | some g ↦ claim_machine now id context g
      | none ↦
          if is_pool_expandable hot context.max_hot_vms (in_flight_retentions entries hot)
          then some retained
          else none
    ]

-- The record of the machine that a retained allocation leaves behind.
unfoldable pub retained_record : ℕ → Allocation → HotLane → Option HotGuest
unfolding new_guest
retained_record now a lane = elim a.size [
  | none ↦ none
  | some size ↦ elim a.source [
    | none ↦ none
    | some source ↦
        some
          (record (new_guest now a.vm_name a.request.profile lane size source a.warm_generation
            a.hot_age_seconds) { jobs_served = 1 })
  ]
]

-- `refusal` of service.rs.
unfoldable pub refusal : AllocationMode → Profile → HotLane → ℕ → HotRefusal
refusal mode profile lane max_hot_vms =
    if is_regenerate mode then regeneration else elim (filter_option profile.hot is_hot_enabled) [
      | none ↦ not_enabled
      | some hot ↦
          if not (is_lane_admitted hot.lanes lane)
          then lane_not_admitted
          else if max_hot_vms == 0
          then pool_full
          else unsupported_backend
    ]

pub record HotDecision : Type 0 where
  pub claim : Option HotClaim
  pub context : Option HotContext
  pub lane : HotLane
  pub age_seconds : Option ℕ
  pub mode : AllocationMode
  pub max_hot_vms : ℕ

abbrev why_refused : HotDecision → Profile → HotRefusal
why_refused d profile = elim d.context [
  | some c ↦ pool_full
  | none ↦ refusal d.mode profile d.lane d.max_hot_vms
]

-- `HotDecision::apply`
unfoldable pub apply : ℕ → HotDecision → HotRequest → Profile → Allocation → Allocation
unfolding refusal set_hot set_hot_refused
apply now d request profile a = elim d.claim [
  | some c ↦ elim c [
    | reused guest origin source ↦ set_hot now (some d.lane) origin (some source) d.age_seconds a
    | retained ↦ set_hot now (some d.lane) cloned none d.age_seconds a
  ]
  | none ↦ if is_retaining request then set_hot_refused now (why_refused d profile) a else a
]
