-- ===== src/Manager/Pool/Select.antt =====
-- hot/select.rs: which machine may still take a claim, and which one a claim takes.
use flanforge.Base.{
  ℕ, ◌+◌, ◌-◌, min, Bool, true, false, not, ◌&&◌, ◌||◌, ◌==◌, ltb, leb, Option, none, some, Text,
  text_lt, List, length, filter, best_by, contains, is_some, unwrap_or, if◌then◌else◌,
}
use flanforge.Core.Names.{ProfileName}
use flanforge.Core.Source.{BaseFingerprint, is_fingerprint_match}
use flanforge.Core.Hot.{
  HotGuest, HotLane, HotDrainReason, max_lifetime, max_jobs, stale_base, idle_ttl, idle,
  is_terminal, is_holding_machine, is_serving, state_eq,
}
use flanforge.Core.Config.{HotConfig}

pub record HotPolicy : Type 0 where
  pub hot : HotConfig
  pub fingerprint : Option BaseFingerprint
  pub warm_generation : Option ℕ
  pub now : ℕ

-- `guest.warm_generation != policy.warm_generation`, negated.
abbrev pub same_generation : Option ℕ → Option ℕ → Bool
same_generation none none = true
same_generation (some g) (some h) = g == h
same_generation _ _ = false

-- Only two known fingerprints can differ.
unfoldable pub is_base_changed : Option BaseFingerprint → Option BaseFingerprint → Bool
unfolding is_fingerprint_match
is_base_changed (some recorded) (some current) =
    not (is_fingerprint_match (some recorded) (some current))
is_base_changed _ _ = false

-- The lifetime that binds: the run's own, under the profile's ceiling.
unfoldable pub lifetime_limit : HotGuest → HotPolicy → ℕ
lifetime_limit guest policy =
    min (unwrap_or guest.age_limit_seconds policy.hot.max_lifetime_seconds)
      policy.hot.max_lifetime_seconds

unfoldable pub drain_reason : HotGuest → HotPolicy → Option HotDrainReason
unfolding lifetime_limit
drain_reason guest policy =
    if is_terminal guest.state
    then none
    else if leb (lifetime_limit guest policy) (policy.now - guest.booted_at_unix)
    then some max_lifetime
    else if leb policy.hot.max_jobs guest.jobs_served
    then some max_jobs
    else if is_base_changed guest.source.base_fingerprint policy.fingerprint
        || not (same_generation guest.warm_generation policy.warm_generation)
    then some stale_base
    else if state_eq guest.state idle
        && leb policy.hot.idle_ttl_seconds (policy.now - guest.updated_at_unix)
    then some idle_ttl
    else none

-- `max_by` takes the later of two candidates unless the earlier one compares greater: more jobs
-- served, then the lesser name.
abbrev pub outranks : HotGuest → HotGuest → Bool
outranks left right =
    ltb right.jobs_served left.jobs_served
    || ((left.jobs_served == right.jobs_served) && text_lt left.vm_name right.vm_name)

-- The three filters before `max_by`.
abbrev pub is_claimable : ProfileName → HotLane → List Text → HotPolicy → HotGuest → Bool
is_claimable profile lane claimed policy guest =
    is_serving guest profile lane
    && not (contains claimed guest.vm_name)
    && not (is_some (drain_reason guest policy))

unfoldable pub claimable :
    List HotGuest → ProfileName → HotLane → List Text → HotPolicy → Option HotGuest
claimable hot profile lane claimed policy =
    best_by outranks (filter (is_claimable profile lane claimed policy) hot)

unfoldable pub is_pool_expandable : List HotGuest → ℕ → List ProfileName → Bool
is_pool_expandable hot max_hot_vms in_flight =
    ltb (length (filter (λ g. is_holding_machine g.state) hot) + length in_flight) max_hot_vms
