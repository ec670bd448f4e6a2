-- ===== src/Manager/Pool/Examples.antt =====
-- The pool's theorems at concrete machines and entries.
use flanforge.Base.{
  ◌≡◌, refl, ◌≤◌, ◌<◌, ◌-◌, ◌↔◌, ◌⊎◌, inl, inr, none, some, true, false, List, [], ◌∷◌, In, Text,
  codes, contains, arith,
}
use flanforge.Core.Source.{AllocationOrigin}
use flanforge.Core.Hot.{HotGuest, HotLane, HotState, evicted, idle, lane_eq}
use flanforge.Manager.Pool.Select.{
  HotPolicy, drain_reason, claimable, is_claimable, is_pool_expandable,
}
use flanforge.Manager.Pool.Claim.{HotContext, reused, plan_hot_claim, live_hot_names}
use flanforge.Manager.Pool.Exclusion.{Distinct, Steps, Step, Steps-Distinct}
use flanforge.Samples.{idle_guest, claimed_guest, hot_config, fresh_allocation, reusing, entry_of}

abbrev at_2500 : HotPolicy
at_2500 = record {
  hot = hot_config;
  fingerprint = some (codes "0a1b");
  warm_generation = none;
  now = 2500;
}

takes_idle :
    claimable (claimed_guest ∷ idle_guest ∷ []) (codes "ios") HotLane.protected_lane [] at_2500
    ≡ some idle_guest
unfolding claimable drain_reason flanforge.Base.best_by flanforge.Base.filter
    flanforge.Core.Hot.is_serving flanforge.Base.text_eq contains flanforge.Core.Hot.is_terminal
    flanforge.Manager.Pool.Select.is_base_changed
takes_idle = refl

refuses_claimed_name :
    claimable
      (idle_guest ∷ [])
      (codes "ios")
      HotLane.protected_lane
      (codes "ff-ios-7-1" ∷ [])
      at_2500
    ≡ none
unfolding claimable drain_reason flanforge.Base.best_by flanforge.Base.filter
    flanforge.Core.Hot.is_serving flanforge.Base.text_eq contains
refuses_claimed_name = refl

abbrev context : HotContext
context = record {
  hot = hot_config;
  name = codes "ios";
  lane = HotLane.protected_lane;
  fingerprint = some (codes "0a1b");
  warm_generation = none;
  max_hot_vms = 2;
  age_seconds = none;
}

claims_idle :
    plan_hot_claim 2500 [] (idle_guest ∷ []) context 9
    ≡ some (
        reused
          (record claimed_guest { updated_at_unix = 2500 })
          (AllocationOrigin.hot_reuse (codes "ff-ios-7-1") 1 1000)
          idle_guest.source)
unfolding plan_hot_claim claimable drain_reason flanforge.Base.best_by flanforge.Base.filter
    flanforge.Core.Hot.is_serving flanforge.Base.text_eq contains live_hot_names
    flanforge.Base.filter_map flanforge.Core.Hot.is_terminal
    flanforge.Manager.Pool.Select.is_base_changed
claims_idle = refl

abbrev two_creates : Steps [] (entry_of fresh_allocation ∷ entry_of reusing ∷ [])
two_creates =
    Steps.next
      (Steps.next Steps.here
        (Step.create_claimed 2500 (idle_guest ∷ []) context (entry_of reusing) _ claims_idle refl))
      (Step.create_plain (entry_of fresh_allocation) refl)

Steps-Distinct_example :
    Distinct (live_hot_names (entry_of fresh_allocation ∷ entry_of reusing ∷ []))
unfolding live_hot_names flanforge.Base.filter_map flanforge.Base.filter
Steps-Distinct_example = Steps-Distinct two_creates tt
