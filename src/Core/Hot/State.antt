-- ===== src/Core/Hot/State.antt =====
-- hot/state.rs: the machine's lifecycle.
use flanforge.Base.{ℕ, Bool, true, false, not, ◌==◌, ◌||◌}

pub data HotState : Type 0 where
  provisioning idle claimed recycling draining evicted : HotState

-- The derived `PartialEq` compares discriminants.
abbrev pub discriminant : HotState → ℕ
discriminant provisioning = 0
discriminant idle = 1
discriminant claimed = 2
discriminant recycling = 3
discriminant draining = 4
discriminant evicted = 5

abbrev pub state_eq : HotState → HotState → Bool
state_eq s t = discriminant s == discriminant t

unfoldable pub is_terminal : HotState → Bool
is_terminal evicted = true
is_terminal _ = false

unfoldable pub is_holding_machine : HotState → Bool
unfolding is_terminal
is_holding_machine s = not (is_terminal s)

unfoldable pub is_claim_bearing : HotState → Bool
is_claim_bearing claimed = true
is_claim_bearing _ = false

abbrev next_of : HotState → HotState → Bool
next_of provisioning idle = true
next_of provisioning evicted = true
next_of idle claimed = true
next_of idle draining = true
next_of idle evicted = true
next_of claimed recycling = true
next_of claimed draining = true
next_of recycling idle = true
next_of recycling evicted = true
next_of draining evicted = true
next_of _ _ = false

unfoldable pub can_transition_to : HotState → HotState → Bool
can_transition_to s next = state_eq s next || next_of s next

pub data HotDrainReason : Type 0 where
  evict_requested capacity_pressure max_lifetime max_jobs max_idle idle_ttl : HotDrainReason
  reset_failed stale_base config_reloaded machine_gone unverifiable : HotDrainReason
  operator_request : HotDrainReason

pub record HotTransitionError : Type 0 where
  pub from : HotState
  pub to : HotState
