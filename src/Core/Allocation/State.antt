-- ===== src/Core/Allocation/State.antt =====
-- allocation/state.rs: the allocation's states and the transitions that the lifecycle permits.
use flanforge.Base.{ℕ, Bool, true, false, ◌||◌, ◌==◌}

pub data AllocationState : Type 0 where
  requested preparing booting registering waiting_for_job ready : AllocationState
  running cleaning completed failed cancelled : AllocationState

-- The derived `PartialEq` compares discriminants.
abbrev pub discriminant : AllocationState → ℕ
discriminant requested = 0
discriminant preparing = 1
discriminant booting = 2
discriminant registering = 3
discriminant waiting_for_job = 4
discriminant ready = 5
discriminant running = 6
discriminant cleaning = 7
discriminant completed = 8
discriminant failed = 9
discriminant cancelled = 10

abbrev pub state_eq : AllocationState → AllocationState → Bool
state_eq s t = discriminant s == discriminant t

unfoldable pub is_terminal : AllocationState → Bool
is_terminal completed = true
is_terminal failed = true
is_terminal cancelled = true
is_terminal _ = false

-- The `match self` of `can_transition_to`.
abbrev next_of : AllocationState → AllocationState → Bool
next_of requested preparing = true
next_of requested cleaning = true
next_of preparing booting = true
next_of preparing registering = true
next_of preparing cleaning = true
next_of booting registering = true
next_of booting cleaning = true
next_of registering waiting_for_job = true
next_of registering cleaning = true
next_of waiting_for_job ready = true
next_of waiting_for_job running = true
next_of waiting_for_job cleaning = true
next_of ready running = true
next_of ready cleaning = true
next_of running cleaning = true
next_of cleaning completed = true
next_of cleaning failed = true
next_of cleaning cancelled = true
next_of _ _ = false

unfoldable pub can_transition_to : AllocationState → AllocationState → Bool
can_transition_to s next = state_eq s next || next_of s next

pub record StateTransitionError : Type 0 where
  pub from : AllocationState
  pub to : AllocationState
