-- ===== src/Core/Allocation/Model.antt =====
-- allocation/model.rs: the durable record of one allocation. The clock is the argument `now`; a
-- method that takes `&mut self` returns the new record.
use flanforge.Base.{
  ℕ, Bool, true, false, not, ◌&&◌, ◌||◌, ◌==◌, Option, none, some, Text, text_eq, is_some,
  if◌then◌else◌, Result, ok, err,
}
use flanforge.Utils.Bounded.{bounded_text}
use flanforge.Core.Names.{ProfileName, VmName, RunnerLabel, RepositoryName}
use flanforge.Core.Source.{
  AllocationId, GuestSize, AllocationMode, regenerate, CloneKind, warm_kind, template_kind,
  CloneSource, AllocationOrigin, cloned, is_hot_reuse, TerminalReason, capacity, RetentionOutcome,
}
use flanforge.Core.Hot.{HotLane, HotRefusal}
use flanforge.Core.Allocation.State.{
  AllocationState, requested, StateTransitionError, can_transition_to,
}

pub record AllocationRequest : Type 0 where
  pub profile : ProfileName
  pub repository : RepositoryName
  pub run_id : ℕ  -- u64
  pub run_attempt : ℕ  -- u32

unfoldable pub is_same_attempt : AllocationRequest → AllocationRequest → Bool
is_same_attempt r other =
    text_eq r.repository other.repository
    && r.run_id == other.run_id
    && r.run_attempt == other.run_attempt
    && text_eq r.profile other.profile

pub record Allocation : Type 0 where
  pub id : AllocationId
  pub request : AllocationRequest
  pub state : AllocationState
  pub vm_name : VmName
  pub runner_label : RunnerLabel
  pub vm_created : Bool
  pub runner_id : Option ℕ
  pub created_at_unix : ℕ
  pub updated_at_unix : ℕ
  pub error : Option Text
  pub mode : AllocationMode
  pub size : Option GuestSize
  pub source : Option CloneSource
  pub origin : AllocationOrigin
  pub hot_lane : Option HotLane
  pub hot_refusal : Option HotRefusal
  pub hot_age_seconds : Option ℕ
  pub warm_generation : Option ℕ
  pub retention : Option RetentionOutcome
  pub terminal_reason : Option TerminalReason

-- `Allocation::new`; the fresh UUID is the argument `id`.
unfoldable pub new_allocation :
    AllocationId
    → ℕ
    → AllocationRequest
    → VmName
    → RunnerLabel
    → AllocationMode
    → GuestSize
    → Allocation
new_allocation id now request vm_name runner_label mode size = record {
  id = id;
  request = request;
  state = requested;
  vm_name = vm_name;
  runner_label = runner_label;
  vm_created = false;
  runner_id = none;
  created_at_unix = now;
  updated_at_unix = now;
  error = none;
  mode = mode;
  size = some size;
  source = none;
  origin = cloned;
  hot_lane = none;
  hot_refusal = none;
  hot_age_seconds = none;
  warm_generation = none;
  retention = none;
  terminal_reason = none;
}

unfoldable pub transition :
    ℕ → AllocationState → Allocation → Result Allocation StateTransitionError
unfolding can_transition_to
transition now state a =
    if not (can_transition_to a.state state)
    then err (record { from = a.state; to = state })
    else ok (record a { state = state; updated_at_unix = now })

unfoldable pub set_runner_id : ℕ → ℕ → Allocation → Allocation
set_runner_id now runner_id a = record a { runner_id = some runner_id; updated_at_unix = now }

unfoldable pub set_vm_created : ℕ → Allocation → Allocation
set_vm_created now a = record a { vm_created = true; updated_at_unix = now }

-- `kind != CloneKind::Warm`
abbrev pub is_warm_kind : CloneKind → Bool
is_warm_kind warm_kind = true
is_warm_kind template_kind = false

unfoldable pub set_error : ℕ → Text → Allocation → Allocation
unfolding bounded_text
set_error now error a = record a { error = some (bounded_text error 512); updated_at_unix = now }

unfoldable pub set_source : ℕ → CloneSource → Allocation → Allocation
set_source now source a = record a {
  warm_generation = if not (is_warm_kind source.kind) then none else a.warm_generation;
  source = some source;
  updated_at_unix = now;
}

unfoldable pub set_clone_source : ℕ → CloneSource → Option ℕ → Allocation → Allocation
set_clone_source now source warm_generation a = record a {
  warm_generation = if is_warm_kind source.kind then warm_generation else none;
  source = some source;
  updated_at_unix = now;
}

abbrev pub or_keep {ℓ} : {A : Type ℓ} → Option A → Option A → Option A
or_keep none old = old
or_keep (some a) old = some a

unfoldable pub set_hot :
    ℕ → Option HotLane → AllocationOrigin → Option CloneSource → Option ℕ → Allocation → Allocation
set_hot now lane origin source age_seconds a = record a {
  source = or_keep source a.source;
  origin = origin;
  hot_lane = lane;
  hot_age_seconds = age_seconds;
  hot_refusal = none;
  updated_at_unix = now;
}

unfoldable pub set_hot_refused : ℕ → HotRefusal → Allocation → Allocation
set_hot_refused now refusal a = record a {
  hot_lane = none;
  hot_refusal = some refusal;
  updated_at_unix = now;
}

unfoldable pub is_hot : Allocation → Bool
unfolding is_hot_reuse
is_hot a = is_some a.hot_lane || is_hot_reuse a.origin

unfoldable pub set_retention : ℕ → RetentionOutcome → Allocation → Allocation
set_retention now outcome a = record a { retention = some outcome; updated_at_unix = now }

unfoldable pub set_capacity_busy : ℕ → Allocation → Allocation
set_capacity_busy now a = record a { terminal_reason = some capacity; updated_at_unix = now }

unfoldable pub is_capacity_busy : Allocation → Bool
is_capacity_busy a = is_some a.terminal_reason

abbrev pub is_regenerate : AllocationMode → Bool
is_regenerate regenerate = true
is_regenerate _ = false

unfoldable pub is_retention_eligible : Allocation → Bool
is_retention_eligible a = is_regenerate a.mode && a.vm_created
