-- ===== src/Manager/Model.antt =====
-- worker/model.rs, error.rs and the `Entry` of service.rs: what the manager's parts share. The
-- entries' hash map is the list of its values in iteration order.
use flanforge.Base.{ℕ, Bool, Option, Text, List, map}
use flanforge.Core.Source.{GuestSize, AllocationId}
use flanforge.Core.Claims.{AuthorizationError}
use flanforge.Core.Allocation.{Allocation, StateTransitionError}

pub data MachineState : Type 0 where
  running_machine stopped_machine other_machine : MachineState

pub data MachineOwnership : Type 0 where
  owned_machine foreign_machine unknown_machine : MachineOwnership

pub record HostMachine : Type 0 where
  pub name : Text
  pub state : MachineState
  pub age_seconds : Option ℕ
  pub size : Option GuestSize
  pub ownership : MachineOwnership

pub data BusyReason : Type 0 where
  serialized slots budget probe_failed regenerating : BusyReason

-- What the other components raise is kept as one constructor each.
pub data ManagerError : Type 0 where
  unknown_profile : Text → ManagerError
  busy : BusyReason → Option AllocationId → ManagerError
  not_found : AllocationId → ManagerError
  invalid_vm_name : ManagerError
  invalid_runner_label : ManagerError
  request_exceeds_profile : ManagerError
  invalid_request : ManagerError
  shutting_down : ManagerError
  invalid_runner_id : ManagerError
  authorization : AuthorizationError → ManagerError
  transition_error : StateTransitionError → ManagerError
  store_error : ManagerError
  unknown_hot_guest : Text → ManagerError
  duplicate_allocation : AllocationId → ManagerError

pub record Entry : Type 0 where
  pub allocation : Allocation
  pub is_cancelled : Bool
  pub is_supervised : Bool
  pub is_terminalizing : Bool

-- `entries.values().map(|entry| &entry.allocation)`
abbrev pub allocations : List Entry → List Allocation
allocations = map λ e. e.allocation
