-- ===== src/Manager/Admission.antt =====
-- admission/{capacity,hot,storage}.rs: whether the host has room for one more guest.
use flanforge.Base.{
  ℕ, ◌+◌, ◌%◌, max, min, Bool, true, false, not, ◌&&◌, ◌||◌, ◌==◌, ltb, Option, none, some, Text,
  text_eq, List, [], ◌∷◌, ◌++◌, map, length, any, find, filter, filter_map, fold, contains, is_some,
  is_some_and, unwrap_or, if◌then◌else◌, Result, ok, err, refuse_if, ◌>>◌, ◌>>=◌, saturating_add,
  u32_max, u32_mod, u64_max,
}
use mathlib.Core.Option
use flanforge.Core.Names.{ProfileName}
use flanforge.Core.Source.{AllocationId, AllocationMode, GuestSize, max_storage_mb, hot_vm_name}
use flanforge.Core.Hot
use flanforge.Core.Hot.{HotGuest, HotState, is_holding_machine}
use flanforge.Core.Allocation.{Allocation, is_terminal, is_regenerate}
use flanforge.Core.Config.{Config, Profile, get_profile, min_storage_free_mb, is_hot_enabled}
use flanforge.Manager.Model.{
  HostMachine, MachineState, running_machine, MachineOwnership, owned_machine, BusyReason,
  serialized, slots, budget, probe_failed, regenerating, ManagerError, busy, Entry, allocations,
}
pub mod Sums
pub mod Producers
pub mod ProducerExamples
pub mod Charges
pub mod Budget
pub mod Bounds
pub mod Configured
pub mod Examples

pub record CommittedCapacity : Type 0 where
  pub active : ℕ
  pub cpu_count : ℕ  -- u32
  pub memory_mb : ℕ  -- u32
  pub storage_mb : ℕ  -- u64

-- `CommittedCapacity::default()`
abbrev pub no_capacity : CommittedCapacity
no_capacity = record { active = 0; cpu_count = 0; memory_mb = 0; storage_mb = 0 }

abbrev pub is_running : MachineState → Bool
is_running running_machine = true
is_running _ = false

abbrev pub is_owned : MachineOwnership → Bool
is_owned owned_machine = true
is_owned _ = false

unfoldable pub is_owned_name : HostMachine → List Text → Bool
is_owned_name machine names = is_owned machine.ownership && contains names machine.name

abbrev pub produces : ProfileName → Allocation → Bool
produces profile a =
    not (is_terminal a.state) && is_regenerate a.mode && text_eq a.request.profile profile

unfoldable pub ensure_sole_producer :
    List Entry → ProfileName → AllocationMode → Result (Unit {0}) ManagerError
ensure_sole_producer entries profile mode =
    if not (is_regenerate mode)
    then ok tt
    else elim (find (produces profile) (allocations entries)) [
      | some holder ↦ err (busy regenerating (some holder.id))
      | none ↦ ok tt
    ]

unfoldable pub active_allocations : List Entry → List Allocation
active_allocations entries = filter (λ a. not (is_terminal a.state)) (allocations entries)

-- `active.iter().map(|allocation| allocation.vm_name.as_str()).collect::<BTreeSet<_>>()`
abbrev pub vm_names : List Allocation → List Text
vm_names = map λ a. a.vm_name

unfoldable pub hot_names : List HotGuest → List HostMachine → List Text
hot_names hot machines =
    let owned =
      map (λ (m : HostMachine). m.name)
        (filter (λ m. is_running m.state && is_owned m.ownership) machines) in
    filter (contains owned)
      (map (λ (g : HotGuest). g.vm_name) (filter (λ g. is_holding_machine g.state) hot))

-- The three filters that single out a machine which no live entry and no pool record explains.
abbrev pub is_stray : List Text → List Text → HostMachine → Bool
is_stray owned pool m =
    is_running m.state && not (is_owned_name m owned) && not (contains pool m.name)

unfoldable pub foreign_running : List Allocation → List HostMachine → List Text → ℕ
foreign_running active machines pool = length (filter (is_stray (vm_names active) pool) machines)

-- One more guest of a known size; the running total saturates at the type's bound.
abbrev pub charge : CommittedCapacity → GuestSize → CommittedCapacity
charge total size = record {
  active = total.active + 1;
  cpu_count = saturating_add u32_max total.cpu_count size.cpu_count;
  memory_mb = saturating_add u32_max total.memory_mb size.memory_mb;
  storage_mb = saturating_add u64_max total.storage_mb size.storage_mb;
}

-- A terminal allocation whose guest was made: `orphan_capacity` charges what survives of it.
abbrev pub left_guest : Allocation → Bool
left_guest a = is_terminal a.state && a.vm_created

-- A running machine that neither an entry nor the pool explains.
abbrev pub is_foreign : List Entry → List Allocation → List Text → HostMachine → Bool
is_foreign entries active pool m =
    is_running m.state
    && not (is_owned_name m (vm_names active))
    && not (is_owned_name m (vm_names (filter left_guest (allocations entries))))
    && not (contains pool m.name)

-- The body of the loop over the foreign machines: the capacity, and whether a size is unknown.
abbrev pub charge_foreign : CommittedCapacity × Bool → HostMachine → CommittedCapacity × Bool
charge_foreign acc m = elim m.size [ some size ↦ (charge acc.0 size, acc.1) | none ↦ (acc.0, true) ]

unfoldable pub foreign_capacity :
    List Entry → List Allocation → List HostMachine → List Text → CommittedCapacity × Bool
foreign_capacity entries active machines pool =
    fold charge_foreign (no_capacity, false) (filter (is_foreign entries active pool) machines)

abbrev pub size_of_profile : Profile → GuestSize
size_of_profile p = record {
  cpu_count = p.cpu_count;
  memory_mb = p.memory_mb;
  storage_mb = p.storage_mb;
}

unfoldable pub profile_size : Config → ProfileName → Option GuestSize
profile_size config name = Option.map size_of_profile (get_profile name config.profiles)

abbrev pub widen : GuestSize → ProfileName × Profile → GuestSize
widen largest entry = record {
  cpu_count = max largest.cpu_count entry.1.cpu_count;
  memory_mb = max largest.memory_mb entry.1.memory_mb;
  storage_mb = max largest.storage_mb entry.1.storage_mb;
}

abbrev largest_of : List (ProfileName × Profile) → Option GuestSize
largest_of [] = none
largest_of ((key, first) ∷ rest) = some (fold widen (size_of_profile first) rest)

unfoldable pub largest_profile_size : Config → Option GuestSize
largest_profile_size config = largest_of config.profiles

abbrev pub or_else {ℓ} : {A : Type ℓ} → Option A → Option A → Option A
or_else (some a) b = some a
or_else none b = b

-- What `committed_capacity` charges for one record.
unfoldable pub charged_size : Config → Allocation → Option GuestSize
charged_size config a =
    or_else (or_else a.size (profile_size config a.request.profile)) (largest_profile_size config)

-- The fold's body; the `u32` sum of the processors is the one that is not saturated.
abbrev pub commit : CommittedCapacity → GuestSize → CommittedCapacity
commit total size = record total {
  cpu_count = (total.cpu_count + size.cpu_count) % u32_mod;
  memory_mb = saturating_add u32_max total.memory_mb size.memory_mb;
  storage_mb = saturating_add u64_max total.storage_mb size.storage_mb;
}

unfoldable pub committed_capacity : List Allocation → Config → CommittedCapacity
committed_capacity active config =
    fold commit (record no_capacity { active = length active })
      (filter_map (charged_size config) active)

abbrev pub left_under : Text → Allocation → Bool
left_under name a = is_terminal a.state && a.vm_created && text_eq a.vm_name name

-- The terminal records whose guests still run.
unfoldable pub orphans :
    List Entry → List Allocation → List HostMachine → List Text → List Allocation
orphans entries active machines pool =
    filter_map (λ m. find (left_under m.name) (allocations entries))
      (filter (λ m. is_stray (vm_names active) pool m && is_owned m.ownership) machines)

unfoldable pub orphan_capacity :
    List Entry → List Allocation → List HostMachine → Config → List Text → CommittedCapacity
orphan_capacity entries active machines config pool =
    committed_capacity (orphans entries active machines pool) config

-- Both names that an allocation can hold: the guest that it cloned and the machine it reused.
abbrev pub held_names : List Allocation → List Text
held_names [] = []
held_names (a ∷ rest) = elim (hot_vm_name a.origin) [
  | none ↦ a.vm_name ∷ held_names rest
  | some name ↦ a.vm_name ∷ name ∷ held_names rest
]

abbrev pub is_provisioning : HotState → Bool
is_provisioning s = Hot.state_eq s HotState.provisioning

-- The pool machines that are charged: listed or just handed over, and not an allocation's own.
abbrev pub is_pooled : List Allocation → List Text → HotGuest → Bool
is_pooled active pool g =
    is_holding_machine g.state
    && (contains pool g.vm_name || is_provisioning g.state)
    && not (contains (held_names active) g.vm_name)

unfoldable pub hot_capacity : List HotGuest → List Allocation → List Text → CommittedCapacity
hot_capacity hot active pool =
    fold (λ total g. charge total g.size) no_capacity (filter (is_pooled active pool) hot)

-- The five terms of one dimension of the budget, summed as the source sums them.
abbrev pub saturating_sum : ℕ → ℕ → ℕ → ℕ → ℕ → ℕ → ℕ
saturating_sum bound a b c d e =
    saturating_add bound
      (saturating_add bound (saturating_add bound (saturating_add bound a b) c) d) e

-- The second half of `ensure_capacity`: both budgets are set.
unfoldable pub ensure_budget :
    Config
    → ℕ
    → ℕ
    → Option AllocationId
    → CommittedCapacity
    → CommittedCapacity
    → CommittedCapacity × Bool
    → CommittedCapacity
    → GuestSize
    → Result (Unit {0}) ManagerError
ensure_budget config host_cpu_count host_memory_mb holder committed orphaned foreign pooled size =
    do
      refuse_if foreign.1 (busy budget holder)
      let cpu_count =
          saturating_sum u32_max committed.cpu_count orphaned.cpu_count foreign.0.cpu_count
            pooled.cpu_count size.cpu_count
      let memory_mb =
          saturating_sum u32_max committed.memory_mb orphaned.memory_mb foreign.0.memory_mb
            pooled.memory_mb size.memory_mb
      let storage_mb =
          saturating_sum u64_max committed.storage_mb orphaned.storage_mb foreign.0.storage_mb
            pooled.storage_mb size.storage_mb
      let storage_reserve = unwrap_or (min_storage_free_mb config.runtime.backend) 0
      let reserved_storage_mb = saturating_add u64_max storage_mb storage_reserve
      refuse_if
          (ltb host_cpu_count cpu_count
            || ltb host_memory_mb memory_mb
            || is_some_and config.runtime.host_storage_mb (λ host. ltb host reserved_storage_mb))
          (busy budget holder)

-- The `let ... else`: an unset budget serializes.
abbrev pub check_budget :
    Option ℕ
    → Option ℕ
    → (ℕ → ℕ → Result (Unit {0}) ManagerError)
    → Result (Unit {0}) ManagerError
    → Result (Unit {0}) ManagerError
check_budget (some cpu) (some memory) both unset = both cpu memory
check_budget (some cpu) none both unset = unset
check_budget none memory both unset = unset

abbrev pub first_id : List Allocation → Option AllocationId
first_id [] = none
first_id (a ∷ rest) = some a.id

unfoldable pub ensure_capacity :
    List Entry
    → Config
    → GuestSize
    → List HostMachine
    → List HotGuest
    → Result (Unit {0}) ManagerError
unfolding ensure_budget
ensure_capacity entries config requested machines hot =
    let active = active_allocations entries in
    let holder = first_id active in
    let pool = hot_names hot machines in
    let foreign = foreign_running active machines pool in
    let committed = committed_capacity active config in
    let orphaned = orphan_capacity entries active machines config pool in
    let pooled = hot_capacity hot active pool in
    let strangers = foreign_capacity entries active machines pool in
    refuse_if (ltb config.runtime.max_running_vms (foreign + committed.active + pooled.active + 1))
      (busy slots holder)
    >> check_budget config.runtime.host_cpu_count config.runtime.host_memory_mb
        (λ cpu memory.
          ensure_budget config cpu memory holder committed orphaned strangers pooled requested)
        (if committed.active == 0 then ok tt else err (busy serialized holder))

-- storage.rs: the charged size is floored at the base's virtual size, within the valid ceiling.
unfoldable pub floored : GuestSize → ℕ → GuestSize
floored size base_mb = record size { storage_mb = max size.storage_mb (min base_mb max_storage_mb) }

abbrev is_hot_profile : ProfileName × Profile → Bool
is_hot_profile entry = is_some_and entry.1.hot is_hot_enabled

unfoldable pub is_hot_configured : Config → Bool
unfolding any
is_hot_configured config = ltb 0 config.runtime.max_hot_vms || any is_hot_profile config.profiles

-- `none` is a store that could not be read.
unfoldable pub hot_snapshot : Option (List HotGuest) → Config → Result (List HotGuest) ManagerError
unfolding is_hot_configured
hot_snapshot (some hot) config = ok hot
hot_snapshot none config = if is_hot_configured config then err (busy probe_failed none) else ok []
