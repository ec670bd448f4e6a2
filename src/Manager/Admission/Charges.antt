-- ===== src/Manager/Admission/Charges.antt =====
-- What a host's guests take of its limits, counted in natural numbers: the specification that
-- `ensure_capacity` is compared with.
use flanforge.Base.{
  ℕ, ◌+◌, ◌≤◌, ◌<◌, ◌≡◌, false, Option, none, some, List, ◌∷◌, ◌++◌, map, length, any, filter,
  filter_map, unwrap_or, u8_max, u32_max, u64_max,
}
use flanforge.Core.Source.{GuestSize}
use flanforge.Core.Hot.{HotGuest}
use flanforge.Core.Config.{Config, RuntimeConfig, min_storage_free_mb}
use flanforge.Manager.Model.{HostMachine, Entry}
use flanforge.Manager.Admission.{
  active_allocations, hot_names, foreign_running, is_foreign, charged_size, orphans, is_pooled,
}
use flanforge.Manager.Admission.Sums.{total, is_unsized}

-- The storage limit, where the configuration sets one.
abbrev pub StorageFits : Option ℕ → ℕ → Type 0
StorageFits none storage = Unit
StorageFits (some host) storage = storage ≤ host

-- The fields' types: `u8` limits, and budgets below the values at which a saturated sum is blind.
pub record InRange (r : RuntimeConfig) : Type 0 where
  pub slots_u8 : r.max_running_vms ≤ u8_max
  pub cpu_u8 : (c : ℕ) → r.host_cpu_count ≡ some c → c ≤ u8_max
  pub memory_u32 : (m : ℕ) → r.host_memory_mb ≡ some m → m < u32_max
  pub storage_u64 : (s : ℕ) → r.host_storage_mb ≡ some s → s < u64_max

-- Every guest that the budget counts: the active allocations', the surviving guests' of terminal
-- ones, the foreign machines' and the pool's.
abbrev pub charged_sizes : List Entry → Config → List HostMachine → List HotGuest → List GuestSize
charged_sizes entries config machines hot =
    let active = active_allocations entries in
    let pool = hot_names hot machines in
    filter_map (charged_size config) active
    ++ (filter_map (charged_size config) (orphans entries active machines pool)
        ++ (filter_map (λ (m : HostMachine). m.size)
              (filter (is_foreign entries active pool) machines)
            ++ map (λ (g : HotGuest). g.size) (filter (is_pooled active pool) hot)))

-- The running guests that hold a slot, the requested one included.
abbrev pub slots_taken : List Entry → List HostMachine → List HotGuest → ℕ
slots_taken entries machines hot =
    let active = active_allocations entries in
    let pool = hot_names hot machines in
    foreign_running active machines pool
    + length active
    + length (filter (is_pooled active pool) hot)
    + 1

-- The three sums, the requested size included, under the host's budget.
abbrev pub SizesFit : Config → ℕ → ℕ → List GuestSize → Type 0
SizesFit config cpu memory sizes =
    (total (λ s. s.cpu_count) sizes ≤ cpu)
    × (total (λ s. s.memory_mb) sizes ≤ memory)
    × StorageFits config.runtime.host_storage_mb
        (total (λ s. s.storage_mb) sizes + unwrap_or (min_storage_free_mb config.runtime.backend) 0)

-- With both budgets set the sizes have to fit and each foreign machine's size has to be known;
-- with either unset no allocation may be active.
abbrev pub HasBudget :
    Option ℕ
    → Option ℕ
    → List Entry
    → Config
    → GuestSize
    → List HostMachine
    → List HotGuest
    → Type 0
HasBudget (some cpu) (some memory) entries config requested machines hot =
    let active = active_allocations entries in
    (any is_unsized (filter (is_foreign entries active (hot_names hot machines)) machines) ≡ false)
    × SizesFit config cpu memory (requested ∷ charged_sizes entries config machines hot)
HasBudget (some cpu) none entries config requested machines hot =
    length (active_allocations entries) ≡ 0
HasBudget none memory entries config requested machines hot =
    length (active_allocations entries) ≡ 0
