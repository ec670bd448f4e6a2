-- ===== src/Manager/Admission/Bounds.antt =====
-- `ensure_capacity` of admission/capacity.rs against its specification in Charges.
use flanforge.Base.{
  ℕ, ◌+◌, ◌≤◌, ◌<◌, ◌≡◌, refl, ◌∙◌, sym, length-map, min, ◌↔◌, false, ◌&&◌, ltb, ◌==◌, Option, none,
  some, List, ◌∷◌, ◌++◌, map, length, any, filter, filter_map, if◌then◌else◌, Result, ok, err,
  arith, All, u8_max, u32_max, u32_mod, u64_max, length-filter_map-le, length-filter_mono, Text,
  find, All-append, refuse_if->>_iff,
}
use flanforge.Core.Source.{GuestSize}
use flanforge.Core.Hot.{HotGuest}
use flanforge.Core.Allocation.{Allocation}
use flanforge.Core.Config.{Config}
use flanforge.Manager.Model.{HostMachine, slots, serialized, ManagerError, busy, Entry, allocations}
use flanforge.Manager.Admission.{
  active_allocations, hot_names, foreign_running, foreign_capacity, is_foreign, committed_capacity,
  charged_size, orphans, orphan_capacity, is_pooled, hot_capacity, ensure_budget, ensure_capacity,
  check_budget, first_id, is_stray, is_owned, vm_names, saturating_sum, no_capacity, left_under,
}
use flanforge.Manager.Admission.Sums.{
  total, total-append_four, total_bounded, Totals, fold-charge, fold-map, fold-charge_foreign,
  is_unsized, Commits, fold-commit, fold-commit_active,
}
use flanforge.Manager.Admission.Charges.{InRange, charged_sizes, slots_taken, HasBudget}
use flanforge.Manager.Admission.Budget.{ensure_budget_iff}

committed-Commits :
    (active : List Allocation) (config : Config)
    → total (λ s. s.cpu_count) (filter_map (charged_size config) active) < u32_mod
    → let sizes = filter_map (charged_size config) active in
      Commits
        (committed_capacity active config)
        (length active)
        (total (λ s. s.cpu_count) sizes)
        (total (λ s. s.memory_mb) sizes)
        (total (λ s. s.storage_mb) sizes)
unfolding committed_capacity
committed-Commits active config fits =
    fold-commit (length active) (filter_map (charged_size config) active) fits

hot-Totals :
    (hot : List HotGuest) (active : List Allocation) (pool : List Text)
    → Totals
        (hot_capacity hot active pool)
        (map (λ (g : HotGuest). g.size) (filter (is_pooled active pool) hot))
unfolding hot_capacity
hot-Totals hot active pool =
    let guests = filter (is_pooled active pool) hot in
    rw (fold-map guests no_capacity) (fold-charge (map (λ (g : HotGuest). g.size) guests))

foreign-Totals :
    (entries : List Entry) (active : List Allocation) (machines : List HostMachine)
    (pool : List Text)
    → let strangers = filter (is_foreign entries active pool) machines in
      Totals
        (foreign_capacity entries active machines pool).0
        (filter_map (λ (m : HostMachine). m.size) strangers)
      × ((foreign_capacity entries active machines pool).1 ≡ any is_unsized strangers)
unfolding foreign_capacity
foreign-Totals entries active machines pool =
    let strangers = filter (is_foreign entries active pool) machines in
    rw (fold-charge_foreign strangers no_capacity false)
      (fold-charge (filter_map (λ (m : HostMachine). m.size) strangers), refl)

pub active-committed :
    (active : List Allocation) (config : Config)
    → (committed_capacity active config).active ≡ length active
unfolding committed_capacity
active-committed active config =
    fold-commit_active (filter_map (charged_size config) active)
      (record no_capacity { active = length active })

-- An orphan is a stray machine, and a stray machine holds a slot.
length-orphans-le :
    (entries : List Entry) (active : List Allocation) (machines : List HostMachine)
    (pool : List Text)
    → length (orphans entries active machines pool) ≤ foreign_running active machines pool
unfolding orphans foreign_running
length-orphans-le entries active machines pool = omega (
  arith,
  length-filter_map-le (λ (m : HostMachine). find (left_under m.name) (allocations entries))
      (filter (λ m. is_stray (vm_names active) pool m && is_owned m.ownership) machines),
  length-filter_mono (λ m. is_stray (vm_names active) pool m && is_owned m.ownership)
      (is_stray (vm_names active) pool) (λ m h. ground arith) machines,
)

sums_exact :
    (n : ℕ) (sizes : List GuestSize)
    → length sizes ≤ n
    → n ≤ u8_max
    → All (λ s. s.cpu_count ≤ u8_max) sizes
    → total (λ s. s.cpu_count) sizes < u32_mod
sums_exact n sizes h k all_u8 = omega (arith, total_bounded (λ s. s.cpu_count) u8_max sizes all_u8)

-- The sums of the four groups, as `ensure_budget` meets them.
module _ (entries : List Entry) (config : Config) (requested : GuestSize)
    (machines : List HostMachine) (hot : List HotGuest) where
  sums_meet :
      All (λ s. s.cpu_count ≤ u8_max) (charged_sizes entries config machines hot)
      → slots_taken entries machines hot ≤ u8_max
      → let active = active_allocations entries in
        let pool = hot_names hot machines in
        let committed = committed_capacity active config in
        let orphaned = orphan_capacity entries active machines config pool in
        let foreign = foreign_capacity entries active machines pool in
        let pooled = hot_capacity hot active pool in
        let sizes = requested ∷ charged_sizes entries config machines hot in
        (saturating_sum u32_max committed.cpu_count orphaned.cpu_count foreign.0.cpu_count
            pooled.cpu_count requested.cpu_count
          ≡ min (total (λ s. s.cpu_count) sizes) u32_max)
        × (saturating_sum u32_max committed.memory_mb orphaned.memory_mb foreign.0.memory_mb
              pooled.memory_mb requested.memory_mb
            ≡ min (total (λ s. s.memory_mb) sizes) u32_max)
        × (saturating_sum u64_max committed.storage_mb orphaned.storage_mb foreign.0.storage_mb
              pooled.storage_mb requested.storage_mb
            ≡ min (total (λ s. s.storage_mb) sizes) u64_max)
  unfolding orphan_capacity
  sums_meet all_u8 taken =
      let active = active_allocations entries in
      let pool = hot_names hot machines in
      let left = orphans entries active machines pool in
      let xs = filter_map (charged_size config) active in
      let os = filter_map (charged_size config) left in
      let fs =
        filter_map (λ (m : HostMachine). m.size)
          (filter (is_foreign entries active pool) machines) in
      let ps = map (λ (g : HotGuest). g.size) (filter (is_pooled active pool) hot) in
      let u8 : GuestSize → Type 0 = λ s. s.cpu_count ≤ u8_max in
      let (xs_u8, rest_u8) = All-append u8 xs (os ++ (fs ++ ps)) all_u8 in
      let (os_u8, rest) = All-append u8 os (fs ++ ps) rest_u8 in
      let xs_fit =
        sums_exact 255 xs (omega (arith, length-filter_map-le (charged_size config) active))
          (omega arith) xs_u8 in
      let os_fit =
        sums_exact 255 os
          (omega (
            arith,
            length-filter_map-le (charged_size config) left,
            length-orphans-le entries active machines pool,
          ))
          (omega arith) os_u8 in
      let c = committed-Commits active config xs_fit in
      let o = committed-Commits left config os_fit in
      let f = (foreign-Totals entries active machines pool).0 in
      let p = hot-Totals hot active pool in
      (
        omega (arith, total-append_four (λ s. s.cpu_count) xs os fs ps),
        omega (arith, total-append_four (λ s. s.memory_mb) xs os fs ps),
        omega (arith, total-append_four (λ s. s.storage_mb) xs os fs ps),
      )

  abbrev BudgetTests : Option ℕ → Option ℕ → Result (Unit {0}) ManagerError
  BudgetTests b m =
      let active = active_allocations entries in
      let pool = hot_names hot machines in
      let holder = first_id active in
      let committed = committed_capacity active config in
      check_budget b m
        (λ cpu memory.
          ensure_budget config cpu memory holder committed
            (orphan_capacity entries active machines config pool)
            (foreign_capacity entries active machines pool) (hot_capacity hot active pool)
            requested)
        (if committed.active == 0 then ok tt else err (busy serialized holder))

  unset_iff : (BudgetTests none none ≡ ok tt) ↔ (length (active_allocations entries) ≡ 0)
  unset_iff =
      let e = active-committed (active_allocations entries) config in
      (λ h. ground arith, λ h. ground arith)

  BudgetTests_iff :
      (b m : Option ℕ)
      → config.runtime.host_cpu_count ≡ b
      → config.runtime.host_memory_mb ≡ m
      → InRange config.runtime
      → All (λ s. s.cpu_count ≤ u8_max) (charged_sizes entries config machines hot)
      → slots_taken entries machines hot ≤ u8_max
      → (BudgetTests b m ≡ ok tt) ↔ HasBudget b m entries config requested machines hot
  BudgetTests_iff none m eb em range all_u8 taken = unset_iff
  BudgetTests_iff (some c) none eb em range all_u8 taken = unset_iff
  BudgetTests_iff (some cpu) (some memory) eb em range all_u8 taken =
      let active = active_allocations entries in
      let pool = hot_names hot machines in
      let unknown = (foreign-Totals entries active machines pool).1 in
      let sizes = requested ∷ charged_sizes entries config machines hot in
      let (ec, emem, es) = sums_meet all_u8 taken in
      let iff =
        ensure_budget_iff config cpu memory (first_id active) (committed_capacity active config)
          (orphan_capacity entries active machines config pool) (hot_capacity hot active pool)
          (foreign_capacity entries active machines pool) requested (total (λ s. s.cpu_count) sizes)
          (total (λ s. s.memory_mb) sizes) (total (λ s. s.storage_mb) sizes) (range.cpu_u8 cpu eb)
          (range.memory_u32 memory em) range.storage_u64 ec emem es in
      (
        λ h. let (u, c, m, s) = iff.0 h in (sym unknown ∙ u, (c, m, s)),
        λ h. iff.1 (unknown ∙ h.0, h.1.0, h.1.1, h.1.2),
      )

-- `ensure_capacity` admits a request exactly when the running guests, with the one to come, stay
-- within the slot limit, and either both budgets are set, every foreign machine's size is known and
-- all the guests' sizes add up to no more than the host has (storage with its reserve), or a budget
-- is unset and no allocation is active. The sums are those of natural numbers: nothing that the
-- saturating and wrapping sums of the code hide changes the answer, for limits within their types
-- and memory and storage budgets below the greatest value of theirs.
pub ensure_capacity_iff :
    (entries : List Entry) (config : Config) (requested : GuestSize) (machines : List HostMachine)
    (hot : List HotGuest)
    → InRange config.runtime
    → All (λ s. s.cpu_count ≤ u8_max) (charged_sizes entries config machines hot)
    → (ensure_capacity entries config requested machines hot ≡ ok tt)
      ↔ (slots_taken entries machines hot ≤ config.runtime.max_running_vms)
        × HasBudget config.runtime.host_cpu_count config.runtime.host_memory_mb entries config
            requested machines hot
unfolding ensure_capacity
ensure_capacity_iff entries config requested machines hot range all_u8 =
    let active = active_allocations entries in
    let pool = hot_names hot machines in
    let taken = slots_taken entries machines hot in
    let used =
      foreign_running active machines pool
      + (committed_capacity active config).active
      + (hot_capacity hot active pool).active
      + 1 in
    let same : used ≡ taken = omega (
      arith,
      active-committed active config,
      hot-Totals hot active pool,
      length-map (filter (is_pooled active pool) hot) (λ (g : HotGuest). g.size),
    ) in
    let chain =
      refuse_if->>_iff (ltb config.runtime.max_running_vms used) (busy slots (first_id active)) (
        BudgetTests entries config requested machines hot config.runtime.host_cpu_count
          config.runtime.host_memory_mb) in
    let tests =
      BudgetTests_iff entries config requested machines hot config.runtime.host_cpu_count
        config.runtime.host_memory_mb refl refl range all_u8 in
    (
      λ h.
          let (room, rest) = chain.0 h in
          let fits : taken ≤ config.runtime.max_running_vms = ground arith in
          (fits, (tests (omega arith)).0 rest),
      λ h. chain.1 (ground arith, (tests (omega arith)).1 h.1),
    )
