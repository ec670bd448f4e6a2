-- ===== src/Manager/Admission/Budget.antt =====
-- The budget's tests, on the capacities of four groups of guests.
use flanforge.Base.{
  ℕ, ◌+◌, ◌≤◌, ◌<◌, ◌≡◌, min, ◌↔◌, Bool, false, Option, some, unwrap_or, ok, arith, u8_max, u32_max,
  u32_mod, u64_max, Option-cases, inl, inr,
}
use flanforge.Core.Source.{GuestSize, AllocationId}
use flanforge.Core.Config.{Config, min_storage_free_mb}
use flanforge.Manager.Admission.{CommittedCapacity, ensure_budget, saturating_sum}
use flanforge.Manager.Admission.Sums.{Charges, Commits}
use flanforge.Manager.Admission.Charges.{StorageFits}

pub Commits→Charges :
    (c : CommittedCapacity) (n cpu memory storage : ℕ)
    → cpu < u32_mod
    → Commits c n cpu memory storage
    → Charges c n cpu memory storage
Commits→Charges c n cpu memory storage fits h = omega arith

-- The budget's tests, on capacities that cap the sums `a`, `b`, `d`, `e` of four groups.
module _ (config : Config) (cpu memory : ℕ) (holder : Option AllocationId)
    (committed orphaned pooled : CommittedCapacity) (foreign : CommittedCapacity × Bool)
    (size : GuestSize) where
  abbrev pub BudgetFits : ℕ → ℕ → ℕ → Type 0
  BudgetFits c m s =
      (foreign.1 ≡ false)
      × (c ≤ cpu)
      × (m ≤ memory)
      × StorageFits config.runtime.host_storage_mb
          (s + unwrap_or (min_storage_free_mb config.runtime.backend) 0)

  pub ensure_budget_iff :
      (c m s : ℕ)
      → cpu ≤ u8_max
      → memory < u32_max
      → ((host : ℕ) → config.runtime.host_storage_mb ≡ some host → host < u64_max)
      → saturating_sum u32_max committed.cpu_count orphaned.cpu_count foreign.0.cpu_count
          pooled.cpu_count size.cpu_count
        ≡ min c u32_max
      → saturating_sum u32_max committed.memory_mb orphaned.memory_mb foreign.0.memory_mb
          pooled.memory_mb size.memory_mb
        ≡ min m u32_max
      → saturating_sum u64_max committed.storage_mb orphaned.storage_mb foreign.0.storage_mb
          pooled.storage_mb size.storage_mb
        ≡ min s u64_max
      → (ensure_budget config cpu memory holder committed orphaned foreign pooled size ≡ ok tt)
        ↔ BudgetFits c m s
  unfolding ensure_budget
  ensure_budget_iff c m s hc hm hs ec em es =
      rw (ec, em, es)
        (elim (Option-cases config.runtime.host_storage_mb) [
          | inl e ↦ rw e (λ h. ground arith, λ h. ground arith)
          | inr (host, e) ↦
              let lt : host < u64_max = hs host e in rw e (λ h. ground arith, λ h. ground arith)
        ])
