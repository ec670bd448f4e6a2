-- ===== src/Manager/Admission/Examples.antt =====
-- Admission at a concrete host: one active allocation, one idle pool machine, a three-slot limit.
use flanforge.Base.{
  In, codes, ◌≡◌, refl, ◌≤◌, ◌↔◌, some, List, [], ◌∷◌, ok, arith, contains, text_eq, filter,
  filter_map, fold, any, find,
}
use mathlib.Core.Option.{some-injective}
use flanforge.Core.Source.{hot_vm_name}
use flanforge.Core.Hot.{is_holding_machine}
use flanforge.Core.Allocation.{is_terminal}
use flanforge.Core.Config.{RuntimeConfig}
use flanforge.Manager.Model.{Entry}
use flanforge.Manager.Admission.{ensure_capacity, size_of_profile}
use flanforge.Manager.Admission.Charges.{InRange, slots_taken, HasBudget}
use flanforge.Manager.Admission.Bounds.{ensure_capacity_iff}
use flanforge.Core.Config.Limits.{ensure_host_budget_valid}
use flanforge.Manager.Admission.Configured.{ensure_host_budget_valid-Admits}
use flanforge.Samples.{
  ios_profile, host_config, small, idle_guest, pool_machine, fresh_allocation, entry_of,
}

abbrev one_active : List Entry
one_active = entry_of fresh_allocation ∷ []

-- Two slots are taken, and the third is free; 2 + 2 + 2 processors fit on eight.
one_more_fits :
    ensure_capacity one_active host_config small (pool_machine ∷ []) (idle_guest ∷ []) ≡ ok tt
unfolding ensure_capacity flanforge.Manager.Admission.foreign_running
    flanforge.Manager.Admission.is_owned_name flanforge.Manager.Admission.active_allocations
    flanforge.Manager.Admission.hot_names flanforge.Manager.Admission.committed_capacity
    flanforge.Manager.Admission.charged_size flanforge.Manager.Admission.hot_capacity
    flanforge.Manager.Admission.foreign_capacity flanforge.Manager.Admission.orphan_capacity
    flanforge.Manager.Admission.ensure_budget flanforge.Manager.Admission.largest_profile_size
    flanforge.Manager.Admission.orphans flanforge.Manager.Admission.profile_size filter filter_map
    contains text_eq fold find any is_terminal flanforge.Core.Hot.is_terminal is_holding_machine
    hot_vm_name flanforge.Core.Config.get_profile
one_more_fits = refl

host_config-InRange : InRange host_config.runtime
host_config-InRange = record {
  slots_u8 = omega arith;
  cpu_u8 = λ c e. omega (arith, some-injective 8 c e);
  memory_u32 = λ m e. omega (arith, some-injective 16384 m e);
  storage_u64 = λ s e. omega (arith, some-injective 200000 s e);
}

ensure_capacity_iff_example :
    (ensure_capacity one_active host_config small (pool_machine ∷ []) (idle_guest ∷ []) ≡ ok tt)
    ↔ (slots_taken one_active (pool_machine ∷ []) (idle_guest ∷ []) ≤ 3)
      × HasBudget
          (some 8)
          (some 16384)
          one_active
          host_config
          small
          (pool_machine ∷ [])
          (idle_guest ∷ [])
unfolding filter_map flanforge.Manager.Admission.active_allocations filter is_terminal
    flanforge.Manager.Admission.charged_size flanforge.Manager.Admission.orphans
    flanforge.Manager.Admission.is_owned_name contains text_eq flanforge.Manager.Admission.hot_names
    is_holding_machine hot_vm_name
ensure_capacity_iff_example =
    ensure_capacity_iff one_active host_config small (pool_machine ∷ []) (idle_guest ∷ [])
      host_config-InRange (omega arith, (omega arith, tt))

budget_is_valid : ensure_host_budget_valid host_config ≡ ok tt
unfolding ensure_host_budget_valid
budget_is_valid = refl

ensure_host_budget_valid-Admits_example :
    ensure_capacity [] host_config (size_of_profile ios_profile) [] [] ≡ ok tt
ensure_host_budget_valid-Admits_example =
    ensure_host_budget_valid-Admits host_config (codes "ios") ios_profile budget_is_valid
      (omega arith) host_config-InRange (In.here refl)
