-- ===== src/Manager/Admission/Configured.antt =====
-- A configuration whose budget was validated, against the admission that reads it.
use flanforge.Base.{
  ℕ, ◌+◌, ◌≤◌, ◌<◌, ◌≡◌, refl, ap, inl, inr, false, none, some, List, [], ◌∷◌, In, In-cons,
  not-In_nil, ok, arith, Option-cases, Result-cases, ◌⊎◌, length, filter, filter_map, any, u8_max,
  All, ltb, is_some_and, unwrap_or, subst,
}
use flanforge.Core.Names.{ProfileName}
use flanforge.Core.Config.{Config, RuntimeConfig, Profile, min_storage_free_mb}
use flanforge.Core.Config.Limits.{
  ensure_host_budget_valid, check_budget_set, check_sizes, exceeds_reserved_storage, ensure_range,
}
use flanforge.Manager.Admission.{
  ensure_capacity, size_of_profile, active_allocations, orphans, foreign_running,
}
use flanforge.Manager.Admission.Charges.{
  InRange, HasBudget, charged_sizes, slots_taken, StorageFits,
}
use flanforge.Manager.Admission.Bounds.{ensure_capacity_iff}

-- What the budget holds of one profile.
abbrev Fits : RuntimeConfig → ℕ → ℕ → Profile → Type 0
Fits r cpu memory p =
    (p.cpu_count ≤ cpu)
    × (p.memory_mb ≤ memory)
    × (is_some_and r.host_storage_mb (λ host. ltb host p.storage_mb) ≡ false)
    × (exceeds_reserved_storage r p ≡ false)

check_sizes-Fits :
    (r : RuntimeConfig) (cpu memory : ℕ) (ps : List (ProfileName × Profile)) {name : ProfileName}
    {p : Profile}
    → check_sizes r cpu memory ps ≡ ok tt
    → In (name, p) ps
    → Fits r cpu memory p
unfolding check_sizes
check_sizes-Fits r cpu memory [] h i = absurd (not-In_nil _ i)
check_sizes-Fits r cpu memory ((n, q) ∷ ps) {name} {p} h i = elim (In-cons i) [
  | inl e ↦
      let fits : Fits r cpu memory q = ground arith in
      subst (Fits r cpu memory) (ap (λ (x : ProfileName × Profile). x.1) e) fits
  | inr j ↦ check_sizes-Fits r cpu memory ps (ground arith) j
]

-- Whether both budgets are set, and then that every profile's sizes were checked.
set_or_not :
    (config : Config)
    → ensure_host_budget_valid config ≡ ok tt
    → (config.runtime.host_cpu_count ≡ none)
      ⊎ ((cpu : ℕ) × (memory : ℕ) × (config.runtime.host_cpu_count ≡ some cpu)
          × (config.runtime.host_memory_mb ≡ some memory)
          × (check_sizes config.runtime cpu memory config.profiles ≡ ok tt))
unfolding ensure_host_budget_valid check_budget_set ensure_range
set_or_not config h = elim (Option-cases config.runtime.host_cpu_count) [
  | inl e ↦ inl e
  | inr (cpu, c) ↦ elim (Option-cases config.runtime.host_memory_mb) [
    | inl e ↦ absurd (ground arith)
    | inr (memory, m) ↦
        elim (Result-cases (check_sizes config.runtime cpu memory config.profiles)) [
          | inl (_, sizes) ↦ inr (cpu, memory, c, m, sizes)
          | inr (x, e) ↦ absurd (ground arith)
        ]
  ]
]

idle_charges : (config : Config) → All (λ s. s.cpu_count ≤ u8_max) (charged_sizes [] config [] [])
unfolding active_allocations orphans filter filter_map
idle_charges config = tt

idle_slots : slots_taken [] [] [] ≡ 1
unfolding active_allocations foreign_running filter
idle_slots = refl

stores :
    (r : RuntimeConfig) (p : Profile)
    → is_some_and r.host_storage_mb (λ host. ltb host p.storage_mb) ≡ false
    → exceeds_reserved_storage r p ≡ false
    → StorageFits r.host_storage_mb (p.storage_mb + 0 + unwrap_or (min_storage_free_mb r.backend) 0)
stores r p stored reserved = elim (Option-cases r.host_storage_mb) [
  | inl e ↦ rw e tt
  | inr (host, e) ↦ rw e (elim (Option-cases (min_storage_free_mb r.backend)) [
    | inl n ↦ rw n (ground arith)
    | inr (reserve, m) ↦ rw m (ground arith)
  ])
]

idle_budget :
    (config : Config) (cpu memory : ℕ) (p : Profile)
    → config.runtime.host_cpu_count ≡ some cpu
    → config.runtime.host_memory_mb ≡ some memory
    → Fits config.runtime cpu memory p
    → HasBudget (some cpu) (some memory) [] config (size_of_profile p) [] []
unfolding active_allocations orphans filter filter_map any
idle_budget config cpu memory p c m (small, light, stored, reserved) =
    (refl, (omega arith, omega arith, stores config.runtime p stored reserved))

no_active : length (active_allocations []) ≡ 0
unfolding active_allocations filter
no_active = refl

-- A validated budget admits each configured profile, at its full size, on a host where nothing runs,
-- if one machine may run at all and the limits are within their types.
pub ensure_host_budget_valid-Admits :
    (config : Config) (name : ProfileName) (p : Profile)
    → ensure_host_budget_valid config ≡ ok tt
    → 0 < config.runtime.max_running_vms
    → InRange config.runtime
    → In (name, p) config.profiles
    → ensure_capacity [] config (size_of_profile p) [] [] ≡ ok tt
ensure_host_budget_valid-Admits config name p valid slots range i =
    let (to, from) =
      ensure_capacity_iff [] config (size_of_profile p) [] [] range (idle_charges config) in
    let room : slots_taken [] [] [] ≤ config.runtime.max_running_vms = omega (arith, idle_slots) in
    elim (set_or_not config valid) [
      | inl c ↦ from (room, rw (HasBudget, c) no_active)
      | inr (cpu, memory, c, m, sizes) ↦ from (
        room,
        simp (c, m)
            (idle_budget config cpu memory p c m
              (check_sizes-Fits config.runtime cpu memory config.profiles sizes i)),
      )
    ]
