-- ===== src/Manager/Reaper/Examples.antt =====
-- The sweep's theorems at a host with a pool machine, an orphan, and a finished run's clone.
use flanforge.Base.{
  ℕ, ◌+◌, length, Result, ok, ◌≡◌, refl, ◌≢◌, ◌≤◌, none, some, true, false, List, [], ◌∷◌, In, Text,
  codes, contains, starts_with, arith,
}
use flanforge.Core.Names.{ProfileName, VmName}
use flanforge.Core.Hot.{HotGuest, is_holding_machine}
use flanforge.Core.Allocation.{Allocation, AllocationState, is_terminal, is_regenerate}
use flanforge.Core.Config.{Profile, get_profile}
use flanforge.Manager.Reaper.Reap.{ReapRequest, sweep_deletions}
use flanforge.Manager.Reaper.Fresh.{IsFresh}
use flanforge.Manager.Reaper.Deletions.{sweep_deletions-IsFresh}
use flanforge.Manager.Model.{ManagerError, HostMachine, MachineState}
use flanforge.Manager.Reaper.{
  ReapAuthorization, ReapCandidate, ReapInputs, plan_sweep, unaged_candidates, protected_names,
  min_age_seconds, derived_names,
}
use flanforge.Manager.Reaper.Sweep.{plan_sweep_spares}
use flanforge.Manager.Reaper.Rights.{Rests, plan_sweep_authorized}
use flanforge.Samples.{host_config, idle_guest, pool_machine, fresh_allocation}

abbrev orphan : HostMachine
orphan = record pool_machine { name = codes "ff-ios-3-1" }

abbrev unaged : HostMachine
unaged = record pool_machine { name = codes "ff-ios-4-1"; age_seconds = none }

abbrev left_over : HostMachine
left_over = record pool_machine { name = codes "ff-ios-5-1"; age_seconds = some 9000 }

abbrev finished : Allocation
finished = record fresh_allocation {
  id = 5;
  state = AllocationState.failed;
  vm_name = codes "ff-ios-5-1";
  vm_created = true;
}

abbrev inputs : ReapInputs
inputs = record {
  config = host_config;
  machines = pool_machine ∷ orphan ∷ unaged ∷ left_over ∷ [];
  allocations = fresh_allocation ∷ finished ∷ [];
  images = [];
  hot = idle_guest ∷ [];
}

abbrev taken : ReapCandidate
taken = record {
  name = codes "ff-ios-5-1";
  state = MachineState.running_machine;
  authorization = ReapAuthorization.by_record 5;
  age_seconds = 9000;
}

sweep_of_inputs :
    plan_sweep inputs
    ≡ (record {
      name = codes "ff-ios-3-1";
      state = MachineState.running_machine;
      authorization = ReapAuthorization.by_prefix;
      age_seconds = 5000;
    })
      ∷ taken
      ∷ []
unfolding plan_sweep flanforge.Base.filter_map flanforge.Base.filter contains protected_names
    flanforge.Manager.Reaper.protected_by is_terminal flanforge.Base.text_eq is_holding_machine
    flanforge.Manager.Reaper.reserved_of flanforge.Core.Names.starts_alphanumeric flanforge.Base.all
    flanforge.Base.strip_prefix flanforge.Manager.Reaper.clone_authorization flanforge.Base.find
sweep_of_inputs = refl

unaged_of_inputs : unaged_candidates inputs ≡ codes "ff-ios-4-1" ∷ []
unfolding unaged_candidates flanforge.Base.filter flanforge.Base.strip_prefix contains
    protected_names flanforge.Manager.Reaper.protected_by is_terminal flanforge.Base.text_eq
    is_holding_machine flanforge.Manager.Reaper.reserved_of flanforge.Core.Names.starts_alphanumeric
    flanforge.Base.all
unaged_of_inputs = refl

takes_left_over : In taken (plan_sweep inputs)
takes_left_over = rw sweep_of_inputs (In.there (In.here refl))

plan_sweep_spares_example :
    ((a : Allocation)
      → In a inputs.allocations
      → is_terminal a.state ≡ false
      → a.vm_name ≢ taken.name)
    × ((a : Allocation) (p : Profile) (warm : VmName) (image : Text)
        → In a inputs.allocations
        → is_terminal a.state ≡ false
        → is_regenerate a.mode ≡ true
        → get_profile a.request.profile host_config.profiles ≡ some p
        → p.warm_template ≡ some warm
        → In image (derived_names warm)
        → image ≢ taken.name)
    × ((g : HotGuest)
        → In g inputs.hot
        → is_holding_machine g.state ≡ true
        → g.vm_name ≢ taken.name)
    × ((entry : ProfileName × Profile)
        → In entry host_config.profiles
        → (entry.1.template ≢ taken.name)
          × ((warm : VmName) → entry.1.warm_template ≡ some warm → warm ≢ taken.name))
plan_sweep_spares_example = plan_sweep_spares inputs takes_left_over

plan_sweep_authorized_example :
    ((m : HostMachine) × In m inputs.machines × (m.name ≡ taken.name) × (m.age_seconds ≡ some 9000))
    × (min_age_seconds ≤ 9000)
    × Rests inputs taken.name 9000 (ReapAuthorization.by_record 5)
plan_sweep_authorized_example = plan_sweep_authorized inputs takes_left_over

abbrev reads : ℕ → Result ReapInputs ManagerError
reads k = ok inputs

abbrev grants : ReapRequest → Result (Unit {0}) ManagerError
grants r = ok tt

-- The host grants both deletions.
deletes_both :
    (sweep_deletions false none reads grants (plan_sweep inputs)).deleted
    ≡ codes "ff-ios-3-1" ∷ codes "ff-ios-5-1" ∷ []
unfolding sweep_deletions flanforge.Base.filter_map flanforge.Base.filter contains protected_names
    flanforge.Manager.Reaper.protected_by is_terminal flanforge.Base.text_eq is_holding_machine
    flanforge.Manager.Reaper.reserved_of flanforge.Core.Names.starts_alphanumeric flanforge.Base.all
    flanforge.Base.strip_prefix flanforge.Manager.Reaper.clone_authorization
deletes_both = refl

sweep_deletions-IsFresh_example :
    ((j : ℕ) (r : ReapRequest)
      → In (j, r) (sweep_deletions false none reads grants (plan_sweep inputs)).requests
      → (i : ReapInputs) × (reads j ≡ ok i) × IsFresh i (plan_sweep inputs) r)
    × ((n : Text)
        → In n (sweep_deletions false none reads grants (plan_sweep inputs)).deleted
        → (j : ℕ) × (r : ReapRequest) × In
            (j, r)
            (sweep_deletions false none reads grants (plan_sweep inputs)).requests
          × (r.name ≡ n)
          × (grants r ≡ ok tt))
    × (length (sweep_deletions false none reads grants (plan_sweep inputs)).deleted
          + length (sweep_deletions false none reads grants (plan_sweep inputs)).skipped
        ≡ length (plan_sweep inputs))
    × (false ≡ true → (sweep_deletions false none reads grants (plan_sweep inputs)).requests ≡ [])
sweep_deletions-IsFresh_example =
    sweep_deletions-IsFresh false none reads grants (plan_sweep inputs)
