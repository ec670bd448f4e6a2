-- ===== src/Manager/Recovery.antt =====
-- crates/flanforge-manager/src/recovery/{allocations,hot}.rs: the start of the daemon on durable
-- records. Each allocation's teardown has its own answers.
use flanforge.Base.{
  ℕ, zero, suc, ◌+◌, ◌*◌, Bool, true, false, not, ◌&&◌, ◌==◌, Option, none, some, is_some,
  unwrap_or, filter_option, Text, text_eq, codes, List, [], ◌∷◌, ◌++◌, any, filter, if◌then◌else◌,
  Result, ok, err, is_ok,
}
use flanforge.Core.Names.{VmName}
use flanforge.Core.Source.{AllocationId}
use flanforge.Core.Hot.{
  HotGuest, HotState, idle, claimed, state_eq, HotDrainReason, config_reloaded, unverifiable,
  ensure_state, ensure_released, HotTransitionError,
}
use flanforge.Core.Hot as Hot
use flanforge.Core.Allocation.{Allocation, AllocationState, is_terminal}
use flanforge.Core.Config.{
  Config, Profile, NetworkMode, default_network, is_hot_enabled, get_profile,
}
use flanforge.Manager.Model.{Entry, HostMachine, ManagerError}
use flanforge.Manager.Entries.{find_entry, update, with_error}
use flanforge.Manager.Resolve.{profile}
use flanforge.Manager.Pool.Drain.{Host, World, upsert, remove, load_all, ensure_hot_evicted}
use flanforge.Manager.Pool.Bounds.{ensure_hot_forgotten, hot_of}
use flanforge.Manager.Teardown.{Answers, AllocationLeak, Ended, ensure_terminal}
use flanforge.Manager.Teardown.Budget.{teardown_budget}
pub mod Kept
pub mod Frames
pub mod Ends
pub mod Start
pub mod Adopted
pub mod Clean
pub mod Examples

-- A cleanup budget for a record whose profile is gone: it authorizes nothing and is never hot.
unfoldable pub cleanup_only_profile : Allocation → Profile
cleanup_only_profile a = record {
  repository = a.request.repository;
  template = a.vm_name;
  runner_label = a.runner_label;
  job_name = [];
  allowed_workflows = [];
  allowed_events = [];
  allowed_refs = [];
  require_protected_ref = true;
  network = default_network;
  cpu_count = 1;
  memory_mb = 2048;
  storage_mb = 40960;
  boot_timeout_seconds = 300;
  idle_timeout_seconds = 300;
  job_timeout_seconds = 300;
  cleanup_timeout_seconds = 300;
  warm_template = none;
  regeneration_workflow = none;
  hot = none;
  reap = false;
}

abbrev recovered_entry : Allocation → Entry
recovered_entry a = record {
  allocation = a;
  is_cancelled = false;
  is_supervised = false;
  is_terminalizing = false;
}

-- Entries before the refused one stay.
unfoldable pub ensure_entries_loaded :
    List Allocation → List Entry → Result (Unit {0}) ManagerError × List Entry
unfolding find_entry
ensure_entries_loaded [] entries = (ok tt, entries)
ensure_entries_loaded (a ∷ rest) entries =
    let loaded = ensure_entries_loaded rest (recovered_entry a ∷ entries) in
    if is_some (find_entry a.id entries)
    then (err (ManagerError.duplicate_allocation a.id), entries)
    else loaded

unfoldable pub profile_or_fallback : Config → Allocation → Profile
unfolding profile cleanup_only_profile
profile_or_fallback config a = elim (profile config a.request) [
  | ok p ↦ p
  | err e ↦ cleanup_only_profile a
]

abbrev pub restarted : Text
restarted = codes "daemon restarted during allocation"

-- The milliseconds of `Duration::from_secs`.
unfoldable pub recover_allocation :
    Answers → ℕ → Option ℕ → Config → Allocation → List Entry → List AllocationLeak → Ended
unfolding update with_error profile_or_fallback teardown_budget ensure_terminal
recover_allocation w now deadline config a entries leaked =
    let p = profile_or_fallback config a in
    ensure_terminal w now (teardown_budget deadline (1000 * p.cleanup_timeout_seconds)) a
      AllocationState.failed
      (update (w.is_saved 7) (w.meanwhile 7) a.id (λ b. ok (with_error now false restarted b))
        entries).1
      leaked

-- What the pass over the interrupted records leaves, and how many it could not reconcile.
pub record Recovered : Type 0 where
  pub entries : List Entry
  pub leaked : List AllocationLeak
  pub unreconciled : ℕ

-- The body of the loop over the interrupted records.
unfoldable pub recover_one : Answers → ℕ → Option ℕ → Config → Allocation → Recovered → Recovered
unfolding recover_allocation
recover_one w now deadline config a r =
    let ended = recover_allocation w now deadline config a r.entries r.leaked in
    record {
      entries = ended.entries;
      leaked = ended.leaked;
      unreconciled = if is_ok ended.result then r.unreconciled else r.unreconciled + 1;
    }

unfoldable pub recover_all :
    (AllocationId → Answers) → ℕ → Option ℕ → Config → List Allocation → Recovered → Recovered
unfolding recover_one
recover_all answers now deadline config [] r = r
recover_all answers now deadline config (a ∷ rest) r =
    recover_all answers now deadline config rest
      (recover_one (answers a.id) now deadline config a r)

abbrev pub interrupted : List Allocation → List Allocation
interrupted = filter λ a. not (is_terminal a.state)

-- The allocations' part of `recover`.
unfoldable pub recover :
    (AllocationId → Answers)
    → ℕ
    → Option ℕ
    → Config
    → List Allocation
    → Result Recovered ManagerError
unfolding ensure_entries_loaded recover_all
recover answers now deadline config allocations =
    let (loaded, entries) = ensure_entries_loaded allocations [] in
    elim loaded [
      | err e ↦ err e
      | ok u ↦ ok (
          recover_all answers now deadline config (interrupted allocations)
            (record { entries = entries; leaked = []; unreconciled = 0 }))
    ]

-- `let _ = adopted.ensure_released()`: a refused release leaves the copy as it was.
abbrev kept : HotGuest → Result HotGuest HotTransitionError → HotGuest
kept g (ok h) = h
kept g (err e) = g

unfoldable pub given_up : ℕ → HotGuest → HotGuest
unfolding ensure_released
given_up now g = if state_eq g.state claimed then kept g (ensure_released now g) else g

-- The verified machine's return to the pool.
unfoldable pub adopt : ℕ → Host → HotGuest → World → Bool × World
unfolding given_up ensure_state upsert ensure_hot_evicted
adopt now host g w = elim (ensure_state now idle (given_up now g)) [
  | err e ↦ (false, ensure_hot_evicted host g unverifiable w)
  | ok adopted ↦
      if host.is_saved adopted
      then (true, record w { rows = upsert adopted w.rows })
      else (false, ensure_hot_evicted host g unverifiable w)
]

unfoldable pub is_hot_adoptable : ℕ → Host → Config → HotGuest → Bool → World → Bool × World
unfolding ensure_hot_forgotten ensure_hot_evicted hot_of adopt
is_hot_adoptable now host config g is_present w =
    if not is_present then (false, ensure_hot_forgotten host g w) else elim g.drain_reason [
      | some reason ↦ (false, ensure_hot_evicted host g reason w)
      | none ↦ elim (hot_of config g.profile) [
        | none ↦ (false, ensure_hot_evicted host g config_reloaded w)
        | some hot ↦
            if host.is_reset g
            then adopt now host g w
            else (false, ensure_hot_evicted host g unverifiable w)
      ]
    ]

abbrev pub is_listed : List HostMachine → VmName → Bool
is_listed machines name = any (λ (m : HostMachine). text_eq m.name name) machines

-- One record of the pass: a terminal one is dropped.
unfoldable pub reconcile : ℕ → Host → Config → List HostMachine → HotGuest → World → World
unfolding is_hot_adoptable remove any
reconcile now host config machines g w =
    if Hot.is_terminal g.state
    then if host.is_removed g.vm_name then record w { rows = remove g.vm_name w.rows } else w
    else (is_hot_adoptable now host config g (is_listed machines g.vm_name) w).1

unfoldable pub reconcile_all : ℕ → Host → Config → List HostMachine → List HotGuest → World → World
unfolding reconcile
reconcile_all now host config machines [] w = w
reconcile_all now host config machines (g ∷ gs) w =
    reconcile_all now host config machines gs (reconcile now host config machines g w)

-- An unreadable listing of the host is `none`: nothing is reconciled.
unfoldable pub ensure_hot_consistent : ℕ → Host → Config → Option (List HostMachine) → World → World
unfolding load_all reconcile_all
ensure_hot_consistent now host config none w = w
ensure_hot_consistent now host config (some machines) w =
    reconcile_all now host config machines (load_all w) w
