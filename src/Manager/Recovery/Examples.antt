-- ===== src/Manager/Recovery/Examples.antt =====
-- A start on one interrupted allocation and one ended one, and on a pool of one machine.
use flanforge.Base.{
  ℕ, ◌≡◌, ◌↔◌, ◌⊎◌, refl, inl, inr, Bool, true, false, not, ◌==◌, some, none, codes, List, [], ◌∷◌,
  ok, err, In, if◌then◌else◌, arith, filter, find, is_some,
}
use flanforge.Samples.{fresh_allocation, claimed_guest, host_config, pool_machine}
use flanforge.Core.Allocation.{Allocation, AllocationState}
use flanforge.Core.Hot.{validate_claim}
use flanforge.Manager.Model.{HostMachine}
use flanforge.Manager.Pool.Drain.{Host, World, row, load_all}
use flanforge.Manager.Teardown.{Answers, WorkerError}
use flanforge.Manager.Recovery.{
  Recovered, recover, is_hot_adoptable, ensure_hot_consistent, is_listed,
}
use flanforge.Manager.Recovery.Ends.{HasEnded}
use flanforge.Manager.Recovery.Start.{recover-Ends}
use flanforge.Manager.Recovery.Adopted.{IsProved, rejoined, is_hot_adoptable_iff}
use flanforge.Manager.Recovery.Clean.{ensure_hot_consistent-IsClean}

abbrev left_behind : List Allocation
left_behind =
    record fresh_allocation { state = AllocationState.running; vm_created = true }
    ∷ record fresh_allocation { id = 10; state = AllocationState.completed }
    ∷ []

-- A host on which no cleanup succeeds.
abbrev answers : ℕ → Answers
answers id = record {
  is_saved = λ k. not (k == 0);
  meanwhile = λ k es. es;
  cleanup = λ k. record {
    started = 0;
    duration = 30;
    outcome = err (WorkerError.failed_with (codes "gone"));
  };
}

abbrev Nobody : AllocationState → Type 0
Nobody s = ⊥

recover-Ends_example :
    (r : Recovered) × (recover answers 5000 none host_config left_behind ≡ ok r)
    × (r.unreconciled ≡ 0)
    × ((a : Allocation) → In a left_behind → HasEnded a.id r.entries)
recover-Ends_example =
    recover-Ends Nobody answers 5000 none host_config left_behind
      (λ i. (refl, refl, λ j k es a h. (a, h, inl refl))) ((λ e. omega arith, tt), (tt, tt))

abbrev host : Host
host = record {
  is_evicted = λ g. true;
  is_reset = λ g. true;
  is_saved = λ g. true;
  is_removed = λ n. true;
}

abbrev before : World
before = record { rows = claimed_guest ∷ []; gone = [] }

is_hot_adoptable_iff_example :
    ((is_hot_adoptable 5000 host host_config claimed_guest true before).0 ≡ true
      ↔ IsProved 5000 host host_config claimed_guest true)
    × (IsProved 5000 host host_config claimed_guest true
        → row claimed_guest.vm_name
            (is_hot_adoptable 5000 host host_config claimed_guest true before).1.rows
          ≡ some (rejoined 5000 claimed_guest))
unfolding validate_claim
is_hot_adoptable_iff_example =
    is_hot_adoptable_iff 5000 host host_config claimed_guest true before refl

abbrev machines : List HostMachine
machines = pool_machine ∷ []

ensure_hot_consistent-IsClean_example :
    (row claimed_guest.vm_name
        (ensure_hot_consistent 5000 host host_config (some machines) before).rows
      ≡ none)
    ⊎ ((row claimed_guest.vm_name
            (ensure_hot_consistent 5000 host host_config (some machines) before).rows
          ≡ some (rejoined 5000 claimed_guest))
        × IsProved 5000 host host_config claimed_guest (is_listed machines claimed_guest.vm_name))
unfolding load_all filter validate_claim row find flanforge.Core.Names.starts_alphanumeric
ensure_hot_consistent-IsClean_example =
    ensure_hot_consistent-IsClean 5000 host host_config machines before claimed_guest (λ x. refl)
      (λ n. refl) (refl, tt) (In.here refl)

-- The machine that the restart found claimed is back in the pool, with one job more.
returns : (is_hot_adoptable 5000 host host_config claimed_guest true before).0 ≡ true
unfolding is_hot_adoptable flanforge.Core.Config.get_profile flanforge.Base.text_eq
returns = refl
