-- ===== src/Manager/Pool/Drain/Examples.antt =====
-- The drain's theorems at the sample machines, on a host that grants everything.
use flanforge.Base.{
  ◌≡◌, refl, ◌⊎◌, inl, none, some, true, false, List, [], ◌∷◌, codes, contains, is_some, ok, err,
}
use flanforge.Manager.Pool.Drain.Table.{Map, Write}
use flanforge.Core.Hot.{HotState, HotDrainReason}
use flanforge.Manager.Model.{ManagerError}
use flanforge.Manager.Pool.Drain.{Host, World, load, ensure_hot_drained}
use flanforge.Manager.Pool.Bounds.{Live}
use flanforge.Manager.Pool.Recycle.{ensure_hot_recycled}
use flanforge.Manager.Pool.Drain.Faults.{drained_claim_is_lost}
use flanforge.Samples.{idle_guest, claimed_guest, fresh_allocation, ios_profile, host_config}

abbrev host : Host
host = record {
  is_evicted = λ g. true;
  is_reset = λ g. true;
  is_saved = λ g. true;
  is_removed = λ n. true;
}

abbrev serving : World
serving = record { rows = claimed_guest ∷ []; gone = [] }

abbrev waiting : World
waiting = record { rows = idle_guest ∷ []; gone = [] }

abbrev live : Live
live = record {
  config = host_config;
  now = 3000;
  fingerprint = λ n. some (codes "0a1b");
  promoted_generation = λ p. none;
  entries = [];
  is_readable = true;
}

-- An idle machine is destroyed at once, and its row with it.
drains_idle :
    ensure_hot_drained 3000 host idle_guest HotDrainReason.max_idle waiting
    ≡ record { rows = []; gone = codes "ff-ios-7-1" ∷ [] }
unfolding ensure_hot_drained flanforge.Core.Hot.ensure_state
    flanforge.Manager.Pool.Drain.finish_drain flanforge.Manager.Pool.Drain.remove
    flanforge.Base.filter flanforge.Manager.Pool.Drain.upsert flanforge.Base.text_eq
drains_idle = refl

drained_claim_is_lost_example :
    (load
        (codes "ff-ios-7-1")
        (ensure_hot_drained 2900 host claimed_guest HotDrainReason.max_lifetime serving)
      ≡ err ManagerError.store_error)
    × (ensure_hot_recycled 3000 host live
          (λ w. w)
          fresh_allocation
          (codes "ff-ios-7-1")
          ios_profile
          (ensure_hot_drained 2900 host claimed_guest HotDrainReason.max_lifetime serving)
        ≡ ensure_hot_drained 2900 host claimed_guest HotDrainReason.max_lifetime serving)
drained_claim_is_lost_example =
    drained_claim_is_lost 2900 3000 host live (λ w. w) claimed_guest fresh_allocation ios_profile
      HotDrainReason.max_lifetime serving refl refl refl

-- A machine is saved, claimed, and another is removed.
abbrev two_writes : List Write
two_writes =
    Write.save idle_guest ∷ Write.save claimed_guest ∷ Write.delete (codes "ff-ios-6-1") ∷ []

abbrev no_machine : Map
no_machine n = none
