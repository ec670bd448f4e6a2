-- ===== src/Manager/Pool/Recycle/Examples.antt =====
-- A release on a host that grants everything.
use flanforge.Base.{◌≡◌, refl, inl, none, some, true, [], ◌∷◌, codes}
use flanforge.Manager.Pool.Drain.{Host, World}
use flanforge.Manager.Pool.Drain.Records.{Keeps}
use flanforge.Manager.Pool.Bounds.{Live}
use flanforge.Manager.Pool.Recycle.{ensure_hot_recycled}
use flanforge.Manager.Pool.Recycle.Keeps.{recycled-Keeps}
use flanforge.Samples.{idle_guest, claimed_guest, fresh_allocation, ios_profile, host_config}

abbrev host : Host
host = record {
  is_evicted = λ g. true;
  is_reset = λ g. true;
  is_saved = λ g. true;
  is_removed = λ n. true;
}

abbrev live : Live
live = record {
  config = host_config;
  now = 3000;
  fingerprint = λ n. some (codes "0a1b");
  promoted_generation = λ p. none;
  entries = [];
  is_readable = true;
}

abbrev serving : World
serving = record { rows = claimed_guest ∷ []; gone = [] }

-- A release without a drain hands the machine back, one job older.
releases :
    ensure_hot_recycled 3000 host live
      (λ w. w)
      fresh_allocation
      (codes "ff-ios-7-1")
      ios_profile
      serving
    ≡ record {
      rows = record idle_guest { updated_at_unix = 3000; jobs_served = 2 } ∷ [];
      gone = [];
    }
unfolding ensure_hot_recycled flanforge.Manager.Pool.Drain.row flanforge.Base.find
    flanforge.Base.text_eq flanforge.Core.Names.starts_alphanumeric
    flanforge.Core.Hot.ensure_released flanforge.Base.filter flanforge.Base.contains
    flanforge.Base.filter_map flanforge.Core.Config.get_profile flanforge.Core.Hot.is_terminal
    flanforge.Manager.Pool.Select.is_base_changed
releases = refl

recycled-Keeps_example : Keeps serving (
    ensure_hot_recycled 3000 host live
      (λ w. w)
      fresh_allocation
      (codes "ff-ios-7-1")
      ios_profile
      serving)
recycled-Keeps_example =
    recycled-Keeps 3000 host live (λ w. w) fresh_allocation (codes "ff-ios-7-1") ios_profile serving
      (λ w n. (λ h. inl h, λ h. h))
