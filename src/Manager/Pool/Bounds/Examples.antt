-- ===== src/Manager/Pool/Bounds/Examples.antt =====
-- The pool's passes on a pool of an idle and a claimed machine.
use flanforge.Base.{
  ◌≡◌, refl, some, none, true, false, List, [], ◌∷◌, codes, contains, text_eq, is_some, In, In-cons,
  not-In_nil, inl, inr, arith, Text, ap, sym, subst,
}
use flanforge.Core.Hot.{HotGuest, HotDrainReason, validate_claim}
use flanforge.Manager.Pool.Claim.{live_hot_names}
use flanforge.Manager.Pool.Drain.{Host, World, load_all}
use flanforge.Manager.Pool.Drain.Records.{Keeps}
use flanforge.Manager.Pool.Bounds.{
  Live, ensure_hot_bounded, ensure_hot_reloaded, ensure_hot_evicted_for,
}
use flanforge.Manager.Pool.Bounds.Keeps.{passes-Keeps}
use flanforge.Manager.Pool.Bounds.Spares.{Spared, passes-Spared}
use flanforge.Manager.Pool.Bounds.Kill.{IsReached, bounded-Empties}
use flanforge.Samples.{idle_guest, claimed_guest, reusing, entry_of, host_config}

abbrev host : Host
host = record {
  is_evicted = λ g. true;
  is_reset = λ g. true;
  is_saved = λ g. true;
  is_removed = λ n. true;
}

-- The claimed machine is the one that a running allocation reuses.
abbrev pool : World
pool = record { rows = claimed_guest ∷ []; gone = [] }

abbrev waiting : World
waiting = record { rows = idle_guest ∷ []; gone = [] }

abbrev live : Live
live = record {
  config = record host_config { runtime = record host_config.runtime { max_hot_vms = 0 } };
  now = 9000;
  fingerprint = λ n. none;
  promoted_generation = λ p. none;
  entries = entry_of reusing ∷ [];
  is_readable = true;
}

abbrev quiet : Live
quiet = record live { entries = [] }

abbrev changed : List Text
changed = codes "ios" ∷ []

passes-Keeps_example :
    Keeps pool (ensure_hot_bounded host live pool)
    × Keeps pool (ensure_hot_reloaded host live changed pool)
    × Keeps pool
        (ensure_hot_evicted_for host live (codes "ios") HotDrainReason.evict_requested pool)
passes-Keeps_example =
    passes-Keeps host live changed (codes "ios") HotDrainReason.evict_requested pool

claimed_row :
    (g : HotGuest)
    → In g pool.rows
    → text_eq g.vm_name (codes "ff-ios-7-1") ≡ true
    → is_some g.claimed_by ≡ true
claimed_row g i e = elim (In-cons i) [
  | inl same ↦ subst (λ (x : HotGuest). is_some x.claimed_by ≡ true) same refl
  | inr j ↦ absurd (not-In_nil g j)
]

passes-Spared_example :
    Spared (codes "ff-ios-7-1") pool (ensure_hot_bounded host live pool)
    × Spared (codes "ff-ios-7-1") pool (ensure_hot_reloaded host live changed pool)
    × Spared
        (codes "ff-ios-7-1")
        pool
        (ensure_hot_evicted_for host live (codes "ios") HotDrainReason.evict_requested pool)
unfolding live_hot_names contains flanforge.Base.filter_map flanforge.Base.filter
    flanforge.Core.Allocation.is_terminal flanforge.Core.Source.hot_vm_name text_eq
passes-Spared_example =
    passes-Spared host live changed (codes "ios") HotDrainReason.evict_requested
      (codes "ff-ios-7-1") pool refl claimed_row

bounded-Empties_example :
    contains (ensure_hot_bounded host quiet waiting).gone (codes "ff-ios-7-1") ≡ true
unfolding load_all flanforge.Base.filter validate_claim flanforge.Core.Names.starts_alphanumeric
bounded-Empties_example =
    bounded-Empties host quiet idle_guest waiting (λ x. refl) (λ x. refl) refl refl (In.here refl)
      (IsReached.is_idle refl refl)
