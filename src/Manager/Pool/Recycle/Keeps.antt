-- ===== src/Manager/Pool/Recycle/Keeps.antt =====
-- What the release of a claim leaves of the pool's rows.
use flanforge.Base.{
  ℕ, inl, inr, Bool, false, [], Bool-cases, Option-cases, filter_option, Result-cases,
}
use flanforge.Core.Names.{VmName}
use flanforge.Core.Hot.{
  HotGuest, HotDrainReason, config_reloaded, reset_failed, idle, ensure_state, ensure_released,
}
use flanforge.Core.Allocation.{Allocation}
use flanforge.Core.Config.{Profile, is_hot_enabled}
use flanforge.Manager.Pool.Drain.{Host, World, load, hot_drain_pending}
use flanforge.Manager.Pool.Drain.Records.{
  Keeps, Keeps-refl, Keeps-trans, evicted-Keeps, upsert-Keeps,
}
use flanforge.Manager.Pool.Bounds.{Live, ensure_hot_bounded}
use flanforge.Manager.Pool.Bounds.Keeps.{passes-Keeps}
use flanforge.Manager.Pool.Recycle.{join_pool, ensure_hot_gated, is_claimed_by, ensure_hot_recycled}

bounded-Keeps : (host : Host) (live : Live) (w : World) → Keeps w (ensure_hot_bounded host live w)
bounded-Keeps host live w = (passes-Keeps host live [] [] HotDrainReason.config_reloaded w).0

join_pool-Keeps :
    (now : ℕ) (host : Host) (live : Live) (g : HotGuest) (w : World)
    → Keeps w (join_pool now host live g w)
unfolding join_pool
join_pool-Keeps now host live g w = elim (Option-cases (hot_drain_pending g.vm_name w)) [
  | inr (reason, e) ↦ rw (join_pool, e) (evicted-Keeps host g reason w)
  | inl e ↦ elim (Result-cases (ensure_state now idle g)) [
    | inr (error, q) ↦ rw (join_pool, e, q) (evicted-Keeps host g reset_failed w)
    | inl (joined, q) ↦ elim (Bool-cases (host.is_saved joined)) [
      | inl s ↦
          rw (join_pool, e, q, s)
            (Keeps-trans w _ _ (upsert-Keeps joined w) (bounded-Keeps host live _))
      | inr s ↦ rw (join_pool, e, q, s) (evicted-Keeps host joined reset_failed w)
    ]
  ]
]

gated-Keeps :
    (now : ℕ) (host : Host) (live : Live) (meanwhile : World → World) (g : HotGuest) (p : Profile)
    (already : Bool) (w : World)
    → ((v : World) → Keeps v (meanwhile v))
    → Keeps w (ensure_hot_gated now host live meanwhile g p already w)
unfolding ensure_hot_gated
gated-Keeps now host live meanwhile g p already w others =
    elim (Option-cases (filter_option p.hot is_hot_enabled)) [
      | inl e ↦ rw (ensure_hot_gated, e) (evicted-Keeps host g config_reloaded w)
      | inr (hot, e) ↦ elim (Bool-cases already) [
        | inl a ↦ rw (ensure_hot_gated, e, a) (join_pool-Keeps now host live g w)
        | inr a ↦ elim (Bool-cases (host.is_reset g)) [
          | inl r ↦
              rw (ensure_hot_gated, e, a, r)
                (Keeps-trans w (meanwhile w) _ (others w)
                  (join_pool-Keeps now host live g (meanwhile w)))
          | inr r ↦
              rw (ensure_hot_gated, e, a, r)
                (Keeps-trans w (meanwhile w) _ (others w)
                  (evicted-Keeps host g reset_failed (meanwhile w)))
        ]
      ]
    ]

-- The release of a claim, on every branch of it and of the gate, keeps each machine's row until the
-- machine is destroyed, if what other tasks do while the gate waits keeps them too.
pub recycled-Keeps :
    (now : ℕ) (host : Host) (live : Live) (meanwhile : World → World) (a : Allocation)
    (name : VmName) (p : Profile) (w : World)
    → ((v : World) → Keeps v (meanwhile v))
    → Keeps w (ensure_hot_recycled now host live meanwhile a name p w)
unfolding ensure_hot_recycled
recycled-Keeps now host live meanwhile a name p w others = elim (Result-cases (load name w)) [
  | inr (error, l) ↦ rw (ensure_hot_recycled, l) (Keeps-refl w)
  | inl (found, l) ↦ elim (Option-cases found) [
    | inl f ↦ rw (ensure_hot_recycled, l, f) (Keeps-refl w)
    | inr (g, f) ↦ elim (Bool-cases (is_claimed_by a.id g)) [
      | inr c ↦ rw (ensure_hot_recycled, l, f, c) (Keeps-refl w)
      | inl c ↦ elim (Result-cases (ensure_released now g)) [
        | inr (error, q) ↦
            rw (ensure_hot_recycled, l, f, c, q) (evicted-Keeps host g reset_failed w)
        | inl (released, q) ↦ elim (Bool-cases (host.is_saved released)) [
          | inl s ↦
              rw (ensure_hot_recycled, l, f, c, q, s)
                (Keeps-trans w _ _ (upsert-Keeps released w)
                  (gated-Keeps now host live meanwhile released p false _ others))
          | inr s ↦
              rw (ensure_hot_recycled, l, f, c, q, s) (evicted-Keeps host released reset_failed w)
        ]
      ]
    ]
  ]
]
