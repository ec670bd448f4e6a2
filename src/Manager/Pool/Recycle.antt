-- ===== src/Manager/Pool/Recycle.antt =====
-- hot/recycle.rs: the release of a claim and the gate that a machine passes before it joins the pool
-- again. `meanwhile` is what other tasks do while the gate waits for the host, and `Live` what the
-- manager reads for the bounds that a successful gate ends with. The retention of a machine that a
-- run cloned is left out.
use flanforge.Base.{
  ℕ, Bool, true, false, not, ◌==◌, Option, none, some, is_some_and, filter_option, if◌then◌else◌,
  Result, ok, err,
}
use flanforge.Core.Names.{VmName}
use flanforge.Core.Hot.{
  HotGuest, config_reloaded, reset_failed, idle, ensure_state, ensure_released,
}
use flanforge.Core.Allocation.{Allocation}
use flanforge.Core.Config.{Profile, is_hot_enabled}
use flanforge.Manager.Pool.Drain.{Host, World, upsert, load, ensure_hot_evicted, hot_drain_pending}
use flanforge.Manager.Pool.Bounds.{Live, ensure_hot_bounded}
pub mod Keeps
pub mod Examples

-- The end of the gate: the machine joins the pool unless it was drained meanwhile, and the bounds are
-- applied to the pool that it joined.
unfoldable pub join_pool : ℕ → Host → Live → HotGuest → World → World
unfolding ensure_hot_evicted hot_drain_pending upsert ensure_hot_bounded
join_pool now host live g w = elim (hot_drain_pending g.vm_name w) [
  | some reason ↦ ensure_hot_evicted host g reason w
  | none ↦ elim (ensure_state now idle g) [
    | err e ↦ ensure_hot_evicted host g reset_failed w
    | ok joined ↦
        if host.is_saved joined
        then ensure_hot_bounded host live (record w { rows = upsert joined w.rows })
        else ensure_hot_evicted host joined reset_failed w
  ]
]

unfoldable pub ensure_hot_gated :
    ℕ → Host → Live → (World → World) → HotGuest → Profile → Bool → World → World
unfolding join_pool
ensure_hot_gated now host live meanwhile g profile already_reset w =
    elim (filter_option profile.hot is_hot_enabled) [
      | none ↦ ensure_hot_evicted host g config_reloaded w
      | some hot ↦
          if already_reset
          then join_pool now host live g w
          else if host.is_reset g
          then join_pool now host live g (meanwhile w)
          else ensure_hot_evicted host g reset_failed (meanwhile w)
    ]

-- `guest.claimed_by != Some(allocation.id)`, negated.
abbrev pub is_claimed_by : ℕ → HotGuest → Bool
is_claimed_by id g = is_some_and g.claimed_by (λ holder. holder == id)

unfoldable pub ensure_hot_recycled :
    ℕ → Host → Live → (World → World) → Allocation → VmName → Profile → World → World
unfolding ensure_hot_gated load
ensure_hot_recycled now host live meanwhile allocation vm_name profile w = elim (load vm_name w) [
  | err e ↦ w
  | ok found ↦ elim found [
    | none ↦ w
    | some g ↦ if not (is_claimed_by allocation.id g) then w else elim (ensure_released now g) [
      | err e ↦ ensure_hot_evicted host g reset_failed w
      | ok released ↦
          if host.is_saved released
          then ensure_hot_gated now host live meanwhile released profile false
              (record w { rows = upsert released w.rows })
          else ensure_hot_evicted host released reset_failed w
    ]
  ]
]
