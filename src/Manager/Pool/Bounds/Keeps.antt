-- ===== src/Manager/Pool/Bounds/Keeps.antt =====
-- What the pool's passes leave of its rows.
use flanforge.Base.{List, refl}
use flanforge.Core.Names.{ProfileName}
use flanforge.Core.Hot.{HotDrainReason}
use flanforge.Manager.Pool.Drain.{Host, World, load_all}
use flanforge.Manager.Pool.Drain.Records.{
  Keeps, Keeps-refl, Keeps-trans, evicted-Keeps, drained-Keeps,
}
use flanforge.Manager.Pool.Bounds.{
  Live, ensure_hot_bounded, ensure_hot_reloaded, ensure_hot_evicted_for,
}
use flanforge.Manager.Pool.Bounds.Passes.{bounded-R, reloaded-R, evicted_for-R}

-- A pass over the whole pool, for its bounds, for a reload or for a run that ends its session, keeps
-- the row of every machine that it does not destroy, whatever the host and the database answer.
pub passes-Keeps :
    (host : Host) (live : Live) (ps : List ProfileName) (p : ProfileName) (reason : HotDrainReason)
    (w : World)
    → Keeps w (ensure_hot_bounded host live w)
      × Keeps w (ensure_hot_reloaded host live ps w)
      × Keeps w (ensure_hot_evicted_for host live p reason w)
passes-Keeps host live ps p reason w = (
  bounded-R host live (load_all w) Keeps Keeps-refl Keeps-trans
      (λ g i r v. drained-Keeps live.now host g r v) (λ g i c r v. evicted-Keeps host g r v) w refl,
  reloaded-R host live (load_all w) Keeps Keeps-refl Keeps-trans
      (λ g i r v. drained-Keeps live.now host g r v) (λ g i c r v. evicted-Keeps host g r v) ps w
      refl,
  evicted_for-R host live (load_all w) Keeps Keeps-refl Keeps-trans
      (λ g i r v. drained-Keeps live.now host g r v) (λ g i c r v. evicted-Keeps host g r v) p
      reason w refl,
)
