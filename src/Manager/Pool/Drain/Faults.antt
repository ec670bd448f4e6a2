-- ===== src/Manager/Pool/Drain/Faults.antt =====
-- What a drain does to a machine that serves a job, and to one that does not.
use flanforge.Base.{ℕ, ◌≡◌, refl, true, false, some, is_some, arith, ok, err}
use flanforge.Core.Source.{AllocationId}
use flanforge.Core.Hot.{
  HotGuest, HotDrainReason, claimed, draining, state_eq, ensure_state, validate_claim,
  validate_guest,
}
use flanforge.Core.Allocation.{Allocation}
use flanforge.Core.Config.{Profile}
use flanforge.Manager.Model.{ManagerError}
use flanforge.Manager.Pool.Drain.{
  is_readable_row, Host, World, upsert, load, ensure_hot_drained, finish_drain,
}
use flanforge.Manager.Pool.Bounds.{Live}
use flanforge.Manager.Pool.Recycle.{ensure_hot_recycled}
use flanforge.Manager.Pool.Drain.Records.{row-upsert}

-- The record that the drain of a claimed machine writes.
abbrev pub orphaned_claim : ℕ → HotDrainReason → HotGuest → HotGuest
orphaned_claim now reason g = record g {
  state = draining;
  updated_at_unix = now;
  drain_reason = some reason;
}

claimed-moves :
    (now : ℕ) (g : HotGuest)
    → g.state ≡ claimed
    → ensure_state now draining g ≡ ok (record g { state = draining; updated_at_unix = now })
unfolding ensure_state
claimed-moves now g s = ground arith

drained-claimed :
    (now : ℕ) (host : Host) (g : HotGuest) (id : AllocationId) (reason : HotDrainReason) (w : World)
    → g.state ≡ claimed
    → g.claimed_by ≡ some id
    → host.is_saved (orphaned_claim now reason g) ≡ true
    → ensure_hot_drained now host g reason w
      ≡ record w { rows = upsert (orphaned_claim now reason g) w.rows }
unfolding ensure_hot_drained finish_drain
drained-claimed now host g id reason w s c saved =
    let fresh : state_eq g.state draining ≡ false = rw s refl in
    let moves = claimed-moves now g s in
    let held : is_some g.claimed_by ≡ true = rw c refl in
    rw (ensure_hot_drained, fresh, moves, saved, held) refl

-- Once the drain of a claimed machine is saved, its record can no longer be read, and the release
-- that ends the claim changes nothing: the machine is neither recycled nor evicted.
pub drained_claim_is_lost :
    (now later : ℕ) (host : Host) (live : Live) (meanwhile : World → World) (g : HotGuest)
    (a : Allocation) (p : Profile) (reason : HotDrainReason) (w : World)
    → g.state ≡ claimed
    → g.claimed_by ≡ some a.id
    → host.is_saved (orphaned_claim now reason g) ≡ true
    → (load g.vm_name (ensure_hot_drained now host g reason w) ≡ err ManagerError.store_error)
      × (ensure_hot_recycled later host live meanwhile a g.vm_name p
            (ensure_hot_drained now host g reason w)
          ≡ ensure_hot_drained now host g reason w)
unfolding ensure_hot_recycled load is_readable_row validate_guest validate_claim
drained_claim_is_lost now later host live meanwhile g a p reason w s c saved =
    let broken : HotGuest = orphaned_claim now reason g in
    let after : World = record w { rows = upsert broken w.rows } in
    let refused : is_readable_row broken ≡ false = ground arith in
    let unread : load g.vm_name after ≡ err ManagerError.store_error =
      rw (load, row-upsert broken w.rows, refused) refl in
    rw (drained-claimed now host g a.id reason w s c saved)
      (unread, rw (ensure_hot_recycled, unread) refl)
