-- ===== src/Manager/Pool/Bounds/Spares.antt =====
-- The machines in use are not destroyed by the pool's passes.
use flanforge.Base.{
  ℕ, ◌≡◌, refl, true, false, List, arith, Bool-cases, Result-cases, inl, inr, ◌⊎◌, is_some, text_eq,
  text_eq_iff, contains, In, In-filter, ok, ap, ◌∙◌,
}
use flanforge.Core.Names.{VmName, ProfileName}
use flanforge.Core.Hot.{HotGuest, HotDrainReason, draining, state_eq, ensure_state}
use flanforge.Manager.Pool.Claim.{live_hot_names}
use flanforge.Manager.Pool.Drain.{
  is_readable_row, Host, World, load_all, stamp, ensure_hot_eviction_pending, ensure_hot_evicted,
  finish_drain, ensure_hot_drained,
}
use flanforge.Manager.Pool.Bounds.{
  Live, ensure_hot_bounded, ensure_hot_reloaded, ensure_hot_evicted_for,
}
use flanforge.Manager.Pool.Bounds.Passes.{bounded-R, reloaded-R, evicted_for-R}

-- The machine `n` is not destroyed between the two worlds.
abbrev pub Spared : VmName → World → World → Type 0
Spared n w v = contains w.gone n ≡ false → contains v.gone n ≡ false

pending-Spared :
    (host : Host) (g : HotGuest) (reason : HotDrainReason) (n : VmName) (w : World)
    → Spared n w (ensure_hot_eviction_pending host g reason w)
unfolding ensure_hot_eviction_pending
pending-Spared host g reason n w h = ground (arith, h)

evicted-Spared :
    (host : Host) (g : HotGuest) (reason : HotDrainReason) (n : VmName) (w : World)
    → text_eq g.vm_name n ≡ false
    → Spared n w (ensure_hot_evicted host g reason w)
unfolding ensure_hot_evicted contains
evicted-Spared host g reason n w e h = elim (Bool-cases (host.is_evicted g)) [
  | inl d ↦ rw d (rw (e, h) refl)
  | inr d ↦ rw d (pending-Spared host g reason n w h)
]

finish-Spared :
    (host : Host) (moved : HotGuest) (reason : HotDrainReason) (n : VmName) (w : World)
    → (is_some moved.claimed_by ≡ true) ⊎ (text_eq moved.vm_name n ≡ false)
    → Spared n w (finish_drain host moved reason w)
unfolding finish_drain
finish-Spared host moved reason n w (inl c) h = rw c h
finish-Spared host moved reason n w (inr e) h = elim (Bool-cases (is_some moved.claimed_by)) [
  | inl c ↦ rw c h
  | inr c ↦ rw c (evicted-Spared host moved reason n w e h)
]

-- A drain moves a machine's record but not its claim or its name.
moved-same :
    (now : ℕ) (g moved : HotGuest)
    → ensure_state now draining g ≡ ok moved
    → (moved.claimed_by ≡ g.claimed_by) × (moved.vm_name ≡ g.vm_name)
unfolding ensure_state
moved-same now g moved q = ground (arith, q)

drained-Spared :
    (now : ℕ) (host : Host) (g : HotGuest) (reason : HotDrainReason) (n : VmName) (w : World)
    → (is_some g.claimed_by ≡ true) ⊎ (text_eq g.vm_name n ≡ false)
    → Spared n w (ensure_hot_drained now host g reason w)
unfolding ensure_hot_drained
drained-Spared now host g reason n w why h = elim (Bool-cases (state_eq g.state draining)) [
  | inl d ↦ rw d h
  | inr d ↦ elim (Result-cases (ensure_state now draining g)) [
    | inr (error, q) ↦ rw (d, q) (pending-Spared host g reason n w h)
    | inl (moved, q) ↦ elim (Bool-cases (host.is_saved (stamp reason moved))) [
      | inr s ↦ rw (d, q, s) h
      | inl s ↦
          rw (d, q, s) (finish-Spared host (stamp reason moved) reason n _ (kept moved q why) h)
    ]
  ]
]
  where
    kept :
        (moved : HotGuest)
        → ensure_state now draining g ≡ ok moved
        → (is_some g.claimed_by ≡ true) ⊎ (text_eq g.vm_name n ≡ false)
        → (is_some moved.claimed_by ≡ true) ⊎ (text_eq moved.vm_name n ≡ false)
    kept moved q (inl c) = inl (ap is_some (moved-same now g moved q).0 ∙ c)
    kept moved q (inr e) = inr (ap (λ (t : VmName). text_eq t n) (moved-same now g moved q).1 ∙ e)

-- A machine that a live allocation holds, all rows of which carry a claim, is destroyed by no pass
-- over the pool: not for its bounds, its profile's removal or the global kill switch, not by a
-- reload, and not by a run that ends the session.
pub passes-Spared :
    (host : Host) (live : Live) (ps : List ProfileName) (p : ProfileName) (reason : HotDrainReason)
    (n : VmName) (w : World)
    → contains (live_hot_names live.entries) n ≡ true
    → ((g : HotGuest) → In g w.rows → text_eq g.vm_name n ≡ true → is_some g.claimed_by ≡ true)
    → Spared n w (ensure_hot_bounded host live w)
      × Spared n w (ensure_hot_reloaded host live ps w)
      × Spared n w (ensure_hot_evicted_for host live p reason w)
unfolding load_all
passes-Spared host live ps p reason n w named held = (
  bounded-R host live (load_all w) (Spared n) same after drain evict w refl,
  reloaded-R host live (load_all w) (Spared n) same after drain evict ps w refl,
  evicted_for-R host live (load_all w) (Spared n) same after drain evict p reason w refl,
)
  where
    same : (v : World) → Spared n v v
    same v h = h

    after : (u v x : World) → Spared n u v → Spared n v x → Spared n u x
    after u v x first second h = second (first h)

    drain :
        (g : HotGuest)
        → In g (load_all w)
        → (r : HotDrainReason) (v : World) → Spared n v (ensure_hot_drained live.now host g r v)
    drain g i r v h = elim (Bool-cases (text_eq g.vm_name n)) [
      | inl e ↦
          drained-Spared live.now host g r n v
            (inl (held g (In-filter is_readable_row w.rows i).0 e)) h
      | inr e ↦ drained-Spared live.now host g r n v (inr e) h
    ]

    evict :
        (g : HotGuest)
        → In g (load_all w)
        → contains (live_hot_names live.entries) g.vm_name ≡ false
        → (r : HotDrainReason) (v : World) → Spared n v (ensure_hot_evicted host g r v)
    evict g i free r v h = elim (Bool-cases (text_eq g.vm_name n)) [
      | inl e ↦ absurd (both g free ((text_eq_iff g.vm_name n).0 e))
      | inr e ↦ evicted-Spared host g r n v e h
    ]
      where
        both :
            (g : HotGuest)
            → contains (live_hot_names live.entries) g.vm_name ≡ false
            → g.vm_name ≡ n
            → ⊥
        both g free e = ground (arith, free, named, ap (contains (live_hot_names live.entries)) e)
