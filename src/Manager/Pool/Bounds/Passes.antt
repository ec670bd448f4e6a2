-- ===== src/Manager/Pool/Bounds/Passes.antt =====
-- The pool's passes by their steps: a relation that each drain and each permitted eviction respects
-- is respected by the whole pass.
use flanforge.Base.{
  ◌≡◌, refl, false, not, ◌==◌, ◌&&◌, List, [], ◌∷◌, filter, arith, Bool-cases, Option-cases, inl,
  inr, In, In-cons, In-filter, In-take, contains, text_eq, Bool,
}
use flanforge.Core.Names.{ProfileName}
use flanforge.Core.Hot.{
  HotGuest, HotLane, HotDrainReason, config_reloaded, max_idle, is_terminal, is_holding_machine,
  is_serving,
}
use flanforge.Core.Config.{HotConfig}
use flanforge.Manager.Pool.Select.{drain_reason}
use flanforge.Manager.Pool.Claim.{live_hot_names}
use flanforge.Manager.Pool.Drain.{Host, World, load_all, ensure_hot_drained, ensure_hot_evicted}
use flanforge.Manager.Pool.Bounds.{
  Live, each, staler, policy_for, hot_of, bound_guest, insert_staler, sort_stale, surplus_idle,
  retire_lane, retire_lanes, idle_lanes, is_drain_finished, is_retryable, finish_drains,
  ensure_hot_surplus_retired, ensure_hot_drains_finished, ensure_hot_evictions_retried,
  ensure_hot_pool_drained, ensure_hot_bounded, ensure_hot_reloaded, ensure_hot_evicted_for,
}

In-insert_staler : (g x : HotGuest) (gs : List HotGuest) → In x (insert_staler g gs) → In x (g ∷ gs)
unfolding insert_staler
In-insert_staler g x [] i = i
In-insert_staler g x (r ∷ rest) i = elim (Bool-cases (staler r g)) [
  | inl e ↦ elim (In-cons (rw e at i)) [
    | inl same ↦ In.there (In.here same)
    | inr j ↦ elim (In-cons (In-insert_staler g x rest j)) [
      | inl same ↦ In.here same
      | inr k ↦ In.there (In.there k)
    ]
  ]
  | inr e ↦ rw e at i
]

In-sort_stale : (x : HotGuest) (gs : List HotGuest) → In x (sort_stale gs) → In x gs
unfolding sort_stale
In-sort_stale x [] i = i
In-sort_stale x (g ∷ gs) i = elim (In-cons (In-insert_staler g x (sort_stale gs) i)) [
  | inl e ↦ In.here e
  | inr j ↦ In.there (In-sort_stale x gs j)
]

In-surplus_idle :
    (x : HotGuest) (gs : List HotGuest) (p : ProfileName) (lane : HotLane) (hot : HotConfig)
    → In x (surplus_idle gs p lane hot)
    → In x gs
unfolding surplus_idle
In-surplus_idle x gs p lane hot i =
    (In-filter (λ g. is_serving g p lane) gs (In-sort_stale x _ (In-take _ _ i))).0

module _ (host : Host) (live : Live) (guests : List HotGuest) (R : World → World → Type 0)
    (refl' : (w : World) → R w w) (trans : (u v w : World) → R u v → R v w → R u w)
    (drain : (g : HotGuest)
      → In g guests
      → (reason : HotDrainReason) (w : World) → R w (ensure_hot_drained live.now host g reason w))
    (evict : (g : HotGuest)
      → In g guests
      → contains (live_hot_names live.entries) g.vm_name ≡ false
      → (reason : HotDrainReason) (w : World) → R w (ensure_hot_evicted host g reason w)) where
  each-R :
      (act : HotGuest → World → World) (gs : List HotGuest)
      → ((g : HotGuest) → In g gs → (w : World) → R w (act g w))
      → (w : World) → R w (each act gs w)
  unfolding each
  each-R act [] h w = refl' w
  each-R act (g ∷ gs) h w =
      trans w _ _ (h g (In.here refl) w) (each-R act gs (λ x i. h x (In.there i)) (act g w))

  drain-each :
      (reason : HotDrainReason) (gs : List HotGuest)
      → ((x : HotGuest) → In x gs → In x guests)
      → (w : World) → R w (each (λ g. ensure_hot_drained live.now host g reason) gs w)
  drain-each reason gs sub w = each-R _ gs (λ g i v. drain g (sub g i) reason v) w

  drain-filtered :
      (reason : HotDrainReason) (p : HotGuest → Bool) (w : World)
      → R w (each (λ g. ensure_hot_drained live.now host g reason) (filter p guests) w)
  drain-filtered reason p w =
      drain-each reason (filter p guests) (λ x i. (In-filter p guests i).0) w

  bound_guest-R : (g : HotGuest) → In g guests → (w : World) → R w (bound_guest host live g w)
  unfolding bound_guest
  bound_guest-R g i w = elim (Bool-cases (is_terminal g.state)) [
    | inl t ↦ rw t (refl' w)
    | inr t ↦ elim (Option-cases (hot_of live.config g.profile)) [
      | inl e ↦ rw (bound_guest, t, e) (drain g i config_reloaded w)
      | inr (hot, e) ↦ elim (Option-cases (drain_reason g (policy_for live hot g.profile))) [
        | inl q ↦ rw (bound_guest, t, e, q) (refl' w)
        | inr (reason, q) ↦ rw (bound_guest, t, e, q) (drain g i reason w)
      ]
    ]
  ]

  retire_lane-R :
      (key : ProfileName × HotLane) (w : World) → R w (retire_lane host live guests key w)
  unfolding retire_lane
  retire_lane-R key w = elim (Option-cases (hot_of live.config key.0)) [
    | inl e ↦ rw (retire_lane, e) (refl' w)
    | inr (hot, e) ↦
        rw (retire_lane, e)
          (drain-each max_idle _ (λ x. In-surplus_idle x guests key.0 key.1 hot) w)
  ]

  retire_lanes-R :
      (keys : List (ProfileName × HotLane)) (w : World) → R w (retire_lanes host live guests keys w)
  unfolding retire_lanes
  retire_lanes-R [] w = refl' w
  retire_lanes-R (k ∷ ks) w = trans w _ _ (retire_lane-R k w) (retire_lanes-R ks _)

  finish_drains-R : (w : World) → R w (finish_drains host live guests w)
  unfolding ensure_hot_drains_finished ensure_hot_evictions_retried
  finish_drains-R w =
      trans w _ _
        (each-R _ _
          (λ g i v.
            let (j, q) = In-filter (is_drain_finished (live_hot_names live.entries)) guests i in
            evict g j (ground (arith, q)) _ v)
          w)
        (each-R _ _
          (λ g i v.
            let (j, q) = In-filter (is_retryable (live_hot_names live.entries)) guests i in
            evict g j (ground (arith, q)) _ v)
          _)

  pool_drained-R : (w : World) → R w (ensure_hot_pool_drained host live guests w)
  unfolding ensure_hot_pool_drained
  pool_drained-R w =
      trans w _ _ (drain-filtered config_reloaded (λ (g : HotGuest). not (is_terminal g.state)) w)
        (finish_drains-R _)

  pub bounded-R : (w : World) → load_all w ≡ guests → R w (ensure_hot_bounded host live w)
  unfolding ensure_hot_bounded ensure_hot_surplus_retired
  bounded-R w q = elim (Bool-cases live.is_readable) [
    | inr r ↦ rw r (refl' w)
    | inl r ↦ elim (Bool-cases (live.config.runtime.max_hot_vms == 0)) [
      | inl z ↦ rw (r, z, q) (pool_drained-R w)
      | inr z ↦
          rw (r, z, q)
            (trans w _ _ (each-R (bound_guest host live) guests bound_guest-R w)
              (trans _ _ _ (retire_lanes-R (idle_lanes guests) _) (finish_drains-R _)))
    ]
  ]

  pub reloaded-R :
      (ps : List ProfileName) (w : World)
      → load_all w ≡ guests
      → R w (ensure_hot_reloaded host live ps w)
  unfolding ensure_hot_reloaded
  reloaded-R [] w q = refl' w
  reloaded-R (p ∷ ps) w q = elim (Bool-cases live.is_readable) [
    | inr r ↦ rw r (refl' w)
    | inl r ↦
        rw (r, q)
          (drain-filtered config_reloaded
            (λ (g : HotGuest). is_holding_machine g.state && contains (p ∷ ps) g.profile) w)
  ]

  pub evicted_for-R :
      (p : ProfileName) (reason : HotDrainReason) (w : World)
      → load_all w ≡ guests
      → R w (ensure_hot_evicted_for host live p reason w)
  unfolding ensure_hot_evicted_for
  evicted_for-R p reason w q = elim (Bool-cases live.is_readable) [
    | inr r ↦ rw r (refl' w)
    | inl r ↦
        rw (r, q)
          (drain-filtered reason
            (λ (g : HotGuest). is_holding_machine g.state && text_eq g.profile p) w)
  ]
