-- ===== src/Manager/Pool/Bounds/Kill.antt =====
-- The global kill switch, `runtime.max_hot_vms = 0`, empties the pool.
use flanforge.Base.{
  ℕ, ◌≡◌, refl, true, not, ◌==◌, List, [], ◌∷◌, none, some, arith, inl, inr, text_eq_refl, Text,
  contains, In, In-cons, filter, filter-In, subst, sym,
}
use flanforge.Core.Hot.{
  HotGuest, HotDrainReason, config_reloaded, idle, draining, ensure_state, is_terminal,
  can_transition_to,
}
use flanforge.Manager.Pool.Claim.{live_hot_names}
use flanforge.Manager.Pool.Drain.{
  Host, World, load_all, upsert, ensure_hot_evicted, finish_drain, ensure_hot_drained,
}
use flanforge.Manager.Pool.Drain.Records.{Keeps, evicted-Keeps, drained-Keeps}
use flanforge.Manager.Pool.Bounds.{
  Live, each, reason_of, is_drain_finished, is_retryable, ensure_hot_drains_finished,
  ensure_hot_evictions_retried, ensure_hot_pool_drained, ensure_hot_bounded,
}

each-stays :
    (act : HotGuest → World → World) (g : HotGuest)
    → ((x : HotGuest) (w : World) → Keeps w (act x w))
    → (gs : List HotGuest) (w : World) → contains w.gone g.vm_name ≡ true
    → contains (each act gs w).gone g.vm_name ≡ true
unfolding each
each-stays act g keeps [] w h = h
each-stays act g keeps (x ∷ gs) w h =
    each-stays act g keeps gs (act x w) ((keeps x w g.vm_name).1 h)

-- A loop destroys the machine of an element whose own step does, since no step brings one back.
each-hits :
    (act : HotGuest → World → World) (g : HotGuest)
    → ((x : HotGuest) (w : World) → Keeps w (act x w))
    → ((w : World) → contains (act g w).gone g.vm_name ≡ true)
    → (gs : List HotGuest) → In g gs
    → (w : World) → contains (each act gs w).gone g.vm_name ≡ true
unfolding each
each-hits act g keeps hit [] i w = elim i [ ]
each-hits act g keeps hit (x ∷ gs) i w = elim (In-cons i) [
  | inl same ↦
      each-stays act g keeps gs (act x w)
        (subst (λ (y : HotGuest). contains (act y w).gone g.vm_name ≡ true) (sym same) (hit w))
  | inr j ↦ each-hits act g keeps hit gs j (act x w)
]

evicted-gone :
    (host : Host) (g : HotGuest) (reason : HotDrainReason) (w : World)
    → host.is_evicted g ≡ true
    → contains (ensure_hot_evicted host g reason w).gone g.vm_name ≡ true
unfolding ensure_hot_evicted contains
evicted-gone host g reason w e = rw e (rw (text_eq_refl g.vm_name) refl)

-- An idle machine that Nobody claimed goes at once.
drained-gone :
    (now : ℕ) (host : Host) (g : HotGuest) (reason : HotDrainReason) (w : World)
    → ((x : HotGuest) → host.is_evicted x ≡ true)
    → ((x : HotGuest) → host.is_saved x ≡ true)
    → g.state ≡ idle
    → g.claimed_by ≡ none
    → contains (ensure_hot_drained now host g reason w).gone g.vm_name ≡ true
unfolding ensure_hot_drained ensure_state can_transition_to finish_drain
drained-gone now host g reason w ev sv st free =
    let moved = record g { state = draining; updated_at_unix = now; drain_reason = some reason } in
    ground (
      arith,
      st,
      free,
      sv moved,
      ev moved,
      evicted-gone host moved reason (record w { rows = upsert moved w.rows }) (ev moved),
    )

idle_stays : (g : HotGuest) → g.state ≡ idle → not (is_terminal g.state) ≡ true
unfolding is_terminal
idle_stays g st = ground (arith, st)

-- It is idle and unclaimed, it drains and no live allocation holds it, or its eviction is due.
pub data IsReached (claimed : List Text) (g : HotGuest) : Type 0 where
  is_idle : g.state ≡ idle → g.claimed_by ≡ none → IsReached claimed g
  is_finished : is_drain_finished claimed g ≡ true → IsReached claimed g
  is_due : is_retryable claimed g ≡ true → IsReached claimed g

-- With `runtime.max_hot_vms` set to zero one pass destroys every machine of a readable record that
-- is idle and unclaimed, that drains and that no live allocation holds, or whose eviction was
-- decided before and that nobody claims, if the records can be read, the database saves and the host
-- evicts. Of the other machines it says nothing.
pub bounded-Empties :
    (host : Host) (live : Live) (g : HotGuest) (w : World)
    → ((x : HotGuest) → host.is_evicted x ≡ true)
    → ((x : HotGuest) → host.is_saved x ≡ true)
    → live.is_readable ≡ true
    → live.config.runtime.max_hot_vms ≡ 0
    → In g (load_all w)
    → IsReached (live_hot_names live.entries) g
    → contains (ensure_hot_bounded host live w).gone g.vm_name ≡ true
unfolding ensure_hot_bounded ensure_hot_pool_drained ensure_hot_drains_finished
    ensure_hot_evictions_retried
bounded-Empties host live g w ev sv r z i u =
    let claimed = live_hot_names live.entries in
    let gs = load_all w in
    let drain = λ (x : HotGuest). ensure_hot_drained live.now host x config_reloaded in
    let evict = λ (x : HotGuest). ensure_hot_evicted host x (reason_of x) in
    let zero_cap : (live.config.runtime.max_hot_vms == 0) ≡ true = ground (arith, z) in
    let drains = λ (x : HotGuest) (v : World). drained-Keeps live.now host x config_reloaded v in
    let evicts = λ (x : HotGuest) (v : World). evicted-Keeps host x (reason_of x) v in
    rw (r, zero_cap)
      (elim u [
        | is_idle st free ↦ each-stays evict g evicts (filter (is_retryable claimed) gs) _ (
            each-stays evict g evicts (filter (is_drain_finished claimed) gs) _ (
              each-hits drain g drains
                (λ v. drained-gone live.now host g config_reloaded v ev sv st free)
                (filter (λ (x : HotGuest). not (is_terminal x.state)) gs)
                (filter-In _ gs i (idle_stays g st)) w))
        | is_finished q ↦ each-stays evict g evicts (filter (is_retryable claimed) gs) _ (
            each-hits evict g evicts (λ v. evicted-gone host g (reason_of g) v (ev g))
              (filter (is_drain_finished claimed) gs) (filter-In _ gs i q) _)
        | is_due q ↦
            each-hits evict g evicts (λ v. evicted-gone host g (reason_of g) v (ev g))
              (filter (is_retryable claimed) gs) (filter-In _ gs i q) _
      ])
