-- ===== src/Manager/Recovery/Clean.antt =====
-- The pool's table after a start, on a host that destroys and a database that removes.
use flanforge.Base.{
  ℕ, ◌≡◌, refl, sym, ap, ◌∙◌, true, false, Bool, arith, Result-cases, Option-cases, List, [], ◌∷◌,
  Option, none, some, Bool-cases, subst, inl, inr, ◌⊎◌, In, In-cons, not-In_nil, In-filter, filter,
  find, text_eq, text_eq_refl,
}
use flanforge.Core.Names.{VmName}
use flanforge.Core.Hot.{
  HotGuest, HotState, idle, claimed, draining, recycling, state_eq, HotDrainReason, ensure_state,
  ensure_released, can_transition_to, validate_claim, validate_guest, unverifiable, config_reloaded,
}
use flanforge.Core.Hot as Hot
use flanforge.Core.Config.{Config}
use flanforge.Manager.Model.{HostMachine}
use flanforge.Manager.Pool.Drain.{
  is_readable_row, Host, World, row, upsert, remove, load_all, ensure_hot_evicted,
}
use flanforge.Manager.Pool.Drain.Table.{save-finds, delete-finds}
use flanforge.Manager.Pool.Bounds.{ensure_hot_forgotten, hot_of}
use flanforge.Manager.Recovery.{
  given_up, adopt, is_hot_adoptable, is_listed, reconcile, reconcile_all, ensure_hot_consistent,
}
use flanforge.Manager.Recovery.Adopted.{rejoined, IsProved, proved_adopts, adopts-IsProved}
use flanforge.Manager.Pool.Drain.Table.{Keyed}

module _ (now : ℕ) (host : Host) (config : Config) (machines : List HostMachine)
    (evicts : (g : HotGuest) → host.is_evicted g ≡ true)
    (removes : (n : VmName) → host.is_removed n ≡ true) where
  evicted-rows :
      (g : HotGuest) (r : HotDrainReason) (w : World)
      → (ensure_hot_evicted host g r w).rows ≡ remove g.vm_name w.rows
  unfolding ensure_hot_evicted
  evicted-rows g r w = rw (evicts g) (rw (removes g.vm_name) refl)

  -- What one record's reconciliation does to the table.
  data Reconciled (g : HotGuest) (w v : World) : Type 0 where
    dropped : v.rows ≡ remove g.vm_name w.rows → Reconciled g w v
    adopted :
        v.rows ≡ upsert (rejoined now g) w.rows
        → IsProved now host config g (is_listed machines g.vm_name)
        → Reconciled g w v

  unproved-drops :
      (g : HotGuest) (is_present : Bool) (w : World)
      → (is_hot_adoptable now host config g is_present w).0 ≡ false
      → (is_hot_adoptable now host config g is_present w).1.rows ≡ remove g.vm_name w.rows
  unfolding is_hot_adoptable adopt ensure_hot_forgotten
  unproved-drops g is_present w h =
      let reloaded = evicted-rows g config_reloaded w in
      let suspect = evicted-rows g unverifiable w in
      let removed = removes g.vm_name in
      elim (Option-cases g.drain_reason) [
        | inr (reason, d) ↦
            let drained = evicted-rows g reason w in ground (arith, d, drained, removed)
        | inl d ↦ elim (Option-cases (hot_of config g.profile)) [
          | inl e ↦ ground (arith, d, e, reloaded, removed)
          | inr (hot, e) ↦ elim (Result-cases (ensure_state now idle (given_up now g))) [
            | inr (x, q) ↦ ground (arith, d, e, q, reloaded, suspect, removed)
            | inl (x, q) ↦ ground (arith, d, e, q, reloaded, suspect, removed)
          ]
        ]
      ]

  reconcile-Reconciled :
      (g : HotGuest) (w : World)
      → validate_claim g ≡ true
      → Reconciled g w (reconcile now host config machines g w)
  unfolding reconcile
  reconcile-Reconciled g w v = elim (Bool-cases (Hot.is_terminal g.state)) [
    | inl t ↦ dropped (rw t (rw (removes g.vm_name) refl))
    | inr t ↦
        elim (Bool-cases (is_hot_adoptable now host config g (is_listed machines g.vm_name) w).0) [
          | inl yes' ↦
              let p = adopts-IsProved now host config g (is_listed machines g.vm_name) w v yes' in
              adopted
                (rw t (
                  ap (λ (r : Bool × World). r.1.rows)
                    (proved_adopts now host config g (is_listed machines g.vm_name) w v p)))
                p
          | inr no' ↦ dropped (rw t (unproved-drops g (is_listed machines g.vm_name) w no'))
        ]
  ]

  -- The row that a record may have after the pass, with `g` its record before.
  abbrev pub IsClean : HotGuest → Option HotGuest → Type 0
  IsClean g o =
      (o ≡ none)
      ⊎ ((o ≡ some (rejoined now g)) × IsProved now host config g (is_listed machines g.vm_name))

  own-row :
      (g : HotGuest) (w : World)
      → validate_claim g ≡ true
      → IsClean g (row g.vm_name (reconcile now host config machines g w).rows)
  unfolding rejoined
  own-row g w v = elim (reconcile-Reconciled g w v) [
    | dropped q ↦ inl (
        ap (row g.vm_name) q
        ∙ delete-finds g.vm_name w.rows g.vm_name
        ∙ rw (text_eq_refl g.vm_name) refl)
    | adopted q p ↦ inr (
      ap (row g.vm_name) q
          ∙ save-finds (rejoined now g) w.rows g.vm_name
          ∙ rw (text_eq_refl g.vm_name) refl,
      p,
    )
  ]

  other-row :
      (g : HotGuest) (n : VmName) (w : World)
      → validate_claim g ≡ true
      → text_eq g.vm_name n ≡ false
      → row n (reconcile now host config machines g w).rows ≡ row n w.rows
  unfolding rejoined
  other-row g n w v e = elim (reconcile-Reconciled g w v) [
    | dropped q ↦ ap (row n) q ∙ delete-finds g.vm_name w.rows n ∙ rw e refl
    | adopted q p ↦ ap (row n) q ∙ save-finds (rejoined now g) w.rows n ∙ rw e refl
  ]

  other-rows :
      (gs : List HotGuest) (n : VmName) (w : World)
      → ((g : HotGuest) → In g gs → validate_claim g ≡ true)
      → row n gs ≡ none
      → row n (reconcile_all now host config machines gs w).rows ≡ row n w.rows
  unfolding reconcile_all row find
  other-rows [] n w v e = refl
  other-rows (g ∷ gs) n w v e = elim (Bool-cases (text_eq g.vm_name n)) [
    | inl same ↦ absurd (ground (arith, e, same))
    | inr other ↦
        other-rows gs n _ (λ x i. v x (In.there i)) (ground (arith, e, other))
        ∙ other-row g n w (v g (In.here refl)) other
  ]

  all-IsClean :
      (gs : List HotGuest) (g : HotGuest) (w : World)
      → ((x : HotGuest) → In x gs → validate_claim x ≡ true)
      → Keyed gs
      → In g gs
      → IsClean g (row g.vm_name (reconcile_all now host config machines gs w).rows)
  unfolding reconcile_all
  all-IsClean [] g w v k i = absurd (not-In_nil g i)
  all-IsClean (x ∷ gs) g w v (fresh, k) i = elim (In-cons i) [
    | inr j ↦ all-IsClean gs g _ (λ y m. v y (In.there m)) k j
    | inl same ↦
        let settled =
          other-rows gs x.vm_name (reconcile now host config machines x w) (λ y m. v y (In.there m))
            fresh in
        subst
          (λ (y : HotGuest). IsClean y (
            row y.vm_name
              (reconcile_all now host config machines gs
                (reconcile now host config machines x w)).rows))
          same (subst (IsClean x) (sym settled) (own-row x w (v x (In.here refl))))
  ]

row-filter :
    (p : HotGuest → Bool) (n : VmName) (gs : List HotGuest)
    → row n gs ≡ none
    → row n (filter p gs) ≡ none
unfolding row find filter
row-filter p n [] e = refl
row-filter p n (g ∷ gs) e = elim (Bool-cases (text_eq g.vm_name n)) [
  | inl same ↦ absurd (ground (arith, e, same))
  | inr other ↦
      let rest = row-filter p n gs (ground (arith, e, other)) in
      elim (Bool-cases (p g)) [ inl k ↦ rw k (ground (arith, other, rest)) | inr k ↦ rw k rest ]
]

Keyed-filter : (p : HotGuest → Bool) (gs : List HotGuest) → Keyed gs → Keyed (filter p gs)
unfolding filter
Keyed-filter p [] k = k
Keyed-filter p (g ∷ gs) (fresh, k) = elim (Bool-cases (p g)) [
  | inl e ↦ rw e (row-filter p g.vm_name gs fresh, Keyed-filter p gs k)
  | inr e ↦ rw e (Keyed-filter p gs k)
]

readable-claim : (g : HotGuest) → is_readable_row g ≡ true → validate_claim g ≡ true
unfolding is_readable_row validate_guest
readable-claim g h = ground (arith, h)

-- After a start on a readable host listing, a table of distinct names, a host that destroys what it
-- is told to and a database that removes, each record that was read either has no row, or its row
-- is the idle, unclaimed one of a machine that the host lists, that Nobody drained, whose profile
-- still wants it, and that passed the reset.
pub ensure_hot_consistent-IsClean :
    (now : ℕ) (host : Host) (config : Config) (machines : List HostMachine) (w : World)
    (g : HotGuest)
    → ((x : HotGuest) → host.is_evicted x ≡ true)
    → ((n : VmName) → host.is_removed n ≡ true)
    → Keyed w.rows
    → In g (load_all w)
    → let after = row g.vm_name (ensure_hot_consistent now host config (some machines) w).rows in
      (after ≡ none)
      ⊎ ((after ≡ some (rejoined now g))
          × IsProved now host config g (is_listed machines g.vm_name))
unfolding ensure_hot_consistent load_all
ensure_hot_consistent-IsClean now host config machines w g ev rm k i =
    all-IsClean now host config machines ev rm (load_all w) g w
      (λ x m. readable-claim x (In-filter is_readable_row w.rows m).1)
      (Keyed-filter is_readable_row w.rows k) i
