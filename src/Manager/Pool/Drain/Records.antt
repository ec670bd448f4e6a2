-- ===== src/Manager/Pool/Drain/Records.antt =====
-- The rows of hot/evict.rs, hot/bounds.rs and hot/recycle.rs beside the machines that they destroy.
use flanforge.Base.{
  ℕ, ◌≡◌, refl, ◌⊎◌, inl, inr, true, false, ◌||◌, some, text_eq, text_eq_iff, text_eq_refl, List,
  [], ◌∷◌, contains, is_some, arith, Bool-cases, sym, ◌∙◌, Result-cases, find, filter,
}
use flanforge.Core.Names.{VmName}
use flanforge.Core.Hot.{HotGuest, HotDrainReason, draining, state_eq, ensure_state}
use flanforge.Manager.Pool.Drain.{
  Host, World, row, upsert, remove, stamp, is_stamped, ensure_hot_eviction_pending,
  ensure_hot_evicted, ensure_hot_drained, finish_drain,
}

-- Every machine with a row still has one, or was destroyed; what was destroyed stays so.
abbrev pub Keeps : World → World → Type 0
Keeps w v =
    (n : VmName)
    → (is_some (row n w.rows) ≡ true → (is_some (row n v.rows) ≡ true) ⊎ (contains v.gone n ≡ true))
      × (contains w.gone n ≡ true → contains v.gone n ≡ true)

pub Keeps-refl : (w : World) → Keeps w w
Keeps-refl w n = (λ h. inl h, λ h. h)

pub Keeps-trans : (u v w : World) → Keeps u v → Keeps v w → Keeps u w
Keeps-trans u v w first second n = (
  λ h. elim ((first n).0 h) [ inl still ↦ (second n).0 still | inr lost ↦ inr ((second n).1 lost) ],
  λ h. (second n).1 ((first n).1 h),
)

pub row-upsert : (g : HotGuest) (rows : List HotGuest) → row g.vm_name (upsert g rows) ≡ some g
unfolding row upsert find
row-upsert g [] = rw (text_eq_refl g.vm_name) refl
row-upsert g (r ∷ rest) = elim (Bool-cases (text_eq r.vm_name g.vm_name)) [
  | inl e ↦ rw (e, find, text_eq_refl g.vm_name) refl
  | inr e ↦ rw (e, find, e) (row-upsert g rest)
]

row-nil : (n : VmName) → is_some (row n []) ≡ false
unfolding row find
row-nil n = refl

row-cons :
    (n : VmName) (x : HotGuest) (rest : List HotGuest)
    → is_some (row n (x ∷ rest)) ≡ text_eq x.vm_name n || is_some (row n rest)
unfolding row find
row-cons n x rest = elim (Bool-cases (text_eq x.vm_name n)) [
  | inl e ↦ rw (find, e) refl
  | inr e ↦ rw (find, e) refl
]

row-upsert-is_some :
    (n : VmName) (g : HotGuest) (rows : List HotGuest)
    → is_some (row n rows) ≡ true
    → is_some (row n (upsert g rows)) ≡ true
unfolding upsert
row-upsert-is_some n g [] h = absurd (ground (arith, row-nil n))
row-upsert-is_some n g (r ∷ rest) h =
    let before : text_eq r.vm_name n || is_some (row n rest) ≡ true = sym (row-cons n r rest) ∙ h in
    elim (Bool-cases (text_eq r.vm_name g.vm_name)) [
      | inl e ↦
          let same = (text_eq_iff r.vm_name g.vm_name).0 e in
          rw e (row-cons n g rest ∙ rw (← same) before)
      | inr e ↦ rw e (
          row-cons n r (upsert g rest) ∙ elim (Bool-cases (text_eq r.vm_name n)) [
            | inl hit ↦ rw hit refl
            | inr miss ↦ rw (miss, row-upsert-is_some n g rest (rw miss at before)) refl
          ])
    ]

row-remove-is_some :
    (n m : VmName) (rows : List HotGuest)
    → text_eq m n ≡ false
    → is_some (row n rows) ≡ true
    → is_some (row n (remove m rows)) ≡ true
unfolding remove filter
row-remove-is_some n m [] e h = h
row-remove-is_some n m (r ∷ rest) e h =
    let before : text_eq r.vm_name n || is_some (row n rest) ≡ true = sym (row-cons n r rest) ∙ h in
    elim (Bool-cases (text_eq r.vm_name m)) [
      | inl hit ↦
          let same = (text_eq_iff r.vm_name m).0 hit in
          let miss : text_eq r.vm_name n ≡ false = rw same e in
          rw hit (row-remove-is_some n m rest e (rw miss at before))
      | inr other ↦ rw other (
          row-cons n r (remove m rest) ∙ elim (Bool-cases (text_eq r.vm_name n)) [
            | inl found ↦ rw found refl
            | inr miss ↦ rw (miss, row-remove-is_some n m rest e (rw miss at before)) refl
          ])
    ]

pub upsert-Keeps : (g : HotGuest) (w : World) → Keeps w (record w { rows = upsert g w.rows })
upsert-Keeps g w n = (λ h. inl (row-upsert-is_some n g w.rows h), λ h. h)

pending-Keeps :
    (host : Host) (g : HotGuest) (reason : HotDrainReason) (w : World)
    → Keeps w (ensure_hot_eviction_pending host g reason w)
unfolding ensure_hot_eviction_pending
pending-Keeps host g reason w = elim (Bool-cases (is_stamped g reason)) [
  | inl e ↦ rw e (Keeps-refl w)
  | inr e ↦ elim (Bool-cases (host.is_saved (stamp reason g))) [
    | inl s ↦ rw (e, s) (upsert-Keeps (stamp reason g) w)
    | inr s ↦ rw (e, s) (Keeps-refl w)
  ]
]

pub evicted-Keeps :
    (host : Host) (g : HotGuest) (reason : HotDrainReason) (w : World)
    → Keeps w (ensure_hot_evicted host g reason w)
unfolding ensure_hot_evicted contains
evicted-Keeps host g reason w = elim (Bool-cases (host.is_evicted g)) [
  | inr e ↦ rw e (pending-Keeps host g reason w)
  | inl e ↦ rw e (λ n. elim (Bool-cases (text_eq g.vm_name n)) [
    | inl this ↦ (λ h. inr (rw this refl), λ h. rw this refl)
    | inr other ↦ (
      λ h. inl (elim (Bool-cases (host.is_removed g.vm_name)) [
        | inl r ↦ rw r (row-remove-is_some n g.vm_name w.rows other h)
        | inr r ↦ rw r h
      ]),
      λ h. rw (other, h) refl,
    )
  ])
]

finish-Keeps :
    (host : Host) (moved : HotGuest) (reason : HotDrainReason) (saved : World)
    → Keeps saved (finish_drain host moved reason saved)
unfolding finish_drain
finish-Keeps host moved reason saved = elim (Bool-cases (is_some moved.claimed_by)) [
  | inl c ↦ rw c (Keeps-refl saved)
  | inr c ↦ rw c (evicted-Keeps host moved reason saved)
]

-- A drain keeps every machine's row, its own included, until the machine is destroyed.
pub drained-Keeps :
    (now : ℕ) (host : Host) (g : HotGuest) (reason : HotDrainReason) (w : World)
    → Keeps w (ensure_hot_drained now host g reason w)
unfolding ensure_hot_drained
drained-Keeps now host g reason w = elim (Bool-cases (state_eq g.state draining)) [
  | inl d ↦ rw d (Keeps-refl w)
  | inr d ↦ elim (Result-cases (ensure_state now draining g)) [
    | inr (error, q) ↦ rw (d, q) (pending-Keeps host g reason w)
    | inl (moved, q) ↦ elim (Bool-cases (host.is_saved (stamp reason moved))) [
      | inr s ↦ rw (d, q, s) (Keeps-refl w)
      | inl s ↦
          rw (d, q, s)
            (Keeps-trans w _ _ (upsert-Keeps (stamp reason moved) w)
              (finish-Keeps host (stamp reason moved) reason _))
    ]
  ]
]
