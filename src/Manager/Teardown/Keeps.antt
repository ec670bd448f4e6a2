-- ===== src/Manager/Teardown/Keeps.antt =====
-- The record of an allocation under the writes of its teardown and of other tasks.
use flanforge.Base.{
  ℕ, ◌≡◌, refl, sym, ap, true, false, arith, ok, Result, List, [], ◌∷◌, Bool-cases, Bool, some,
  subst, inl, inr, ◌⊎◌,
}
use flanforge.Core.Source.{AllocationId}
use flanforge.Core.Allocation.{
  Allocation, AllocationState, is_terminal, cleaning, state_eq, transition, can_transition_to,
}
use flanforge.Manager.Model.{Entry, ManagerError}
use flanforge.Manager.Entries.{
  Changed, get, find_entry, has_id, replace, update, moved, ensure_cleaning,
}

pub find-replace :
    (id : AllocationId) (b : Allocation) (es : List Entry) {a : Allocation}
    → b.id ≡ id
    → find_entry id es ≡ some a
    → find_entry id (replace id b es) ≡ some b
unfolding find_entry replace
find-replace id b [] q h = cc
find-replace id b (e ∷ es) q h = elim (Bool-cases (has_id id e)) [
  | inl s ↦ rw s (ground arith)
  | inr s ↦ rw s (ground (arith, find-replace id b es q (rw s at h)))
]

pub find-id :
    (id : AllocationId) (es : List Entry) {a : Allocation} → find_entry id es ≡ some a → a.id ≡ id
unfolding find_entry
find-id id [] h = cc
find-id id (e ∷ es) h = elim (Bool-cases (has_id id e)) [
  | inl s ↦ ground arith
  | inr s ↦ find-id id es (rw s at h)
]

can-clean : (s : AllocationState) → is_terminal s ≡ false → can_transition_to s cleaning ≡ true
unfolding is_terminal can_transition_to
can-clean s h = ground arith

pub can-end : (t : AllocationState) → is_terminal t ≡ true → can_transition_to cleaning t ≡ true
unfolding is_terminal can_transition_to
can-end t h = ground arith

state_eq-is : (s t : AllocationState) → state_eq s t ≡ true → s ≡ t
state_eq-is s t h = ground arith

pub moved_lem :
    (now : ℕ) (t : AllocationState) (a : Allocation)
    → can_transition_to a.state t ≡ true
    → moved now t a ≡ ok (record a { state = t; updated_at_unix = now })
unfolding moved transition
moved_lem now t a h = ground (arith, h)

pub cleaning_goes_on : is_terminal cleaning ≡ false
unfolding is_terminal
cleaning_goes_on = refl

-- What other tasks do to the record under `id` : they keep it, or they end it with a state of `E`.
module _ (id : AllocationId) (E : AllocationState → Type 0) where
  abbrev pub KeepsOrEnds : (List Entry → List Entry) → Type 0
  KeepsOrEnds f =
      (es : List Entry) (a : Allocation)
      → find_entry id es ≡ some a
      → (b : Allocation) × (find_entry id (f es) ≡ some b)
        × ((b ≡ a) ⊎ ((is_terminal b.state ≡ true) × E b.state))

  -- An update whose change succeeds and whose record is saved leaves the changed record there.
  pub update_lem :
      (f : List Entry → List Entry) (change : Allocation → Result Allocation ManagerError)
      (es : List Entry) {a b : Allocation}
      → KeepsOrEnds f
      → find_entry id es ≡ some a
      → change a ≡ ok b
      → b.id ≡ id
      → (es' : List Entry) × (update true f id change es ≡ (ok tt, es'))
        × (find_entry id es' ≡ some b)
  unfolding update get
  update_lem f change es {a} {b} k h c q =
      let (x, found, _) = k es a h in
      (replace id b (f es), ground (arith, h, c, found), find-replace id b (f es) q found)

  -- The record is as ready for its last transition as it gets.
  abbrev pub IsCleaned : Allocation → Type 0
  IsCleaned b = (b.state ≡ cleaning) ⊎ ((is_terminal b.state ≡ true) × E b.state)

  -- A record that nothing but a lost write or another task changed since.
  abbrev pub IsLive : Allocation → Type 0
  IsLive a = (is_terminal a.state ≡ false) ⊎ ((is_terminal a.state ≡ true) × E a.state)

  pub cleaning_lem :
      (f : List Entry → List Entry) (now : ℕ) (es : List Entry) {a : Allocation}
      → KeepsOrEnds f
      → find_entry id es ≡ some a
      → IsLive a
      → (es' : List Entry) × (b : Allocation) × (ensure_cleaning true f now id es ≡ (ok tt, es'))
        × (find_entry id es' ≡ some b)
        × IsCleaned b
  unfolding ensure_cleaning get
  cleaning_lem f now es {a} k h (inr e) = (es, a, ground (arith, h, e.0), h, inr e)
  cleaning_lem f now es {a} k h (inl n) = elim (Bool-cases (state_eq a.state cleaning)) [
    | inl s ↦ (es, a, ground (arith, h, s), h, inl (state_eq-is a.state cleaning s))
    | inr s ↦
        let (es', done, found) =
          update_lem f (moved now cleaning) es k h (moved_lem now cleaning a (can-clean a.state n))
            (find-id id es h) in
        (es', _, ground (arith, h, s, n, done), found, inl refl)
  ]

  -- A step after which the record is found, live or ended.
  abbrev pub Found : List Entry → Type 0
  Found es = (c : Allocation) × (find_entry id es ≡ some c) × IsLive c

  pub meanwhile-Found :
      (f : List Entry → List Entry) (es : List Entry) → KeepsOrEnds f → Found es → Found (f es)
  meanwhile-Found f es k (a, h, l) =
      let (b, found, how) = k es a h in
      elim how [ inl q ↦ (b, found, subst IsLive (sym q) l) | inr e ↦ (b, found, inr e) ]

  pub update-Found :
      (is_saved : Bool) (f : List Entry → List Entry)
      (change : Allocation → Result Allocation ManagerError) (es : List Entry) {a b : Allocation}
      → KeepsOrEnds f
      → find_entry id es ≡ some a
      → IsLive a
      → change a ≡ ok b
      → b.id ≡ id
      → IsLive b
      → Found (update is_saved f id change es).1
  unfolding update get
  update-Found true f change es {a} {b} k h l c q m =
      let (es', done, found) = update_lem f change es k h c q in
      subst Found (ap (λ (r : Changed). r.1) (sym done)) (b, found, m)
  update-Found false f change es {a} {b} k h l c q m =
      let (x, found, live) = meanwhile-Found f es k (a, h, l) in
      (x, ground (arith, h, c, found), live)

  pub cleaning-Found :
      (is_saved : Bool) (f : List Entry → List Entry) (now : ℕ) (es : List Entry)
      → KeepsOrEnds f
      → Found es
      → Found (ensure_cleaning is_saved f now id es).1
  unfolding ensure_cleaning get
  cleaning-Found is_saved f now es k (a, h, inr e) = (a, ground (arith, h, e.0), inr e)
  cleaning-Found is_saved f now es k (a, h, inl n) = elim (Bool-cases (state_eq a.state cleaning)) [
    | inl s ↦ (a, ground (arith, h, s), inl n)
    | inr s ↦
        let kept =
          update-Found is_saved f (moved now cleaning) es k h (inl n)
            (moved_lem now cleaning a (can-clean a.state n)) (find-id id es h)
            (inl cleaning_goes_on) in
        subst (λ (r : Changed). Found r.1) (taken a h n s) kept
  ]
    where
      taken :
          (a : Allocation)
          → find_entry id es ≡ some a
          → is_terminal a.state ≡ false
          → state_eq a.state cleaning ≡ false
          → update is_saved f id (moved now cleaning) es ≡ ensure_cleaning is_saved f now id es
      taken a h n s = ground (arith, h, n, s)
