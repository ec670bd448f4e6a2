-- ===== src/Manager/Recovery/Kept.antt =====
-- An update of one record leaves the others, if the other tasks do.
use flanforge.Base.{
  ℕ, ◌≡◌, ◌≢◌, refl, sym, ◌∙◌, true, false, Bool, ◌||◌, arith, ok, err, Result, List, [], ◌∷◌, Text,
  none, some, Result-cases, Bool-cases, Option-cases, subst, inl, inr, ◌⊎◌,
}
use flanforge.Core.Source.{AllocationId}
use flanforge.Core.Allocation.{
  Allocation, AllocationState, cleaning, is_terminal, state_eq, transition, set_error,
  set_capacity_busy,
}
use flanforge.Manager.Model.{Entry, ManagerError}
use flanforge.Manager.Entries.{
  get, find_entry, has_id, replace, update, moved, ensure_cleaning, store_back, with_error,
}
use flanforge.Manager.Teardown.Keeps.{KeepsOrEnds, find-id}

find_replace-other :
    (id j : AllocationId) (b : Allocation) (es : List Entry)
    → b.id ≡ id
    → j ≢ id
    → find_entry j (replace id b es) ≡ find_entry j es
unfolding find_entry replace
find_replace-other id j b [] q n = refl
find_replace-other id j b (e ∷ es) q n = elim (Bool-cases (has_id id e)) [
  | inl s ↦ rw s (ground arith)
  | inr s ↦ rw s (ground (arith, find_replace-other id j b es q n))
]

pub with_error-KeepsId :
    (now : ℕ) (is_capacity : Bool) (m : Text) (a b : Allocation)
    → ◌≡◌ {A = Result Allocation ManagerError} (ok (with_error now is_capacity m a)) (ok b)
    → b.id ≡ a.id
unfolding with_error set_error set_capacity_busy
with_error-KeepsId now is_capacity m a b h = ground (arith, h)

module _ (j : AllocationId) (E : AllocationState → Type 0) where
  -- The record of `j` is kept, or ended with a state of `E`.
  abbrev pub IsKept : List Entry → List Entry → Type 0
  IsKept es es' =
      (a : Allocation)
      → find_entry j es ≡ some a
      → (b : Allocation) × (find_entry j es' ≡ some b)
        × ((b ≡ a) ⊎ ((is_terminal b.state ≡ true) × E b.state))

  pub IsKept-refl : (es : List Entry) → IsKept es es
  IsKept-refl es a h = (a, h, inl refl)

  pub IsKept-trans : (u v w : List Entry) → IsKept u v → IsKept v w → IsKept u w
  IsKept-trans u v w first second a h =
      let (b, found, how) = first a h in
      let (c, found', how') = second b found in
      elim how' [
        | inr e ↦ (c, found', inr e)
        | inl q ↦ elim how [
          | inl p ↦ (c, found', inl (q ∙ p))
          | inr e ↦ (
            c,
            found',
            inr (subst (λ (x : Allocation). (is_terminal x.state ≡ true) × E x.state) (sym q) e),
          )
        ]
      ]

-- A change that keeps the identifier.
abbrev pub KeepsId : (Allocation → Result Allocation ManagerError) → Type 0
KeepsId change = (a b : Allocation) → change a ≡ ok b → b.id ≡ a.id

module _ (id j : AllocationId) (other : j ≢ id) (E : AllocationState → Type 0) where
  store_back-IsKept :
      (b : Allocation) (es : List Entry) → b.id ≡ id → IsKept j E es (store_back id b es).1
  store_back-IsKept b es q a h = elim (Option-cases (find_entry id es)) [
    | inl s ↦ (a, ground (arith, s, h), inl refl)
    | inr (old, s) ↦ (a, ground (arith, s, h, find_replace-other id j b es q other), inl refl)
  ]

  pub update-IsKept :
      (is_saved : Bool) (f : List Entry → List Entry)
      (change : Allocation → Result Allocation ManagerError) (es : List Entry)
      → KeepsOrEnds j E f
      → KeepsId change
      → IsKept j E es (update is_saved f id change es).1
  unfolding update get
  update-IsKept is_saved f change es k keeps = elim (Option-cases (find_entry id es)) [
    | inl s ↦ subst (IsKept j E es) (absent s) (IsKept-refl j E es)
    | inr (a, s) ↦ elim (Result-cases (change a)) [
      | inr (e, c) ↦ subst (IsKept j E es) (refused a e s c) (IsKept-refl j E es)
      | inl (b, c) ↦ stored is_saved a b s c (
          IsKept-trans j E es (f es) _ (k es)
            (store_back-IsKept b (f es) (keeps a b c ∙ find-id id es s)))
    ]
  ]
    where
      absent : find_entry id es ≡ none → es ≡ (update is_saved f id change es).1
      absent s = ground (arith, s)

      refused :
          (a : Allocation) (e : ManagerError)
          → find_entry id es ≡ some a
          → change a ≡ err e
          → es ≡ (update is_saved f id change es).1
      refused a e s c = ground (arith, s, c)

      saved :
          (a b : Allocation)
          → find_entry id es ≡ some a
          → change a ≡ ok b
          → (store_back id b (f es)).1 ≡ (update true f id change es).1
      saved a b s c = ground (arith, s, c)

      unsaved :
          (a b : Allocation)
          → find_entry id es ≡ some a
          → change a ≡ ok b
          → f es ≡ (update false f id change es).1
      unsaved a b s c = ground (arith, s, c)

      stored :
          (s : Bool) (a b : Allocation)
          → find_entry id es ≡ some a
          → change a ≡ ok b
          → IsKept j E es (store_back id b (f es)).1
          → IsKept j E es (update s f id change es).1
      stored true a b s c h = subst (IsKept j E es) (saved a b s c) h
      stored false a b s c h = subst (IsKept j E es) (unsaved a b s c) (k es)

  pub moved-KeepsId : (now : ℕ) (t : AllocationState) → KeepsId (moved now t)
  unfolding moved transition
  moved-KeepsId now t a b h = ground (arith, h)

  pub cleaning-IsKept :
      (is_saved : Bool) (f : List Entry → List Entry) (now : ℕ) (es : List Entry)
      → KeepsOrEnds j E f
      → IsKept j E es (ensure_cleaning is_saved f now id es).1
  unfolding ensure_cleaning get
  cleaning-IsKept is_saved f now es k = elim (Option-cases (find_entry id es)) [
    | inl s ↦ subst (IsKept j E es) (none_there s) (IsKept-refl j E es)
    | inr (a, s) ↦ elim (Bool-cases (state_eq a.state cleaning || is_terminal a.state)) [
      | inl d ↦ subst (IsKept j E es) (done a s d) (IsKept-refl j E es)
      | inr d ↦
          subst (IsKept j E es) (goes a s d)
            (update-IsKept is_saved f (moved now cleaning) es k (moved-KeepsId now cleaning))
    ]
  ]
    where
      none_there : find_entry id es ≡ none → es ≡ (ensure_cleaning is_saved f now id es).1
      none_there s = ground (arith, s)

      done :
          (a : Allocation)
          → find_entry id es ≡ some a
          → state_eq a.state cleaning || is_terminal a.state ≡ true
          → es ≡ (ensure_cleaning is_saved f now id es).1
      done a s d = ground (arith, s, d)

      goes :
          (a : Allocation)
          → find_entry id es ≡ some a
          → state_eq a.state cleaning || is_terminal a.state ≡ false
          → (update is_saved f id (moved now cleaning) es).1
            ≡ (ensure_cleaning is_saved f now id es).1
      goes a s d = ground (arith, s, d)
