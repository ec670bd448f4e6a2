-- ===== src/Manager/Entries/Prune.antt =====
-- What the trim of the history keeps.
use flanforge.Base.{
  ℕ, zero, suc, ◌+◌, ◌-◌, ◌≤◌, ◌≡◌, ◌≢◌, refl, subst, min, sym, ap, ◌∙◌, inl, inr, true, false,
  ◌==◌, max, List, [], ◌∷◌, length, take, filter, In, In-cons, not-In_nil, In-filter, In-take,
  arith, Bool-cases,
}
use flanforge.Core.Source.{AllocationId}
use flanforge.Core.Allocation.{Allocation, is_terminal}
use flanforge.Manager.Model.{Entry, allocations}
use flanforge.Manager.Admission.{active_allocations}
use flanforge.Manager.Entries.{
  has_id, remove_entry, sort, remove_all, ended, ids, prune_terminal_history,
}
use flanforge.Manager.Entries.Sort.{
  Fresh, Unique, Unique-filter, Unique-sort, Unique-take, In-sort, length-sort, ids-take,
}

Fresh-remove :
    (id j : AllocationId) (es : List Entry)
    → Fresh id (allocations es)
    → Fresh id (allocations (remove_entry j es))
unfolding remove_entry filter
Fresh-remove id j [] f = tt
Fresh-remove id j (e ∷ es) (n, f) = elim (Bool-cases (has_id j e)) [
  | inl h ↦ rw h (Fresh-remove id j es f)
  | inr h ↦ rw h (n, Fresh-remove id j es f)
]

pub Unique-remove :
    (j : AllocationId) (es : List Entry)
    → Unique (allocations es)
    → Unique (allocations (remove_entry j es))
unfolding remove_entry filter
Unique-remove j [] u = tt
Unique-remove j (e ∷ es) (f, u) = elim (Bool-cases (has_id j e)) [
  | inl h ↦ rw h (Unique-remove j es u)
  | inr h ↦ rw h (Fresh-remove e.allocation.id j es f, Unique-remove j es u)
]

pub remove-Fresh : (j : AllocationId) (es : List Entry) → Fresh j (allocations (remove_entry j es))
unfolding remove_entry filter
remove-Fresh j [] = tt
remove-Fresh j (e ∷ es) = elim (Bool-cases (has_id j e)) [
  | inl h ↦ rw h (remove-Fresh j es)
  | inr h ↦ rw h (λ q. ground arith, remove-Fresh j es)
]

remove_absent :
    (j : AllocationId) (es : List Entry) → Fresh j (allocations es) → remove_entry j es ≡ es
unfolding remove_entry filter
remove_absent j [] f = refl
remove_absent j (e ∷ es) (n, f) =
    let miss : has_id j e ≡ false = ground arith in
    rw miss (ap (λ (t : List Entry). e ∷ t) (remove_absent j es f))

pub Fresh-In :
    (j : AllocationId) (xs : List Allocation) {a : Allocation} → Fresh j xs → In a xs → a.id ≢ j
Fresh-In j [] f i = absurd (not-In_nil _ i)
Fresh-In j (x ∷ xs) (n, f) i = elim (In-cons i) [
  | inl e ↦ λ q. n (ap (λ (a : Allocation). a.id) e ∙ q)
  | inr k ↦ Fresh-In j xs f k
]

active_cons :
    (e : Entry) (es fs : List Entry)
    → active_allocations es ≡ active_allocations fs
    → active_allocations (e ∷ es) ≡ active_allocations (e ∷ fs)
unfolding active_allocations filter
active_cons e es fs h = elim (Bool-cases (is_terminal e.allocation.state)) [
  | inl t ↦ rw t h
  | inr t ↦ rw t (ap (λ (t : List Allocation). e.allocation ∷ t) h)
]

-- The removal of a record that has ended.
module _ (a : Allocation) (over : is_terminal a.state ≡ true) where
  remove_active :
      (es : List Entry)
      → Unique (allocations es)
      → In a (allocations es)
      → active_allocations (remove_entry a.id es) ≡ active_allocations es
  unfolding remove_entry filter active_allocations
  remove_active [] u i = absurd (not-In_nil a i)
  remove_active (e ∷ es) (f, u) i = elim (In-cons i) [
    | inl same ↦
        let ids_meet : e.allocation.id ≡ a.id = ap (λ (b : Allocation). b.id) same in
        let hit : has_id a.id e ≡ true = ground arith in
        let ends : is_terminal e.allocation.state ≡ true =
          ap (λ (b : Allocation). is_terminal b.state) same ∙ over in
        let absent = remove_absent a.id es (subst (λ k. Fresh k (allocations es)) ids_meet f) in
        rw (hit, ends) (ap active_allocations absent)
    | inr j ↦
        let apart : a.id ≢ e.allocation.id = Fresh-In e.allocation.id (allocations es) f j in
        let miss : has_id a.id e ≡ false = ground arith in
        rw miss (active_cons e _ _ (remove_active es u j))
  ]

  remove_length :
      (es : List Entry)
      → Unique (allocations es)
      → In a (allocations es)
      → suc (length (remove_entry a.id es)) ≡ length es
  unfolding remove_entry filter
  remove_length [] u i = absurd (not-In_nil a i)
  remove_length (e ∷ es) (f, u) i = elim (In-cons i) [
    | inl same ↦
        let ids_meet : e.allocation.id ≡ a.id = ap (λ (b : Allocation). b.id) same in
        let hit : has_id a.id e ≡ true = ground arith in
        let absent = remove_absent a.id es (subst (λ k. Fresh k (allocations es)) ids_meet f) in
        rw hit (ap (λ (t : List Entry). suc (length t)) absent)
    | inr j ↦
        let apart : a.id ≢ e.allocation.id = Fresh-In e.allocation.id (allocations es) f j in
        let miss : has_id a.id e ≡ false = ground arith in rw miss (ap suc (remove_length es u j))
  ]

In-remove :
    (j : AllocationId) (es : List Entry) {b : Allocation}
    → b.id ≢ j
    → In b (allocations es)
    → In b (allocations (remove_entry j es))
unfolding remove_entry filter
In-remove j [] n i = i
In-remove j (e ∷ es) {b} n i = elim (In-cons i) [
  | inl same ↦
      let apart : e.allocation.id ≢ j = λ q. n (sym (ap (λ (a : Allocation). a.id) same) ∙ q) in
      let miss : has_id j e ≡ false = ground arith in rw miss (In.here same)
  | inr k ↦ elim (Bool-cases (has_id j e)) [
    | inl h ↦ rw h (In-remove j es n k)
    | inr h ↦ rw h (In.there (In-remove j es n k))
  ]
]

-- Records of the list that have all ended, each once.
abbrev Removable : List Allocation → List Entry → Type 0
Removable xs es = (a : Allocation) → In a xs → In a (allocations es) × (is_terminal a.state ≡ true)

remove_all_lem :
    (xs : List Allocation) (es : List Entry)
    → Unique xs
    → Unique (allocations es)
    → Removable xs es
    → (active_allocations (remove_all (ids xs) es) ≡ active_allocations es)
      × (length (remove_all (ids xs) es) + length xs ≡ length es)
      × Unique (allocations (remove_all (ids xs) es))
unfolding remove_all
remove_all_lem [] es d u r = (refl, omega arith, u)
remove_all_lem (x ∷ xs) es (f, d) u r =
    let (i, over) = r x (In.here refl) in
    let fewer = remove_length x over es u i in
    let (active, count, unique) =
      remove_all_lem xs (remove_entry x.id es) d (Unique-remove x.id es u)
        (λ a j. let (k, t) = r a (In.there j) in (In-remove x.id es (Fresh-In x.id xs f j) k, t)) in
    (active ∙ remove_active x over es u i, omega arith, unique)

length-active : (es : List Entry) → length (active_allocations es) + length (ended es) ≡ length es
unfolding active_allocations filter
length-active [] = refl
length-active (e ∷ es) = ground (arith, length-active es)

length-take : (n : ℕ) (xs : List Allocation) → length (take n xs) ≡ min n (length xs)
length-take zero xs = omega arith
length-take (suc n) [] = omega arith
length-take (suc n) (x ∷ xs) = omega (arith, length-take n xs)

-- Trimming the history keeps every live allocation, in order, and leaves no more entries than the
-- limit or than the live allocations, whichever is more; a history within the limit stays as it is.
-- The entries have to have distinct identifiers, as the keys of a map do, and they keep them.
pub prune_terminal_history-Kept :
    (es : List Entry) (limit : ℕ)
    → Unique (allocations es)
    → (active_allocations (prune_terminal_history es limit) ≡ active_allocations es)
      × (length (prune_terminal_history es limit) ≤ max limit (length (active_allocations es)))
      × (length es ≤ limit → prune_terminal_history es limit ≡ es)
      × Unique (allocations (prune_terminal_history es limit))
unfolding prune_terminal_history
prune_terminal_history-Kept es limit u = elim (Bool-cases ((length es - limit) == 0)) [
  | inl e ↦ rw e (refl, ground arith, λ h. refl, u)
  | inr e ↦
      let xs = take (length es - limit) (sort (ended es)) in
      let d = Unique-take _ _ (Unique-sort _ (Unique-filter _ _ u)) in
      let (active, count, unique) =
        remove_all_lem xs es d u (λ a i. In-filter _ _ (In-sort _ (In-take _ _ i))) in
      let size = length-take (length es - limit) (sort (ended es)) in
      rw (e, ids-take)
        (
          active,
          omega (arith, length-active es, length-sort (ended es)),
          λ h. absurd (ground arith),
          unique,
        )
]
