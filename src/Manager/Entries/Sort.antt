-- ===== src/Manager/Entries/Sort.antt =====
-- The sort of the ended records: it keeps them, and the distinctness of their identifiers.
use flanforge.Base.{
  ℕ, zero, suc, ◌≡◌, ◌≢◌, refl, sym, ap, ◌∙◌, inl, inr, Bool, List, [], ◌∷◌, length, take, filter,
  In, In-cons, arith, Bool-cases,
}
use flanforge.Core.Source.{AllocationId}
use flanforge.Core.Allocation.{Allocation}
use flanforge.Manager.Model.{Entry, allocations}
use flanforge.Manager.Entries.{insert_by, sort, ids, key_lt}

-- No entry of the list has the identifier; no two entries share one.
abbrev pub Fresh : AllocationId → List Allocation → Type 0
Fresh id [] = Unit
Fresh id (a ∷ rest) = (a.id ≢ id) × Fresh id rest

abbrev pub Unique : List Allocation → Type 0
Unique [] = Unit
Unique (a ∷ rest) = Fresh a.id rest × Unique rest

abbrev pub entry_ids : List Entry → List AllocationId
entry_ids es = ids (allocations es)

pub Fresh-filter :
    (p : Allocation → Bool) (id : AllocationId) (xs : List Allocation)
    → Fresh id xs
    → Fresh id (filter p xs)
unfolding filter
Fresh-filter p id [] f = tt
Fresh-filter p id (x ∷ xs) (n, f) = elim (Bool-cases (p x)) [
  | inl e ↦ rw e (n, Fresh-filter p id xs f)
  | inr e ↦ rw e (Fresh-filter p id xs f)
]

pub Unique-filter :
    (p : Allocation → Bool) (xs : List Allocation) → Unique xs → Unique (filter p xs)
unfolding filter
Unique-filter p [] u = tt
Unique-filter p (x ∷ xs) (f, u) = elim (Bool-cases (p x)) [
  | inl e ↦ rw e (Fresh-filter p x.id xs f, Unique-filter p xs u)
  | inr e ↦ rw e (Unique-filter p xs u)
]

Fresh-insert_by :
    (id : AllocationId) (a : Allocation) (xs : List Allocation)
    → a.id ≢ id
    → Fresh id xs
    → Fresh id (insert_by a xs)
unfolding insert_by
Fresh-insert_by id a [] n f = (n, tt)
Fresh-insert_by id a (x ∷ xs) n (m, f) = elim (Bool-cases (key_lt x a)) [
  | inl e ↦ rw e (m, Fresh-insert_by id a xs n f)
  | inr e ↦ rw e (n, (m, f))
]

Unique-insert_by :
    (a : Allocation) (xs : List Allocation) → Fresh a.id xs → Unique xs → Unique (insert_by a xs)
unfolding insert_by
Unique-insert_by a [] f u = (tt, tt)
Unique-insert_by a (x ∷ xs) (n, f) (fx, u) = elim (Bool-cases (key_lt x a)) [
  | inl e ↦ rw e (Fresh-insert_by x.id a xs (λ q. n (sym q)) fx, Unique-insert_by a xs f u)
  | inr e ↦ rw e ((n, f), (fx, u))
]

Fresh-sort : (id : AllocationId) (xs : List Allocation) → Fresh id xs → Fresh id (sort xs)
unfolding sort
Fresh-sort id [] f = tt
Fresh-sort id (x ∷ xs) (n, f) = Fresh-insert_by id x (sort xs) n (Fresh-sort id xs f)

pub Unique-sort : (xs : List Allocation) → Unique xs → Unique (sort xs)
unfolding sort
Unique-sort [] u = tt
Unique-sort (x ∷ xs) (f, u) = Unique-insert_by x (sort xs) (Fresh-sort x.id xs f) (Unique-sort xs u)

Fresh-take : (id : AllocationId) (n : ℕ) (xs : List Allocation) → Fresh id xs → Fresh id (take n xs)
Fresh-take id zero xs f = tt
Fresh-take id (suc n) [] f = tt
Fresh-take id (suc n) (x ∷ xs) (m, f) = (m, Fresh-take id n xs f)

pub Unique-take : (n : ℕ) (xs : List Allocation) → Unique xs → Unique (take n xs)
Unique-take zero xs u = tt
Unique-take (suc n) [] u = tt
Unique-take (suc n) (x ∷ xs) (f, u) = (Fresh-take x.id n xs f, Unique-take n xs u)

In-insert_by :
    (a : Allocation) (xs : List Allocation) {b : Allocation} → In b (insert_by a xs) → In b (a ∷ xs)
unfolding insert_by
In-insert_by a [] i = i
In-insert_by a (x ∷ xs) {b} i = elim (Bool-cases (key_lt x a)) [
  | inl e ↦ elim (In-cons (rw e at i)) [
    | inl h ↦ In.there (In.here h)
    | inr j ↦ elim (In-cons (In-insert_by a xs j)) [
      | inl h ↦ In.here h
      | inr k ↦ In.there (In.there k)
    ]
  ]
  | inr e ↦ rw e at i
]

pub In-sort : (xs : List Allocation) {b : Allocation} → In b (sort xs) → In b xs
unfolding sort
In-sort [] i = i
In-sort (x ∷ xs) i = elim (In-cons (In-insert_by x (sort xs) i)) [
  | inl h ↦ In.here h
  | inr j ↦ In.there (In-sort xs j)
]

length-insert_by :
    (a : Allocation) (xs : List Allocation) → length (insert_by a xs) ≡ suc (length xs)
unfolding insert_by
length-insert_by a [] = refl
length-insert_by a (x ∷ xs) = ground (arith, length-insert_by a xs)

pub length-sort : (xs : List Allocation) → length (sort xs) ≡ length xs
unfolding sort
length-sort [] = refl
length-sort (x ∷ xs) = length-insert_by x (sort xs) ∙ ap suc (length-sort xs)

pub ids-take : (n : ℕ) (xs : List Allocation) → take n (ids xs) ≡ ids (take n xs)
ids-take zero xs = refl
ids-take (suc n) [] = refl
ids-take (suc n) (x ∷ xs) = ap (λ (t : List AllocationId). x.id ∷ t) (ids-take n xs)
