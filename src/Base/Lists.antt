-- ===== src/Base/Lists.antt =====
-- Lists measured by native numbers, and the iterator methods with a Boolean test.
use Prim.Native.Nat.{ℕ, zero, suc, ◌+◌, ◌≤◌, ◌<◌}
use mathlib.Core.Path.{◌≡◌, refl, ap, subst, ◌∙◌}
use mathlib.Core.Logic.{◌⊎◌, inl, inr}
use mathlib.Core.Bool.{Bool, true, false, ◌&&◌, ◌||◌}
use mathlib.Core.List.{List, [], ◌∷◌, ◌++◌, map}
use mathlib.Core.Option.{Option, none, some, some-injective as some_inj_of}
use native.Mathlib.Omega.{arith}
use flanforge.Base.Tests.{if◌then◌else◌, Bool-cases}

module _ {ℓ} {A : Type ℓ} where
  abbrev pub length : List A → ℕ
  length [] = 0
  length (x ∷ xs) = suc (length xs)

  abbrev pub get_elem? : List A → ℕ → Option A
  get_elem? [] i = none
  get_elem? (x ∷ xs) zero = some x
  get_elem? (x ∷ xs) (suc i) = get_elem? xs i

  abbrev pub drop : ℕ → List A → List A
  drop zero xs = xs
  drop (suc n) [] = []
  drop (suc n) (x ∷ xs) = drop n xs

  abbrev pub take : ℕ → List A → List A
  take zero xs = []
  take (suc n) [] = []
  take (suc n) (x ∷ xs) = x ∷ take n xs

  pub length-append : (xs ys : List A) → length (xs ++ ys) ≡ length xs + length ys
  length-append [] ys = omega arith
  length-append (x ∷ xs) ys = omega (arith, length-append xs ys)

  pub get_elem?-drop :
      (xs : List A) (i : ℕ) {x : A} → get_elem? xs i ≡ some x → drop i xs ≡ x ∷ drop (suc i) xs
  get_elem?-drop [] i h = cc
  get_elem?-drop (y ∷ xs) zero h = cc
  get_elem?-drop (y ∷ xs) (suc i) h = get_elem?-drop xs i h

  pub get_elem?-drop_end : (xs : List A) (i : ℕ) → get_elem? xs i ≡ none → drop i xs ≡ []
  get_elem?-drop_end [] zero h = refl
  get_elem?-drop_end [] (suc i) h = refl
  get_elem?-drop_end (y ∷ xs) zero h = cc
  get_elem?-drop_end (y ∷ xs) (suc i) h = get_elem?-drop_end xs i h

  pub get_elem?-lt : (xs : List A) (i : ℕ) {x : A} → get_elem? xs i ≡ some x → i < length xs
  get_elem?-lt [] i h = cc
  get_elem?-lt (y ∷ xs) zero h = omega arith
  get_elem?-lt (y ∷ xs) (suc i) h = omega (arith, get_elem?-lt xs i h)

  pub get_elem?_total : (xs : List A) (i : ℕ) → i < length xs → (x : A) × (get_elem? xs i ≡ some x)
  get_elem?_total [] i h = absurd (omega arith)
  get_elem?_total (y ∷ xs) zero h = (y, refl)
  get_elem?_total (y ∷ xs) (suc i) h = get_elem?_total xs i (omega arith)

  pub drop_end : (xs : List A) (i : ℕ) → length xs ≤ i → drop i xs ≡ []
  drop_end [] zero h = refl
  drop_end [] (suc i) h = refl
  drop_end (y ∷ xs) zero h = absurd (omega arith)
  drop_end (y ∷ xs) (suc i) h = drop_end xs i (omega arith)

  -- The iterator methods `any`, `all`, `find`, `filter` and `count` of a Rust closure.
  unfoldable pub any : (A → Bool) → List A → Bool
  any p [] = false
  any p (x ∷ xs) = p x || any p xs

  unfoldable pub all : (A → Bool) → List A → Bool
  all p [] = true
  all p (x ∷ xs) = p x && all p xs

  unfoldable pub find : (A → Bool) → List A → Option A
  find p [] = none
  find p (x ∷ xs) = if p x then some x else find p xs

  unfoldable pub filter : (A → Bool) → List A → List A
  filter p [] = []
  filter p (x ∷ xs) = let rest = filter p xs in if p x then x ∷ rest else rest

  -- Membership as a type: the position of the element is kept.
  pub data In (a : A) : List A → Type ℓ where
    here : {b : A} {xs : List A} → b ≡ a → In a (b ∷ xs)
    there : {b : A} {xs : List A} → In a xs → In a (b ∷ xs)

  pub not-In_nil : (a : A) → ¬ In a []
  not-In_nil a h = elim h [ ]

module _ {ℓ κ} {A : Type ℓ} {B : Type κ} where
  -- `Iterator::fold`
  unfoldable pub fold : (B → A → B) → B → List A → B
  fold f acc [] = acc
  fold f acc (x ∷ xs) = fold f (f acc x) xs

  unfoldable pub filter_map : (A → Option B) → List A → List B
  filter_map f [] = []
  filter_map f (x ∷ xs) =
      let rest = filter_map f xs in elim (f x) [ some y ↦ y ∷ rest | none ↦ rest ]

  pub length-filter_map-le : (f : A → Option B) (xs : List A) → length (filter_map f xs) ≤ length xs
  unfolding filter_map
  length-filter_map-le f [] = omega arith
  length-filter_map-le f (x ∷ xs) = ground (arith, length-filter_map-le f xs)

module _ {ℓ} {A : Type ℓ} where
  pub length-filter-le : (p : A → Bool) (xs : List A) → length (filter p xs) ≤ length xs
  unfolding filter
  length-filter-le p [] = omega arith
  length-filter-le p (x ∷ xs) = ground (arith, length-filter-le p xs)

  -- A stronger test keeps no more elements.
  pub length-filter_mono :
      (p q : A → Bool)
      → ((x : A) → p x ≡ true → q x ≡ true)
      → (xs : List A) → length (filter p xs) ≤ length (filter q xs)
  unfolding filter
  length-filter_mono p q h [] = omega arith
  length-filter_mono p q h (x ∷ xs) = ground (arith, h x, length-filter_mono p q h xs)

  pub length-map {κ} : {B : Type κ} (xs : List A) (f : A → B) → length (map f xs) ≡ length xs
  length-map [] f = refl
  length-map (x ∷ xs) f = ap suc (length-map xs f)

-- A property of every element.
abbrev pub All {ℓ κ} : {A : Type ℓ} → (A → Type κ) → List A → Type κ
All P [] = Unit
All P (x ∷ xs) = P x × All P xs

pub All-append {ℓ κ} :
    {A : Type ℓ} (P : A → Type κ) (xs ys : List A) → All P (xs ++ ys) → All P xs × All P ys
All-append P [] ys h = (tt, h)
All-append P (x ∷ xs) ys h = let (l, r) = All-append P xs ys h.1 in ((h.0, l), r)

pub some_inj {ℓ} : {A : Type ℓ} {a b : A} → some a ≡ some b → a ≡ b
some_inj {a} {b} h = some_inj_of a b h

module _ {ℓ} {A : Type ℓ} where
  -- `Iterator::max_by` and `min_by`: `keep a b` says that `a` stays the choice when `b` comes.
  unfoldable pub best_by : (A → A → Bool) → List A → Option A
  unfolding fold
  best_by keep [] = none
  best_by keep (x ∷ xs) = some (fold (λ best y. if keep best y then best else y) x xs)

  pub In-cons : {x y : A} {xs : List A} → In x (y ∷ xs) → (y ≡ x) ⊎ In x xs
  In-cons (In.here e) = inl e
  In-cons (In.there i) = inr i

  pub In-take : (n : ℕ) (xs : List A) {a : A} → In a (take n xs) → In a xs
  In-take zero xs i = absurd (not-In_nil _ i)
  In-take (suc n) [] i = i
  In-take (suc n) (x ∷ xs) i = elim (In-cons i) [
    | inl e ↦ In.here e
    | inr j ↦ In.there (In-take n xs j)
  ]

  -- What `filter` keeps is an element that passes the test, and it keeps all of those.
  pub In-filter : (p : A → Bool) (xs : List A) {x : A} → In x (filter p xs) → In x xs × (p x ≡ true)
  unfolding filter
  In-filter p [] h = absurd (not-In_nil _ h)
  In-filter p (y ∷ xs) {x} h = elim (Bool-cases (p y)) [
    | inl e ↦ elim (In-cons (rw e at h)) [
      | inl same ↦ (In.here same, rw (← same) e)
      | inr i ↦ let (j, q) = In-filter p xs i in (In.there j, q)
    ]
    | inr e ↦ let (j, q) = In-filter p xs (rw e at h) in (In.there j, q)
  ]

  pub filter-In : (p : A → Bool) (xs : List A) {x : A} → In x xs → p x ≡ true → In x (filter p xs)
  unfolding filter
  filter-In p [] i e = elim i [ ]
  filter-In p (y ∷ xs) (In.here same) e = rw (ap p same ∙ e) (In.here same)
  filter-In p (y ∷ xs) (In.there i) e = elim (Bool-cases (p y)) [
    | inl kept ↦ rw kept (In.there (filter-In p xs i e))
    | inr dropped ↦ rw dropped (filter-In p xs i e)
  ]

  fold-best_In :
      (keep : A → A → Bool) (x : A) (xs : List A)
      → In (fold (λ best y. if keep best y then best else y) x xs) (x ∷ xs)
  unfolding fold
  fold-best_In keep x [] = In.here refl
  fold-best_In keep x (y ∷ xs) = elim (Bool-cases (keep x y)) [
    | inl e ↦ rw e (elim (In-cons (fold-best_In keep x xs)) [
      | inl same ↦ In.here same
      | inr i ↦ In.there (In.there i)
    ])
    | inr e ↦ rw e (In.there (fold-best_In keep y xs))
  ]

  -- The choice is an element of the list, and an empty list is the only one with none.
  pub best_by-In : (keep : A → A → Bool) (xs : List A) {b : A} → best_by keep xs ≡ some b → In b xs
  unfolding best_by
  best_by-In keep [] h = cc
  best_by-In keep (x ∷ xs) h = subst (λ c. In c (x ∷ xs)) (some_inj h) (fold-best_In keep x xs)

  pub best_by-none : (keep : A → A → Bool) (xs : List A) → best_by keep xs ≡ none → xs ≡ []
  unfolding best_by
  best_by-none keep [] h = refl
  best_by-none keep (x ∷ xs) h = cc

  pub find-In : (p : A → Bool) (xs : List A) {x : A} → find p xs ≡ some x → In x xs × (p x ≡ true)
  unfolding find
  find-In p [] h = cc
  find-In p (y ∷ xs) {x} h = elim (Bool-cases (p y)) [
    | inl e ↦ let same = some_inj (rw e at h) in (In.here same, rw (← same) e)
    | inr e ↦ let (i, q) = find-In p xs (rw e at h) in (In.there i, q)
  ]

  pub find-none : (p : A → Bool) (xs : List A) {x : A} → find p xs ≡ none → In x xs → p x ≡ false
  unfolding find
  find-none p [] h i = elim i [ ]
  find-none p (y ∷ xs) {x} h i = elim (Bool-cases (p y)) [
    | inl e ↦ absurd (none_is_not (rw e at h))
    | inr e ↦ elim (In-cons i) [ inl same ↦ rw (← same) e | inr j ↦ find-none p xs (rw e at h) j ]
  ]
    where
      none_is_not : some y ≡ none → ⊥
      none_is_not q = cc

-- A measure that the choice's test respects is greatest at the choice.
module _ {ℓ} {A : Type ℓ} (measure : A → ℕ) (keep : A → A → Bool) where
  fold-best_max :
      ((a b : A) → keep a b ≡ true → measure b ≤ measure a)
      → ((a b : A) → keep a b ≡ false → measure a ≤ measure b)
      → (x : A) (xs : List A) {y : A} → In y (x ∷ xs)
      → measure y ≤ measure (fold (λ best y. if keep best y then best else y) x xs)
  unfolding fold
  fold-best_max up down x [] {y} i = elim (In-cons i) [
    | inl same ↦ rw (← same) (omega arith)
    | inr j ↦ elim (not-In_nil _ j) [ ]
  ]
  fold-best_max up down x (z ∷ xs) {y} i = elim (Bool-cases (keep x z)) [
    | inl e ↦ rw e (elim (In-cons i) [
      | inl same ↦ fold-best_max up down x xs (In.here same)
      | inr j ↦ elim (In-cons j) [
        | inl same ↦
            omega
              (arith, up x z e, ap measure same, fold-best_max up down x xs {y = x} (In.here refl))
        | inr k ↦ fold-best_max up down x xs (In.there k)
      ]
    ])
    | inr e ↦ rw e (elim (In-cons i) [
      | inl same ↦
          omega
            (arith, down x z e, ap measure same, fold-best_max up down z xs {y = z} (In.here refl))
      | inr j ↦ fold-best_max up down z xs j
    ])
  ]

  pub best_by_max :
      ((a b : A) → keep a b ≡ true → measure b ≤ measure a)
      → ((a b : A) → keep a b ≡ false → measure a ≤ measure b)
      → (xs : List A) {b y : A} → best_by keep xs ≡ some b
      → In y xs
      → measure y ≤ measure b
  unfolding best_by
  best_by_max up down [] h i = cc
  best_by_max up down (x ∷ xs) {b} {y} h i =
      subst (λ c. measure y ≤ measure c) (some_inj h) (fold-best_max up down x xs i)
