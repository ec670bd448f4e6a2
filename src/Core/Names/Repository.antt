-- ===== src/Core/Names/Repository.antt =====
-- What a repository name that was accepted says of its parts.
use flanforge.Base.{
  split, prepend, ℕ, ◌≡◌, refl, inl, inr, true, false, ◌==◌, none, some, Text, List, [], ◌∷◌, ◌++◌,
  get_elem?, is_some, unwrap_or, split_once, length, ◌≤◌, ok, arith, Bool-cases, Option-cases, ap,
  sym, some_inj,
}
use flanforge.Core.Names.{RepositoryName, is_unsafe_segment, new_repository_name, owner, repository}

split-none : (c : ℕ) (s : Text) → split_once c s ≡ none → split c s ≡ s ∷ []
unfolding split split_once
split-none c [] h = refl
split-none c (x ∷ s) h = elim (Bool-cases (x == c)) [
  | inl e ↦ absurd (ground arith)
  | inr e ↦ elim (Option-cases (split_once c s)) [
    | inl q ↦ rw (e, split-none c s q) refl
    | inr ((a, b), q) ↦ absurd (ground arith)
  ]
]

split-some :
    (c : ℕ) (s : Text) {a b : Text}
    → split_once c s ≡ some (a, b)
    → (split c s ≡ a ∷ split c b) × (s ≡ a ++ (c ∷ b))
unfolding split split_once
split-some c [] h = cc
split-some c (x ∷ s) {a} {b} h = elim (Bool-cases (x == c)) [
  | inl e ↦
      let parts = some_inj (rw (split_once, e) at h) in
      let pa : [] ≡ a = ap (λ (q : Text × Text). q.0) parts in
      let pb : s ≡ b = ap (λ (q : Text × Text). q.1) parts in
      let same : x ≡ c = ground arith in rw (e, ← pa, ← pb) (refl, ap (λ (k : ℕ). k ∷ s) same)
  | inr e ↦ elim (Option-cases (split_once c s)) [
    | inl q ↦ absurd (ground arith)
    | inr ((a', b'), q) ↦
        let parts = some_inj (rw (split_once, e, q) at h) in
        let pa : (x ∷ a') ≡ a = ap (λ (q : Text × Text). q.0) parts in
        let pb : b' ≡ b = ap (λ (q : Text × Text). q.1) parts in
        let (pieces, whole) = split-some c s q in
        rw (e, ← pa, ← pb, pieces) (refl, ap (λ (t : Text). x ∷ t) whole)
  ]
]

prepend-cons :
    (x : ℕ) (ts : List Text)
    → is_some (get_elem? ts 0) ≡ true
    → is_some (get_elem? (prepend x ts) 0) ≡ true
prepend-cons x [] h = absurd (ground arith)
prepend-cons x (t ∷ ts) h = refl

split-cons : (c : ℕ) (s : Text) → is_some (get_elem? (split c s) 0) ≡ true
unfolding split
split-cons c [] = refl
split-cons c (x ∷ s) = elim (Bool-cases (x == c)) [
  | inl e ↦ rw e refl
  | inr e ↦ rw e (prepend-cons x (split c s) (split-cons c s))
]

-- Two parts and no third: one separator.
two_parts : (c : ℕ) (s : Text) → is_some (get_elem? (split c s) 1) ≡ false → split c s ≡ s ∷ []
two_parts c s h = elim (Option-cases (split_once c s)) [
  | inl q ↦ split-none c s q
  | inr ((a, b), q) ↦
      let more : is_some (get_elem? (split c b) 0) ≡ false = rw (split-some c s q).0 at h in
      absurd (ground (arith, split-cons c b))
]

abbrev part : Text → ℕ → Text
part v i = unwrap_or (get_elem? (split b'/' v) i) []

accepted :
    (v : Text) {n : RepositoryName}
    → new_repository_name v ≡ ok n
    → (n ≡ v)
      × (length v ≤ 201)
      × (is_some (get_elem? (split b'/' v) 2) ≡ false)
      × (is_unsafe_segment (part v 0) ≡ false)
      × (is_unsafe_segment (part v 1) ≡ false)
unfolding new_repository_name
accepted v h = ground arith

empty-unsafe : is_unsafe_segment [] ≡ false → ⊥
unfolding is_unsafe_segment
empty-unsafe h = absurd (ground arith)

-- An accepted repository name is unchanged, at most 201 bytes long, and put together again from its
-- owner and its repository, neither of which is an unsafe segment.
pub new_repository_name-parts :
    (v : Text) {n : RepositoryName}
    → new_repository_name v ≡ ok n
    → (n ≡ v)
      × (length n ≤ 201)
      × (owner n ++ (b'/' ∷ repository n) ≡ n)
      × (is_unsafe_segment (owner n) ≡ false)
      × (is_unsafe_segment (repository n) ≡ false)
unfolding owner repository
new_repository_name-parts v {n} h =
    let (same, short, two, before, after) = accepted v h in
    elim (Option-cases (split_once b'/' v)) [
      | inl q ↦
          let one = split-none b'/' v q in absurd (ground (arith, empty-unsafe (rw one at after)))
      | inr ((a, b), q) ↦
          let (pieces, whole) = split-some b'/' v q in
          let single = two_parts b'/' b (rw pieces at two) in
          let safe : is_unsafe_segment b ≡ false = rw (pieces, single) at after in
          rw (same, owner, repository, q) (refl, short, sym whole, rw pieces at before, safe)
    ]
