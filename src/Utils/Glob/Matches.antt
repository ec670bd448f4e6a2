-- ===== src/Utils/Glob/Matches.antt =====
-- What a pattern means, without a loop.
use flanforge.Base.{
  ℕ, ◌+◌, ◌-◌, ◌≤◌, ◌<◌, ◌≡◌, inl, inr, refl, sym, ◌∙◌, true, false, Text, [], ◌∷◌, some, all,
  length, get_elem?, drop, arith, ◌↔◌, get_elem?-drop, get_elem?-lt, Bool-cases, zero, suc,
  Option-cases, get_elem?-drop_end,
}
use flanforge.Utils.Glob.{is_star, accepts}

-- A star takes any run of bytes, a question mark one byte, and any other byte itself.
pub data Matches : Text → Text → Type 0 where
  nothing : Matches [] []
  skip : {c : ℕ} {p s : Text} → is_star c ≡ true → Matches p s → Matches (c ∷ p) s
  take : {c b : ℕ} {p s : Text} → is_star c ≡ true → Matches (c ∷ p) s → Matches (c ∷ p) (b ∷ s)
  one :
      {c b : ℕ} {p s : Text}
      → is_star c ≡ false
      → accepts c b ≡ true
      → Matches p s
      → Matches (c ∷ p) (b ∷ s)

-- What is left to match at two positions.
abbrev pub At : Text → Text → ℕ → ℕ → Type 0
At pattern value i j = Matches (drop i pattern) (drop j value)

pub one_inv :
    {c b : ℕ} {p s : Text}
    → Matches (c ∷ p) (b ∷ s)
    → is_star c ≡ false
    → (accepts c b ≡ true) × Matches p s
one_inv (skip e m) h = cc
one_inv (take e m) h = cc
one_inv (one e a m) h = (a, m)

pub one_end : {c : ℕ} {p : Text} → Matches (c ∷ p) [] → is_star c ≡ false → ⊥
one_end (skip e m) h = cc

pub skip_end : {c : ℕ} {p : Text} → Matches (c ∷ p) [] → Matches p []
skip_end (skip e m) = m

pub empty_end : {b : ℕ} {s : Text} → ¬ Matches [] (b ∷ s)
empty_end m = elim m [ ]

-- A star's match is one of the rest, at some later position.
pub star_inv :
    {c : ℕ} {p s : Text}
    → is_star c ≡ true
    → Matches (c ∷ p) s
    → (n : ℕ) × (n ≤ length s) × Matches p (drop n s)
star_inv {p} {s} h (skip e m) = (0, omega arith, m)
star_inv h (take {b} {s} e m) = let (n, le, r) = star_inv h m in (suc n, omega arith, r)
star_inv h (one e a m) = cc

-- A star that matches from a position matches from any earlier one.
pub star_absorb :
    {c : ℕ} {p : Text} (s : Text) (n : ℕ)
    → is_star c ≡ true
    → n ≤ length s
    → Matches (c ∷ p) (drop n s)
    → Matches (c ∷ p) s
star_absorb s zero e le m = m
star_absorb [] (suc n) e le m = absurd (omega arith)
star_absorb (b ∷ s) (suc n) e le m = take e (star_absorb s n e (omega arith) m)

pub all_stars : (p : Text) → (all is_star p ≡ true) ↔ Matches p []
unfolding all
all_stars [] = (λ h. nothing, λ m. refl)
all_stars (c ∷ p) = elim (Bool-cases (is_star c)) [
  | inl e ↦ (
    λ h. skip e ((all_stars p).0 (ground arith)),
    λ m. ground (arith, (all_stars p).1 (skip_end m)),
  )
  | inr e ↦ (λ h. absurd (ground arith), λ m. absurd (one_end m e))
]

pub drop_next :
    (xs : Text) (i : ℕ) {x : ℕ} → get_elem? xs i ≡ some x → drop i xs ≡ x ∷ drop (i + 1) xs
drop_next xs i h = let next : i + 1 ≡ suc i = omega arith in rw next (get_elem?-drop xs i h)

length-drop : (xs : Text) (i : ℕ) → length (drop i xs) ≡ length xs - i
length-drop xs zero = omega arith
length-drop [] (suc i) = omega arith
length-drop (x ∷ xs) (suc i) = omega (arith, length-drop xs i)

drop_nil : (n : ℕ) → drop {A = ℕ} n [] ≡ []
drop_nil zero = refl
drop_nil (suc n) = refl

drop-drop : (xs : Text) (i n : ℕ) → drop n (drop i xs) ≡ drop (i + n) xs
drop-drop xs zero n = let e : 0 + n ≡ n = omega arith in rw e refl
drop-drop [] (suc i) n = drop_nil n ∙ sym (drop_nil (suc i + n))
drop-drop (x ∷ xs) (suc i) n =
    let e : suc i + n ≡ suc (i + n) = omega arith in rw e (drop-drop xs i n)

-- The same facts at positions, where `c` stands at `i` in the pattern.
module _ (pattern value : Text) (i : ℕ) {c : ℕ} (there : get_elem? pattern i ≡ some c) where
  pub At-one :
      (j : ℕ) {b : ℕ}
      → get_elem? value j ≡ some b
      → is_star c ≡ false
      → accepts c b ≡ true
      → At pattern value (i + 1) (j + 1)
      → At pattern value i j
  At-one j v e a m = rw (drop_next pattern i there, drop_next value j v) (one e a m)

  pub At-one_inv :
      (j : ℕ) {b : ℕ}
      → get_elem? value j ≡ some b
      → is_star c ≡ false
      → At pattern value i j
      → (accepts c b ≡ true) × At pattern value (i + 1) (j + 1)
  At-one_inv j v e m = one_inv (rw (drop_next pattern i there, drop_next value j v) at m) e

  pub At-skip : (j : ℕ) → is_star c ≡ true → At pattern value (i + 1) j → At pattern value i j
  At-skip j e m = rw (drop_next pattern i there) (skip e m)

  pub At-star_inv :
      (j : ℕ)
      → j ≤ length value
      → is_star c ≡ true
      → At pattern value i j
      → (k : ℕ) × (j ≤ k) × (k ≤ length value) × At pattern value (i + 1) k
  At-star_inv j le e m =
      let (n, short, rest) = star_inv e (rw (drop_next pattern i there) at m) in
      (j + n, omega arith, omega (arith, length-drop value j), rw (← drop-drop value j n) rest)

  pub At-star_absorb :
      (j k : ℕ)
      → j ≤ k
      → k ≤ length value
      → is_star c ≡ true
      → At pattern value i k
      → At pattern value i j
  At-star_absorb j k le short e m =
      let same : j + (k - j) ≡ k = omega arith in
      rw (drop_next pattern i there) (
        star_absorb (drop j value) (k - j) e (omega (arith, length-drop value j))
          (rw (drop-drop value j (k - j), same, ← drop_next pattern i there) m))

  -- A byte other than a star is taken by some later byte or by none.
  pub At-one_later :
      (k : ℕ)
      → is_star c ≡ false
      → At pattern value i k
      → (k < length value) × At pattern value (i + 1) (k + 1)
  At-one_later k e m = elim (Option-cases (get_elem? value k)) [
    | inl end ↦
        absurd (one_end (rw (drop_next pattern i there, get_elem?-drop_end value k end) at m) e)
    | inr (b, v) ↦ (get_elem?-lt value k v, (At-one_inv k v e m).1)
  ]
