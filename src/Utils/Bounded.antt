-- ===== src/Utils/Bounded.antt =====
-- `bounded_text` of crates/flanforge-utils/src/lib.rs.
use flanforge.Base.{
  ℕ, zero, suc, ◌≤◌, ◌≡◌, refl, sym, ap, subst, ◌⊎◌, Bool, true, false, none, some, Text, [], ◌∷◌,
  length, take, get_elem?, leb, if◌then◌else◌, is_char_start, arith, Bool-cases, inl, inr, ◌==◌,
  ◌||◌,
}

-- `str::is_char_boundary`
abbrev pub is_char_boundary : Text → ℕ → Bool
is_char_boundary value i =
    i == 0 || (elim (get_elem? value i) [ none ↦ i == length value | some b ↦ is_char_start b ])

-- The loop steps down until a boundary; at zero it stops, since zero is one.
unfoldable pub boundary : Text → ℕ → ℕ
boundary value zero = zero
boundary value (suc i) =
    let lower = boundary value i in if is_char_boundary value (suc i) then suc i else lower

unfoldable pub bounded_text : Text → ℕ → Text
unfolding boundary
bounded_text value max_bytes =
    if leb (length value) max_bytes then value else take (boundary value max_bytes) value

-- The last boundary at or before an index.
abbrev Last : Text → ℕ → ℕ → Type 0
Last value i n =
    (n ≤ i)
    × (is_char_boundary value n ≡ true)
    × ((j : ℕ) → j ≤ i → is_char_boundary value j ≡ true → j ≤ n)

at_boundary :
    (value : Text) (i : ℕ) → is_char_boundary value (suc i) ≡ true → boundary value (suc i) ≡ suc i
unfolding boundary
at_boundary value i h = rw h refl

below_boundary :
    (value : Text) (i : ℕ)
    → is_char_boundary value (suc i) ≡ false
    → boundary value (suc i) ≡ boundary value i
unfolding boundary
below_boundary value i h = rw h refl

boundary_lem : (value : Text) (i : ℕ) → Last value i (boundary value i)
unfolding boundary
boundary_lem value zero = (omega arith, refl, λ j le h. le)
boundary_lem value (suc i) =
    let (below, hit, last) = boundary_lem value i in
    elim (Bool-cases (is_char_boundary value (suc i))) [
      | inl e ↦
          subst (Last value (suc i)) (sym (at_boundary value i e)) (omega arith, e, λ j le h. le)
      | inr e ↦ subst (Last value (suc i)) (sym (below_boundary value i e)) (
        omega arith,
        hit,
        λ j le h. elim (le-cases j i le) [
          | inl small ↦ last j small h
          | inr same ↦
              let no : is_char_boundary value j ≡ false =
                subst (λ k. is_char_boundary value k ≡ false) (sym same) e in
              absurd (ground arith)
        ],
      )
    ]
  where
    le-cases : (j i : ℕ) → j ≤ suc i → (j ≤ i) ⊎ (j ≡ suc i)
    le-cases j i le = ground arith

past_end : (value : Text) → get_elem? value (length value) ≡ none
past_end [] = refl
past_end (x ∷ s) = past_end s

end_is_boundary : (value : Text) → is_char_boundary value (length value) ≡ true
end_is_boundary value = ground (arith, past_end value)

take_all : (value : Text) → take (length value) value ≡ value
take_all [] = refl
take_all (x ∷ s) = ap (λ (t : Text). x ∷ t) (take_all s)

length-take : (n : ℕ) (value : Text) → n ≤ length value → length (take n value) ≡ n
length-take zero value h = refl
length-take (suc n) [] h = absurd (omega arith)
length-take (suc n) (x ∷ s) h = omega (arith, length-take n s (omega arith))

-- A bounded text is a prefix of the value that fits the bound and ends between two characters, and
-- no longer prefix does both.
pub bounded_text-Longest :
    (value : Text) (max_bytes : ℕ)
    → (n : ℕ) × (bounded_text value max_bytes ≡ take n value)
      × (length (bounded_text value max_bytes) ≡ n)
      × (n ≤ max_bytes)
      × (is_char_boundary value n ≡ true)
      × ((j : ℕ) → j ≤ max_bytes → j ≤ length value → is_char_boundary value j ≡ true → j ≤ n)
unfolding bounded_text
bounded_text-Longest value max_bytes = elim (Bool-cases (leb (length value) max_bytes)) [
  | inl e ↦ (
    length value,
    rw e (sym (take_all value)),
    rw e refl,
    ground arith,
    end_is_boundary value,
    λ j small fits h. fits,
  )
  | inr e ↦
      let (below, hit, last) = boundary_lem value max_bytes in
      (
        boundary value max_bytes,
        rw e refl,
        rw e (length-take _ value (ground arith)),
        below,
        hit,
        λ j small fits h. last j small h,
      )
]
