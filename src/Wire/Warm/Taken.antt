-- ===== src/Wire/Warm/Taken.antt =====
-- The removal of one superseded pointer, as a relation on lists.
use flanforge.Base.{
  ℕ, suc, ◌≡◌, ◌≢◌, refl, ap, ◌∙◌, ◌↔◌, ◌⊎◌, inl, inr, false, ◌==◌, Bool-cases, Option-cases,
  Option, none, some, some_inj, In, In-cons, not-In_nil, All, Text, text_eq, List, [], ◌∷◌, length,
  arith, subst,
}
use flanforge.Wire.Pointer.{VolumePointer, is_same_volume}
use flanforge.Wire.Warm.{removed}
use flanforge.Wire.Warm.Valid.{Apart}

text_eq_sym : (s t : Text) → text_eq s t ≡ text_eq t s
unfolding text_eq
text_eq_sym [] [] = refl
text_eq_sym [] (y ∷ t) = refl
text_eq_sym (x ∷ s) [] = refl
text_eq_sym (x ∷ s) (y ∷ t) = ground (arith, text_eq_sym s t)

pub is_same_volume_sym : (p q : VolumePointer) → is_same_volume p q ≡ is_same_volume q p
unfolding is_same_volume
is_same_volume_sym p q =
    ground (arith, text_eq_sym p.volume_name q.volume_name, text_eq_sym p.volume_key q.volume_key)

-- The list without one place where it has the pointer.
pub data Taken (p : VolumePointer) : List VolumePointer → List VolumePointer → Type 0 where
  first : {ps : List VolumePointer} → Taken p (p ∷ ps) ps
  later :
      {q : VolumePointer} {ps rest : List VolumePointer}
      → Taken p ps rest
      → Taken p (q ∷ ps) (q ∷ rest)

abbrev Same :
    Option (VolumePointer × List VolumePointer)
    → Option (VolumePointer × List VolumePointer)
    → Type 0
Same l r = l ≡ r

pub removed-Taken :
    (g : ℕ) (ps : List VolumePointer) {p : VolumePointer} {rest : List VolumePointer}
    → removed g ps ≡ some (p, rest)
    → Taken p ps rest × (p.generation ≡ g)
unfolding removed
removed-Taken g [] h = cc
removed-Taken g (q ∷ ps) {p} {rest} h = elim (Bool-cases (q.generation == g)) [
  | inl e ↦
      let same : Same (some (q, ps)) (some (p, rest)) = ground (arith, e, h) in
      subst (λ x. Taken x.0 (q ∷ ps) x.1 × (x.0.generation ≡ g)) (some_inj same)
        (Taken.first, ground (arith, e))
  | inr e ↦ elim (Option-cases (removed g ps)) [
    | inr ((r, more), m) ↦
        let (t, at_r) = removed-Taken g ps m in
        let same : Same (some (r, q ∷ more)) (some (p, rest)) = ground (arith, e, h, m) in
        subst (λ x. Taken x.0 (q ∷ ps) x.1 × (x.0.generation ≡ g)) (some_inj same)
          (Taken.later t, at_r)
    | inl m ↦ ground (arith, e, h, m)
  ]
]

pub removed-none :
    (g : ℕ) (ps : List VolumePointer)
    → removed g ps ≡ none
    → (q : VolumePointer) → In q ps
    → q.generation ≢ g
unfolding removed
removed-none g [] h q i = absurd (not-In_nil q i)
removed-none g (p ∷ ps) h q i = elim (Bool-cases (p.generation == g)) [
  | inl e ↦ ground (arith, e, h)
  | inr e ↦ elim (Option-cases (removed g ps)) [
    | inr ((r, more), m) ↦ ground (arith, e, h, m)
    | inl m ↦ elim (In-cons i) [
      | inl same ↦ λ at. ground (arith, e, ap (λ (x : VolumePointer). x.generation) same, at)
      | inr j ↦ removed-none g ps m q j
    ]
  ]
]

pub Taken-All :
    (P : VolumePointer → Type 0) {p : VolumePointer} {ps rest : List VolumePointer}
    → Taken p ps rest
    → All P ps
    → P p × All P rest
Taken-All P Taken.first (x, xs) = (x, xs)
Taken-All P (Taken.later t) (x, xs) = let (y, ys) = Taken-All P t xs in (y, (x, ys))

pub Taken-Apart :
    {p : VolumePointer} {ps rest : List VolumePointer}
    → Taken p ps rest
    → Apart ps
    → Apart (p ∷ rest)
unfolding Apart
Taken-Apart Taken.first a = a
Taken-Apart {p} (Taken.later {q} t) (same, a) =
    let (from, rest) = Taken-Apart t a in
    let (x, xs) = Taken-All (λ r. is_same_volume q r ≡ false) t same in
    ((is_same_volume_sym p q ∙ x, from), (xs, rest))

pub Taken-length :
    {p : VolumePointer} {ps rest : List VolumePointer}
    → Taken p ps rest
    → length ps ≡ suc (length rest)
Taken-length Taken.first = refl
Taken-length (Taken.later t) = ap suc (Taken-length t)

pub Taken-In :
    {p : VolumePointer} {ps rest : List VolumePointer} (q : VolumePointer)
    → Taken p ps rest
    → In q ps ↔ ((p ≡ q) ⊎ In q rest)
Taken-In q Taken.first = (In-cons, λ h. elim h [ inl e ↦ In.here e | inr i ↦ In.there i ])
Taken-In q (Taken.later t) =
    let (there, back) = Taken-In q t in
    (
      λ i. elim (In-cons i) [
        | inl e ↦ inr (In.here e)
        | inr j ↦ elim (there j) [ inl e ↦ inl e | inr k ↦ inr (In.there k) ]
      ],
      λ h. elim h [
        | inl e ↦ In.there (back (inl e))
        | inr i ↦ elim (In-cons i) [ inl e ↦ In.here e | inr k ↦ In.there (back (inr k)) ]
      ],
    )
