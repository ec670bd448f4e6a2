-- ===== src/Core/Claims/Normal.antt =====
-- `normalized`: a scheduled run's short ref, and the two claims that embed it.
use flanforge.Base.{
  ◌-◌, ◌≡◌, refl, sym, ap, ◌∙◌, inl, inr, Bool, true, false, ◌||◌, ◌==◌, some, Text, [], ◌∷◌, ◌++◌,
  codes, length, length-append, drop, take, leb, text_eq_refl, starts_with, strip_prefix,
  strip_suffix, arith, Bool-cases, append_assoc,
}
use flanforge.Core.Claims.{ForgejoClaims, workflow_prefix, resuffix, normalized}

drop-append : (xs ys : Text) → drop (length xs) (xs ++ ys) ≡ ys
drop-append [] ys = refl
drop-append (x ∷ xs) ys = drop-append xs ys

take-append : (xs ys : Text) → take (length xs) (xs ++ ys) ≡ xs
take-append [] ys = refl
take-append (x ∷ xs) ys = ap (λ (t : Text). x ∷ t) (take-append xs ys)

strip_suffix-append : (xs ys : Text) → strip_suffix (xs ++ ys) ys ≡ some xs
unfolding strip_suffix
strip_suffix-append xs ys =
    let before : length (xs ++ ys) - length ys ≡ length xs = omega (arith, length-append xs ys) in
    let fits : leb (length ys) (length (xs ++ ys)) ≡ true = ground (arith, length-append xs ys) in
    rw (before, fits, drop-append xs ys, take-append xs ys, text_eq_refl ys) refl

resuffix-append : (stem short full : Text) → resuffix (stem ++ short) short full ≡ stem ++ full
resuffix-append stem short full = rw (resuffix, strip_suffix-append stem short) refl

-- Whether the ref needs no expansion.
abbrev pub is_full : ForgejoClaims → Bool
is_full c = length c.git_ref == 0 || starts_with c.git_ref (codes "refs/")

-- The subject and the workflow that a run of this ref carries.
abbrev pub Embeds : Text → ForgejoClaims → Type 0
Embeds path c =
    (c.sub ≡ codes "repo:" ++ (c.repository ++ (codes ":ref:" ++ c.git_ref)))
    × (c.workflow_ref ≡ workflow_prefix c ++ (path ++ (b'@' ∷ c.git_ref)))

normalized_full : (c : ForgejoClaims) → is_full c ≡ true → normalized c ≡ c
unfolding normalized
normalized_full c h = rw h refl

-- The claims that the early return does not give back.
abbrev expanded : ForgejoClaims → ForgejoClaims
expanded c = record c {
  sub =
      resuffix c.sub (codes ":ref:" ++ c.git_ref)
        (codes ":ref:" ++ (codes "refs/heads/" ++ c.git_ref));
  workflow_ref =
      resuffix c.workflow_ref (b'@' ∷ c.git_ref) (b'@' ∷ (codes "refs/heads/" ++ c.git_ref));
  git_ref = codes "refs/heads/" ++ c.git_ref;
}

normalized_short : (c : ForgejoClaims) → is_full c ≡ false → normalized c ≡ expanded c
unfolding normalized
normalized_short c h = rw h refl

expanded-is_full : (c : ForgejoClaims) → is_full (expanded c) ≡ true
unfolding strip_prefix
expanded-is_full c = ground arith

append_over : (a b t : Text) → a ++ (b ++ t) ≡ (a ++ b) ++ t
append_over a b t = sym (append_assoc a b t)

expanded-Embeds : (c : ForgejoClaims) (path : Text) → Embeds path c → Embeds path (expanded c)
expanded-Embeds c path (s, w) =
    let full = codes "refs/heads/" ++ c.git_ref in
    let stem = codes "repo:" ++ c.repository in
    let front = workflow_prefix c in
    let old : c.sub ≡ stem ++ (codes ":ref:" ++ c.git_ref) = s in
    let before : c.workflow_ref ≡ (front ++ path) ++ (b'@' ∷ c.git_ref) =
      w ∙ append_over front path (b'@' ∷ c.git_ref) in
    (
      ap (λ t. resuffix t (codes ":ref:" ++ c.git_ref) (codes ":ref:" ++ full)) old
          ∙ resuffix-append stem (codes ":ref:" ++ c.git_ref) (codes ":ref:" ++ full),
      ap (λ t. resuffix t (b'@' ∷ c.git_ref) (b'@' ∷ full)) before
          ∙ resuffix-append (front ++ path) (b'@' ∷ c.git_ref) (b'@' ∷ full)
          ∙ sym (append_over front path (b'@' ∷ full)),
    )

-- Expanding a claim's ref leaves an empty ref or a full one and does nothing more when it is done
-- again; a subject and a workflow that embed the short ref embed the expanded one afterwards.
pub normalized-Embeds :
    (c : ForgejoClaims) (path : Text)
    → Embeds path c
    → Embeds path (normalized c)
      × (is_full (normalized c) ≡ true)
      × (normalized (normalized c) ≡ normalized c)
normalized-Embeds c path held = elim (Bool-cases (is_full c)) [
  | inl e ↦ let same = normalized_full c e in rw (same, same) (held, e, refl)
  | inr e ↦
      let full = expanded-is_full c in
      rw (normalized_short c e)
        (expanded-Embeds c path held, full, normalized_full (expanded c) full)
]
