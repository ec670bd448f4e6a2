-- ===== src/Core/Claims/Matching.antt =====
-- The tests of `ensure_authorized` on lists, on numbers, on the workflow and on the protected ref.
use flanforge.Base.{
  ℕ, ◌≡◌, ◌≢◌, refl, sym, ap, ◌∙◌, inl, inr, ◌↔◌, Bool, true, false, not, ◌&&◌, ◌==◌, some, Text,
  List, [], ◌∷◌, ◌++◌, In, any, contains, codes, text_eq, text_eq_iff, split_once, strip_prefix,
  strip_prefix-append, strip_prefix_sound, parse, arith, Bool-cases, Option-cases, some_inj,
  In-cons, not-In_nil, subst,
}
use flanforge.Utils.Glob.{is_glob_match}
use flanforge.Utils.Glob.Matches.{Matches}
use flanforge.Utils.Glob.Search.{is_glob_match_iff}
use flanforge.Core.Config.{Profile}
use flanforge.Core.Claims.{
  ForgejoClaims, is_allowed, workflow_prefix, workflow_identity, validate_boolean, parse_bool,
  is_number, is_workflow_allowed,
}

-- Some pattern of the allowlist matches the value.
abbrev pub Allowed : List Text → Text → Type 0
Allowed patterns value = (pattern : Text) × In pattern patterns × Matches pattern value

-- A byte that no `@` stands among.
abbrev pub Without : ℕ → Text → Type 0
Without c [] = Unit
Without c (b ∷ s) = (b ≢ c) × Without c s

pub contains_iff : (xs : List Text) (x : Text) → (contains xs x ≡ true) ↔ In x xs
unfolding contains
contains_iff [] x = (λ h. cc, λ i. absurd (not-In_nil x i))
contains_iff (y ∷ xs) x =
    let (to, from) = contains_iff xs x in
    let (same, hit) = text_eq_iff y x in
    (
      λ h. elim (Bool-cases (text_eq y x)) [
        | inl e ↦ In.here (same e)
        | inr e ↦ In.there (to (rw e at h))
      ],
      λ i. elim (In-cons i) [
        | inl e ↦ rw (hit e) refl
        | inr j ↦ elim (Bool-cases (text_eq y x)) [ inl e ↦ rw e refl | inr e ↦ rw e (from j) ]
      ],
    )

pub is_allowed_iff : (xs : List Text) (v : Text) → (is_allowed xs v ≡ true) ↔ Allowed xs v
unfolding is_allowed any
is_allowed_iff [] v = (λ h. cc, λ h. absurd (not-In_nil h.0 h.1))
is_allowed_iff (p ∷ xs) v =
    let (to, from) = is_allowed_iff xs v in
    let (sound, complete) = is_glob_match_iff p v in
    (
      λ h. elim (Bool-cases (is_glob_match p v)) [
        | inl e ↦ (p, In.here refl, sound e)
        | inr e ↦ let (q, i, m) = to (rw e at h) in (q, In.there i, m)
      ],
      λ h. elim (In-cons h.1) [
        | inl e ↦ rw (complete (subst (λ q. Matches q v) (sym e) h.2)) refl
        | inr j ↦ elim (Bool-cases (is_glob_match p v)) [
          | inl e ↦ rw e refl
          | inr e ↦ rw e (from (h.0, j, h.2))
        ]
      ],
    )

split_once_sound :
    (c : ℕ) (s : Text) {a b : Text}
    → split_once c s ≡ some (a, b)
    → (s ≡ a ++ (c ∷ b)) × Without c a
unfolding split_once
split_once_sound c [] h = cc
split_once_sound c (x ∷ s) {a} {b} h = elim (Bool-cases (x == c)) [
  | inl e ↦
      let parts = some_inj (rw (split_once, e) at h) in
      let pa : [] ≡ a = ap (λ (q : Text × Text). q.0) parts in
      let pb : s ≡ b = ap (λ (q : Text × Text). q.1) parts in
      let same : x ≡ c = ground arith in rw (← pa, ← pb) (ap (λ (k : ℕ). k ∷ s) same, tt)
  | inr e ↦ elim (Option-cases (split_once c s)) [
    | inl q ↦ absurd (ground arith)
    | inr ((a', b'), q) ↦
        let parts = some_inj (rw (split_once, e, q) at h) in
        let pa : (x ∷ a') ≡ a = ap (λ (q : Text × Text). q.0) parts in
        let pb : b' ≡ b = ap (λ (q : Text × Text). q.1) parts in
        let (whole, free) = split_once_sound c s q in
        let apart : x ≢ c = ground arith in
        rw (← pa, ← pb) (ap (λ (t : Text). x ∷ t) whole, (apart, free))
  ]
]

split_once_complete : (c : ℕ) (a b : Text) → Without c a → split_once c (a ++ (c ∷ b)) ≡ some (a, b)
unfolding split_once
split_once_complete c [] b free = ground arith
split_once_complete c (x ∷ a) b (apart, free) =
    ground (arith, apart, split_once_complete c a b free)

pub is_number_iff :
    (bound : ℕ) (v : Text) (n : ℕ) → (is_number bound v n ≡ true) ↔ (parse bound v ≡ some n)
is_number_iff bound v n = elim (Option-cases (parse bound v)) [
  | inl e ↦ (λ h. ground arith, λ h. ground arith)
  | inr (m, e) ↦ (λ h. ground arith, λ h. ground arith)
]

workflow_iff :
    (c : ForgejoClaims) (path git_ref : Text)
    → (workflow_identity c ≡ some (path, git_ref))
      ↔ (c.workflow_ref ≡ workflow_prefix c ++ (path ++ (b'@' ∷ git_ref))) × Without b'@' path
unfolding workflow_identity
workflow_iff c path git_ref = (
  λ h. elim (Option-cases (strip_prefix c.workflow_ref (workflow_prefix c))) [
    | inl e ↦ absurd (ground arith)
    | inr (rest, e) ↦
        let (whole, free) = split_once_sound b'@' rest (rw (workflow_identity, e) at h) in
        (
          strip_prefix_sound c.workflow_ref (workflow_prefix c) e
              ∙ ap (λ (t : Text). workflow_prefix c ++ t) whole,
          free,
        )
  ],
  λ h.
      let (whole, free) = h in
      let rest = path ++ (b'@' ∷ git_ref) in
      let found : strip_prefix c.workflow_ref (workflow_prefix c) ≡ some rest =
        ap (λ (t : Text). strip_prefix t (workflow_prefix c)) whole
        ∙ strip_prefix-append (workflow_prefix c) rest in
      rw (workflow_identity, found) (split_once_complete b'@' path git_ref free),
)

pub workflow_passes_to :
    (c : ForgejoClaims) (p : Profile)
    → is_workflow_allowed c p ≡ true
    → (path : Text) × (c.workflow_ref ≡ workflow_prefix c ++ (path ++ (b'@' ∷ c.git_ref)))
      × Without b'@' path
      × Allowed p.allowed_workflows path
workflow_passes_to c p h = elim (Option-cases (workflow_identity c)) [
  | inl e ↦ absurd (ground arith)
  | inr ((path, git_ref), e) ↦
      let same : git_ref ≡ c.git_ref = (text_eq_iff git_ref c.git_ref).0 (ground arith) in
      let (whole, free) = (workflow_iff c path c.git_ref).0 (e ∙ ap (λ g. some (path, g)) same) in
      (path, whole, free, (is_allowed_iff p.allowed_workflows path).0 (ground arith))
]

pub workflow_passes_from :
    (c : ForgejoClaims) (p : Profile) (path : Text)
    → c.workflow_ref ≡ workflow_prefix c ++ (path ++ (b'@' ∷ c.git_ref))
    → Without b'@' path
    → Allowed p.allowed_workflows path
    → is_workflow_allowed c p ≡ true
workflow_passes_from c p path whole free allowed =
    let found = (workflow_iff c path c.git_ref).1 (whole, free) in
    let listed = (is_allowed_iff p.allowed_workflows path).1 allowed in
    let same = (text_eq_iff c.git_ref c.git_ref).1 refl in rw (found, listed, same) refl

pub protected_iff :
    (c : ForgejoClaims) (required : Bool)
    → validate_boolean c.ref_protected ≡ true
    → ((b : Bool) × (parse_bool c.ref_protected ≡ some b) × ((required && not b) ≡ false))
      ↔ (required ≡ true → c.ref_protected ≡ codes "true")
unfolding parse_bool validate_boolean
protected_iff c required valid = elim (Bool-cases (text_eq c.ref_protected (codes "true"))) [
  | inl e ↦ (λ h r. (text_eq_iff _ _).0 e, λ h. (true, rw e refl, ground arith))
  | inr e ↦ elim (Bool-cases (text_eq c.ref_protected (codes "false"))) [
    | inl d ↦ (
      λ h r. absurd (ground arith),
      λ h. (
        false,
        rw (e, d) refl,
        elim (Bool-cases required) [
          | inl r ↦
              let hit : text_eq c.ref_protected (codes "true") ≡ true = (text_eq_iff _ _).1 (h r) in
              absurd (ground arith)
          | inr r ↦ rw r refl
        ],
      ),
    )
    | inr d ↦ absurd (ground arith)
  ]
]
