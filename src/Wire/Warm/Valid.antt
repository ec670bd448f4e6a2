-- ===== src/Wire/Warm/Valid.antt =====
-- What the validation of a warm document accepts, as a record of its conditions.
use flanforge.Base.{
  ◌≤◌, ◌≡◌, refl, ◌↔◌, Bool, true, false, not, ◌||◌, ◌==◌, ltb, any, All, List, [], ◌∷◌, ◌++◌,
  length, ok, >>-eq-ok, refuse_if->>_iff, refuse_if-eq-ok, arith,
}
use flanforge.Wire.Pointer.{VolumePointer, ensure_pointer_valid, is_same_volume, is_safe_name}
use flanforge.Wire.Warm.{
  PublishedWarm, pointers, ensure_each_valid, has_duplicate, ensure_warm_valid,
  max_superseded_pointers, max_profile_bytes, max_warm_name_bytes,
}

module _ {ℓ} {A : Type ℓ} where
  pub All-map {κ κ'} :
      {P : A → Type κ} {Q : A → Type κ'}
      → ((x : A) → P x → Q x)
      → (xs : List A) → All P xs
      → All Q xs
  All-map f [] h = tt
  All-map f (x ∷ xs) (p, ps) = (f x p, All-map f xs ps)

  All-zip {κ κ'} :
      (P : A → Type κ) (Q : A → Type κ') (xs : List A)
      → All P xs
      → All Q xs
      → All (λ x. P x × Q x) xs
  All-zip P Q [] h k = tt
  All-zip P Q (x ∷ xs) (p, ps) (q, qs) = ((p, q), All-zip P Q xs ps qs)

  any-snoc : (f : A → Bool) (xs : List A) (y : A) → any f (xs ++ (y ∷ [])) ≡ (any f xs || f y)
  unfolding any
  any-snoc f [] y = ground arith
  any-snoc f (x ∷ xs) y = ground (arith, any-snoc f xs y)

-- No two pointers name one volume, by its name or by its key.
unfoldable pub Apart : List VolumePointer → Type 0
Apart [] = Unit {0}
Apart (p ∷ ps) = All (λ q. is_same_volume p q ≡ false) ps × Apart ps

abbrev IsNew : List VolumePointer → VolumePointer → Type 0
IsNew before q = any (λ other. is_same_volume other q) before ≡ false

All-IsNew : (ps : List VolumePointer) → All (IsNew []) ps
unfolding any
All-IsNew [] = tt
All-IsNew (p ∷ ps) = (refl, All-IsNew ps)

has_duplicate_iff :
    (before ps : List VolumePointer)
    → (has_duplicate before ps ≡ false) ↔ All (IsNew before) ps × Apart ps
unfolding has_duplicate Apart
has_duplicate_iff before [] = (λ h. (tt, tt), λ h. refl)
has_duplicate_iff before (p ∷ ps) =
    let snoc = λ (q : VolumePointer). any-snoc (λ other. is_same_volume other q) before p in
    let (there, back) = has_duplicate_iff (before ++ (p ∷ [])) ps in
    (
      λ h.
          let (new, apart) = there (ground arith) in
          (
            (ground arith, All-map (λ q n. ground (arith, n, snoc q)) ps new),
            (All-map (λ q n. ground (arith, n, snoc q)) ps new, apart),
          ),
      λ ((first, new), (same, apart)).
          let rest = back (
            All-map
                (λ q (n : IsNew before q × (is_same_volume p q ≡ false)). ground (arith, n, snoc q))
                ps (All-zip (IsNew before) (λ q. is_same_volume p q ≡ false) ps new same),
            apart,
          ) in
          ground (arith, first, rest),
    )

ensure_each_valid_iff :
    (ps : List VolumePointer)
    → (ensure_each_valid ps ≡ ok tt) ↔ All (λ p. ensure_pointer_valid p ≡ ok tt) ps
unfolding ensure_each_valid
ensure_each_valid_iff [] = (λ h. tt, λ h. refl)
ensure_each_valid_iff (p ∷ ps) = (
  λ h.
      let (first, rest) = >>-eq-ok (ensure_pointer_valid p) (ensure_each_valid ps) h in
      (first, (ensure_each_valid_iff ps).0 rest),
  λ (first, rest). rw first ((ensure_each_valid_iff ps).1 rest),
)

abbrev pub IsDated : VolumePointer → Type 0
IsDated p = (p.generation == 0) ≡ false

IsDated-iff : (ps : List VolumePointer) → (any (λ p. p.generation == 0) ps ≡ false) ↔ All IsDated ps
unfolding any
IsDated-iff [] = (λ h. tt, λ h. refl)
IsDated-iff (p ∷ ps) = (
  λ h. (ground arith, (IsDated-iff ps).0 (ground arith)),
  λ (d, ds). ground (arith, d, (IsDated-iff ps).1 ds),
)

pub record IsValid (d : PublishedWarm) : Type 0 where
  pub version : d.schema_version ≡ 1
  pub profiled : is_safe_name d.profile max_profile_bytes ≡ true
  pub named : is_safe_name d.logical_name max_warm_name_bytes ≡ true
  pub produced : (d.generation == 0 || d.produced_by == 0) ≡ false
  pub bounded : length d.superseded ≤ max_superseded_pointers
  pub sound : All (λ p. ensure_pointer_valid p ≡ ok tt) (pointers d)
  pub apart : Apart (pointers d)
  pub leads : d.current.generation ≡ d.generation
  pub dated : All IsDated d.superseded

pub ensure_warm_valid_iff : (d : PublishedWarm) → (ensure_warm_valid d ≡ ok tt) ↔ IsValid d
unfolding ensure_warm_valid
ensure_warm_valid_iff d = (
  λ h.
      let (a, h1) = (refuse_if->>_iff (not (d.schema_version == 1)) _ _).0 h in
      let (b, h2) = (refuse_if->>_iff (not (is_safe_name d.profile max_profile_bytes)) _ _).0 h1 in
      let (c, h3) =
        (refuse_if->>_iff (not (is_safe_name d.logical_name max_warm_name_bytes)) _ _).0 h2 in
      let (e, h4) = (refuse_if->>_iff (d.generation == 0 || d.produced_by == 0) _ _).0 h3 in
      let (f, h5) =
        (refuse_if->>_iff (ltb max_superseded_pointers (length d.superseded)) _ _).0 h4 in
      let (g, h6) = >>-eq-ok (ensure_each_valid (pointers d)) _ h5 in
      let (i, h7) = (refuse_if->>_iff (has_duplicate [] (pointers d)) _ _).0 h6 in
      let (j, h8) = (refuse_if->>_iff (not (d.current.generation == d.generation)) _ _).0 h7 in
      let k = refuse_if-eq-ok (any (λ p. p.generation == 0) d.superseded) _ h8 in
      record {
        version = ground (arith, a);
        profiled = ground (arith, b);
        named = ground (arith, c);
        produced = e;
        bounded = ground (arith, f);
        sound = (ensure_each_valid_iff (pointers d)).0 g;
        apart = ((has_duplicate_iff [] (pointers d)).0 i).1;
        leads = ground (arith, j);
        dated = (IsDated-iff d.superseded).0 k;
      },
  λ v.
      let each = (ensure_each_valid_iff (pointers d)).1 v.sound in
      let fresh = (has_duplicate_iff [] (pointers d)).1 (All-IsNew (pointers d), v.apart) in
      let aged = (IsDated-iff d.superseded).1 v.dated in
      ground
        (arith, v.version, v.profiled, v.named, v.produced, v.bounded, each, fresh, v.leads, aged),
)
