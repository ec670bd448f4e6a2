-- ===== src/Wire/Warm/Rollback.antt =====
-- A promotion and a rollback on valid warm documents.
use flanforge.Base.{
  ℕ, ◌<◌, ◌≡◌, ◌≢◌, refl, ◌∙◌, ◌↔◌, ◌⊎◌, inl, inr, true, false, ◌||◌, ◌==◌, Option-cases, In,
  In-cons, All, Text, codes, List, ◌∷◌, length, ok, err, >>-eq-ok, arith, subst,
}
use flanforge.Wire.Pointer.{VolumePointer, ensure_pointer_valid, is_same_volume, is_safe_name}
use flanforge.Wire.Warm.{
  PublishedWarm, pointers, ensure_warm_valid, promoted, repointed, removed, swapped, restored,
  refused, max_superseded_pointers, max_warm_name_bytes,
}
use flanforge.Wire.Warm.Valid.{Apart, IsDated, IsValid, ensure_warm_valid_iff}
use flanforge.Wire.Warm.Taken.{
  Taken, is_same_volume_sym, removed-Taken, removed-none, Taken-All, Taken-Apart, Taken-length,
  Taken-In,
}

-- A pointer of the document made the current one, and the current one superseded.
swapped-IsValid :
    (d : PublishedWarm) {p : VolumePointer} {rest : List VolumePointer}
    → Taken p d.superseded rest
    → IsValid d
    → IsValid (swapped d p rest)
unfolding swapped Apart
swapped-IsValid d {p} {rest} t v =
    let (at, aged) = Taken-All IsDated t v.dated in
    let (sound, others) = Taken-All (λ q. ensure_pointer_valid q ≡ ok tt) t v.sound.1 in
    let (same, apart) = v.apart in
    let (far, from) = Taken-All (λ q. is_same_volume d.current q ≡ false) t same in
    let (new, old) = Taken-Apart t apart in
    record {
      version = refl;
      profiled = v.profiled;
      named = v.named;
      produced = ground (arith, at, v.produced);
      bounded = ground (arith, Taken-length t, v.bounded);
      sound = (sound, (v.sound.0, others));
      apart = ((is_same_volume_sym p d.current ∙ far, new), (from, old));
      leads = refl;
      dated = (ground (arith, v.leads, v.produced), aged);
    }

-- What a rollback of the document to a generation that it holds gives.
pub record IsRestored (g : ℕ) (d r : PublishedWarm) : Type 0 where
  pub at : r.generation ≡ g
  pub from : In r.current d.superseded
  pub keeps : (q : VolumePointer) → In q (pointers d) ↔ In q (pointers r)
  pub same_length : length (pointers r) ≡ length (pointers d)
  pub valid : ensure_warm_valid r ≡ ok tt

swapped-IsRestored :
    (g : ℕ) (d : PublishedWarm) {p : VolumePointer} {rest : List VolumePointer}
    → Taken p d.superseded rest
    → p.generation ≡ g
    → ensure_warm_valid (swapped d p rest) ≡ ok tt
    → IsRestored g d (swapped d p rest)
unfolding swapped
swapped-IsRestored g d {p} {rest} t at valid = record {
  at = at;
  from = (Taken-In p t).1 (inl refl);
  keeps = λ q.
      let (there, back) = Taken-In q t in
      (
        λ i. elim (In-cons i) [
          | inl e ↦ In.there (In.here e)
          | inr j ↦ elim (there j) [ inl e ↦ In.here e | inr k ↦ In.there (In.there k) ]
        ],
        λ i. elim (In-cons i) [
          | inl e ↦ In.there (back (inl e))
          | inr j ↦ elim (In-cons j) [ inl e ↦ In.here e | inr k ↦ In.there (back (inr k)) ]
        ],
      );
  same_length = omega (arith, Taken-length t);
  valid = valid;
}

-- The rollback of a valid document succeeds exactly if a superseded pointer carries the generation.
-- It then makes such a pointer the current one and loses none of the pointers, so that no volume is
-- without a document, and the document stays valid.
pub restored_lem :
    (g : ℕ) (d : PublishedWarm)
    → ensure_warm_valid d ≡ ok tt
    → ((r : PublishedWarm) × (restored g d ≡ ok r) × IsRestored g d r)
      ⊎ ((restored g d ≡ err (refused (codes "restored generation")))
          × ((q : VolumePointer) → In q d.superseded → q.generation ≢ g))
unfolding restored
restored_lem g d h = elim (Option-cases (removed g d.superseded)) [
  | inr ((p, rest), m) ↦
      let (t, at) = removed-Taken g d.superseded m in
      let valid =
        (ensure_warm_valid_iff (swapped d p rest)).1
          (swapped-IsValid d t ((ensure_warm_valid_iff d).0 h)) in
      inl (swapped d p rest, ground (arith, m, valid), swapped-IsRestored g d t at valid)
  | inl m ↦ inr (ground (arith, m), removed-none g d.superseded m)
]

-- A promotion of a valid document succeeds exactly for a sound, numbered volume that shares neither
-- name nor key with one that the document names, under a safe name and a producer, while fewer than
-- eight pointers are superseded.
pub repointed_iff :
    (name : Text) (by at : ℕ) (p : VolumePointer) (d : PublishedWarm)
    → ensure_warm_valid d ≡ ok tt
    → ((e : PublishedWarm) × (repointed name by at p d ≡ ok e))
      ↔ (is_safe_name name max_warm_name_bytes ≡ true)
        × ((p.generation == 0 || by == 0) ≡ false)
        × (length d.superseded < max_superseded_pointers)
        × (ensure_pointer_valid p ≡ ok tt)
        × All (λ q. is_same_volume p q ≡ false) (pointers d)
unfolding repointed promoted Apart
repointed_iff name by at p d h =
    let v = (ensure_warm_valid_iff d).0 h in
    let (there, back) = ensure_warm_valid_iff (promoted name by at p d) in
    (
      λ (e, q).
          let new = there (>>-eq-ok (ensure_warm_valid (promoted name by at p d)) _ q).0 in
          (new.named, new.produced, omega (arith, new.bounded), new.sound.0, new.apart.0),
      λ (named, produced, room, sound, apart).
          let valid = back (record {
            version = refl;
            profiled = v.profiled;
            named = named;
            produced = produced;
            bounded = omega (arith, room);
            sound = (sound, v.sound);
            apart = (apart, v.apart);
            leads = refl;
            dated = (ground (arith, v.leads, v.produced), v.dated);
          }) in
          (promoted name by at p d, rw valid refl),
    )

promoted-restored :
    (name : Text) (by at : ℕ) (p : VolumePointer) (d : PublishedWarm)
    → IsValid d
    → ensure_warm_valid (promoted name by at p d) ≡ ok tt
    → (r : PublishedWarm) × (restored d.generation (promoted name by at p d) ≡ ok r)
      × (r.current ≡ d.current)
      × (r.superseded ≡ p ∷ d.superseded)
      × (r.generation ≡ d.generation)
unfolding promoted restored removed swapped
promoted-restored name by at p d v new =
    let x = promoted name by at p d in
    let back = swapped-IsValid x Taken.first ((ensure_warm_valid_iff x).0 new) in
    let valid = (ensure_warm_valid_iff (swapped x d.current d.superseded)).1 back in
    (swapped x d.current d.superseded, ground (arith, v.leads, valid), refl, refl, v.leads)

-- A promotion is undone by the rollback to the generation before it: the volume that was current is
-- current again, and the promoted one is the first of those superseded.
pub repointed-restored :
    (name : Text) (by at : ℕ) (p : VolumePointer) (d e : PublishedWarm)
    → ensure_warm_valid d ≡ ok tt
    → repointed name by at p d ≡ ok e
    → (r : PublishedWarm) × (restored d.generation e ≡ ok r)
      × (r.current ≡ d.current)
      × (r.superseded ≡ p ∷ d.superseded)
      × (r.generation ≡ d.generation)
unfolding repointed
repointed-restored name by at p d e h q =
    let (valid, same) = >>-eq-ok (ensure_warm_valid (promoted name by at p d)) (ok _) q in
    let made : promoted name by at p d ≡ e = cc in
    subst
      (λ (x : PublishedWarm).
        (r : PublishedWarm) × (restored d.generation x ≡ ok r)
        × (r.current ≡ d.current)
        × (r.superseded ≡ p ∷ d.superseded)
        × (r.generation ≡ d.generation))
      made (promoted-restored name by at p d ((ensure_warm_valid_iff d).0 h) valid)
