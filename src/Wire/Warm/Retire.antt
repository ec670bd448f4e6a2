-- ===== src/Wire/Warm/Retire.antt =====
-- The retirement of one superseded volume from a valid warm document.
use flanforge.Base.{
  ◌≡◌, refl, ◌↔◌, inl, inr, Bool, false, not, Bool-cases, In, In-filter, filter-In, filter,
  length-filter-le, All, Text, text_eq, List, [], ◌∷◌, ok, arith,
}
use flanforge.Wire.Pointer.{VolumePointer, ensure_pointer_valid, is_same_volume}
use flanforge.Wire.Warm.{PublishedWarm, pointers, ensure_warm_valid, without_superseded}
use flanforge.Wire.Warm.Valid.{Apart, IsDated, ensure_warm_valid_iff}

filter-All :
    (P : VolumePointer → Type 0) (f : VolumePointer → Bool) (ps : List VolumePointer)
    → All P ps
    → All P (filter f ps)
unfolding filter
filter-All P f [] h = tt
filter-All P f (p ∷ ps) (x, xs) = elim (Bool-cases (f p)) [
  | inl e ↦ rw e (x, filter-All P f ps xs)
  | inr e ↦ rw e (filter-All P f ps xs)
]

filter-Apart : (f : VolumePointer → Bool) (ps : List VolumePointer) → Apart ps → Apart (filter f ps)
unfolding filter Apart
filter-Apart f [] h = tt
filter-Apart f (p ∷ ps) (same, rest) = elim (Bool-cases (f p)) [
  | inl e ↦ rw e (filter-All (λ q. is_same_volume p q ≡ false) f ps same, filter-Apart f ps rest)
  | inr e ↦ rw e (filter-Apart f ps rest)
]

rest-Apart :
    (f : VolumePointer → Bool) (d : PublishedWarm)
    → Apart (pointers d)
    → Apart (d.current ∷ filter f d.superseded)
unfolding Apart
rest-Apart f d (same, rest) = (
  filter-All (λ q. is_same_volume d.current q ≡ false) f d.superseded same,
  filter-Apart f d.superseded rest,
)

-- A retirement from a valid document succeeds, leaves it valid with the same current pointer, and
-- drops exactly the superseded pointers of the volume key that it names.
pub without_superseded-Drops :
    (key : Text) (d : PublishedWarm)
    → ensure_warm_valid d ≡ ok tt
    → (r : PublishedWarm) × (without_superseded key d ≡ ok r)
      × (ensure_warm_valid r ≡ ok tt)
      × (r.current ≡ d.current)
      × ((q : VolumePointer)
          → In q r.superseded ↔ In q d.superseded × (text_eq q.volume_key key ≡ false))
unfolding without_superseded
without_superseded-Drops key d h =
    let v = (ensure_warm_valid_iff d).0 h in
    let stays = λ (p : VolumePointer). not (text_eq p.volume_key key) in
    let r : PublishedWarm = record d { superseded = filter stays d.superseded } in
    let valid = (ensure_warm_valid_iff r).1 (record {
      version = v.version;
      profiled = v.profiled;
      named = v.named;
      produced = v.produced;
      bounded = omega (arith, length-filter-le stays d.superseded, v.bounded);
      sound = (
        v.sound.0,
        filter-All (λ p. ensure_pointer_valid p ≡ ok tt) stays d.superseded v.sound.1,
      );
      apart = rest-Apart stays d v.apart;
      leads = v.leads;
      dated = filter-All IsDated stays d.superseded v.dated;
    }) in
    (
      r,
      rw valid refl,
      valid,
      refl,
      λ q. (
        λ i. let (j, e) = In-filter stays d.superseded i in (j, ground (arith, e)),
        λ (i, e). filter-In stays d.superseded i (ground (arith, e)),
      ),
    )
