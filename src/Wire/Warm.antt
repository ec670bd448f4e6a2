-- ===== src/Wire/Warm.antt =====
-- warm/{model,validate,limits}.rs: the document that names a profile's current warm volume and the
-- superseded ones that wait for their retirement. A UUID is its number, the nil one zero.
use flanforge.Base.{
  ℕ, Bool, true, false, not, ◌&&◌, ◌||◌, ◌==◌, ltb, any, filter, Option, none, some, Text, codes,
  text_eq, List, [], ◌∷◌, ◌++◌, length, Result, ok, err, ◌>>◌, ◌>>=◌, refuse_if, if◌then◌else◌,
}
use flanforge.Wire.Pointer.{
  WireError, VolumePointer, ensure_pointer_valid, is_same_volume, is_safe_name,
}
pub mod Valid
pub mod Taken
pub mod Rollback
pub mod Retire

pub record PublishedWarm : Type 0 where
  pub schema_version : ℕ
  pub profile : Text
  pub logical_name : Text
  pub generation : ℕ
  pub produced_by : ℕ
  pub produced_at_unix : ℕ
  pub current : VolumePointer
  pub superseded : List VolumePointer

abbrev pub max_superseded_pointers : ℕ
max_superseded_pointers = 8

abbrev pub max_profile_bytes : ℕ
max_profile_bytes = 128

abbrev pub max_warm_name_bytes : ℕ
max_warm_name_bytes = 128

abbrev pub pointers : PublishedWarm → List VolumePointer
pointers d = d.current ∷ d.superseded

abbrev pub refused : Text → WireError
refused = WireError.invalid (codes "published libvirt warm image")

unfoldable pub ensure_each_valid : List VolumePointer → Result (Unit {0}) WireError
unfolding ensure_pointer_valid
ensure_each_valid [] = ok tt
ensure_each_valid (p ∷ ps) = ensure_pointer_valid p >> ensure_each_valid ps

-- Whether a pointer names the volume of one before it; `before` are those already passed.
unfoldable pub has_duplicate : List VolumePointer → List VolumePointer → Bool
unfolding any is_same_volume
has_duplicate before [] = false
has_duplicate before (p ∷ ps) =
    any (λ other. is_same_volume other p) before || has_duplicate (before ++ (p ∷ [])) ps

unfoldable pub ensure_warm_valid : PublishedWarm → Result (Unit {0}) WireError
unfolding is_safe_name ensure_each_valid has_duplicate any
ensure_warm_valid d =
    refuse_if (not (d.schema_version == 1)) (refused (codes "schema_version"))
    >> (refuse_if (not (is_safe_name d.profile max_profile_bytes)) (refused (codes "profile"))
        >> (refuse_if (not (is_safe_name d.logical_name max_warm_name_bytes))
              (refused (codes "logical_name"))
            >> (refuse_if (d.generation == 0 || d.produced_by == 0) (refused (codes "generation"))
                >> (refuse_if (ltb max_superseded_pointers (length d.superseded))
                      (refused (codes "superseded"))
                    >> (ensure_each_valid (pointers d)
                        >> (refuse_if (has_duplicate [] (pointers d))
                              (refused (codes "duplicate pointer"))
                            >> (refuse_if (not (d.current.generation == d.generation))
                                  (refused (codes "current generation"))
                                >> refuse_if (any (λ p. p.generation == 0) d.superseded)
                                    (refused (codes "superseded generation")))))))))

-- `document.ensure_valid()?; Ok(document)`
abbrev pub checked : PublishedWarm → Result PublishedWarm WireError
checked d = ensure_warm_valid d >> ok d

unfoldable pub new_warm : Text → Text → ℕ → ℕ → VolumePointer → Result PublishedWarm WireError
unfolding ensure_warm_valid
new_warm profile logical_name produced_by produced_at_unix current = checked (record {
  schema_version = 1;
  profile = profile;
  logical_name = logical_name;
  generation = current.generation;
  produced_by = produced_by;
  produced_at_unix = produced_at_unix;
  current = current;
  superseded = [];
})

-- The document with a new current pointer, and the outgoing one superseded.
unfoldable pub promoted : Text → ℕ → ℕ → VolumePointer → PublishedWarm → PublishedWarm
promoted logical_name produced_by produced_at_unix current d = record {
  schema_version = 1;
  profile = d.profile;
  logical_name = logical_name;
  generation = current.generation;
  produced_by = produced_by;
  produced_at_unix = produced_at_unix;
  current = current;
  superseded = d.current ∷ d.superseded;
}

unfoldable pub repointed :
    Text → ℕ → ℕ → VolumePointer → PublishedWarm → Result PublishedWarm WireError
unfolding promoted ensure_warm_valid
repointed logical_name produced_by produced_at_unix current d =
    checked (promoted logical_name produced_by produced_at_unix current d)

-- The first pointer of a generation, by `position`, and what `Vec::remove` leaves.
unfoldable pub removed : ℕ → List VolumePointer → Option (VolumePointer × List VolumePointer)
removed generation [] = none
removed generation (p ∷ ps) =
    let more = removed generation ps in
    if p.generation == generation
    then some (p, ps)
    else elim more [ none ↦ none | some (q, rest) ↦ some (q, p ∷ rest) ]

-- The document with a superseded pointer as the current one.
unfoldable pub swapped : PublishedWarm → VolumePointer → List VolumePointer → PublishedWarm
swapped d current rest = record {
  schema_version = 1;
  profile = d.profile;
  logical_name = d.logical_name;
  generation = current.generation;
  produced_by = d.produced_by;
  produced_at_unix = current.produced_at_unix;
  current = current;
  superseded = d.current ∷ rest;
}

unfoldable pub restored : ℕ → PublishedWarm → Result PublishedWarm WireError
unfolding removed swapped ensure_warm_valid
restored generation d = elim (removed generation d.superseded) [
  | none ↦ err (refused (codes "restored generation"))
  | some (current, rest) ↦ checked (swapped d current rest)
]

unfoldable pub without_superseded : Text → PublishedWarm → Result PublishedWarm WireError
unfolding filter text_eq ensure_warm_valid
without_superseded volume_key d =
    checked
      (record d { superseded = filter (λ p. not (text_eq p.volume_key volume_key)) d.superseded })
