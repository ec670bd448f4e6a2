-- ===== src/Wire/Examples.antt =====
-- The warm document at two generations.
use flanforge.Base.{
  ℕ, ◌≡◌, ◌≢◌, ◌<◌, refl, ◌↔◌, ◌⊎◌, ◌||◌, ◌==◌, true, false, In, All, Text, codes, text_eq, List,
  [], ◌∷◌, length, Result, ok, err,
}
use flanforge.Wire.Pointer.{
  VolumePointer, ensure_pointer_valid, is_same_volume, is_safe_name, is_safe_key,
}
use flanforge.Wire.Warm.{
  PublishedWarm, pointers, ensure_warm_valid, new_warm, repointed, restored, refused,
  max_superseded_pointers, max_warm_name_bytes,
}
use flanforge.Wire.Warm.Rollback.{IsRestored, restored_lem, repointed_iff, repointed-restored}

abbrev first_volume : VolumePointer
first_volume = record {
  pool = codes "warm";
  volume_name = codes "ios-1.qcow2";
  volume_key = codes "/warm/ios-1.qcow2";
  virtual_bytes = 1000;
  generation = 1;
  produced_at_unix = 100;
}

abbrev second_volume : VolumePointer
second_volume = record first_volume {
  volume_name = codes "ios-2.qcow2";
  volume_key = codes "/warm/ios-2.qcow2";
  generation = 2;
  produced_at_unix = 200;
}

abbrev document : PublishedWarm
document = record {
  schema_version = 1;
  profile = codes "ios";
  logical_name = codes "ios-warm";
  generation = 2;
  produced_by = 7;
  produced_at_unix = 200;
  current = second_volume;
  superseded = first_volume ∷ [];
}

document_is_new :
    new_warm (codes "ios") (codes "ios-warm") 7 200 second_volume
    ≡ ok (record document { superseded = [] })
unfolding new_warm flanforge.Base.strip_prefix
document_is_new = refl

document_is_valid : ensure_warm_valid document ≡ ok tt
unfolding ensure_warm_valid flanforge.Base.strip_prefix
document_is_valid = refl

climbing_key_is_unsafe : is_safe_key (codes "/warm/../etc") 4096 ≡ false
unfolding is_safe_key flanforge.Base.strip_prefix
climbing_key_is_unsafe = refl

restored_lem_example :
    ((r : PublishedWarm) × (restored 1 document ≡ ok r) × IsRestored 1 document r)
    ⊎ ((restored 1 document ≡ err (refused (codes "restored generation")))
        × ((q : VolumePointer) → In q document.superseded → q.generation ≢ 1))
restored_lem_example = restored_lem 1 document document_is_valid

abbrev third_volume : VolumePointer
third_volume = record first_volume {
  volume_name = codes "ios-3.qcow2";
  volume_key = codes "/warm/ios-3.qcow2";
  generation = 3;
  produced_at_unix = 300;
}

repointed_iff_example :
    ((e : PublishedWarm) × (repointed (codes "ios-warm") 8 300 third_volume document ≡ ok e))
    ↔ (is_safe_name (codes "ios-warm") max_warm_name_bytes ≡ true)
      × ((third_volume.generation == 0 || 8 == 0) ≡ false)
      × (length document.superseded < max_superseded_pointers)
      × (ensure_pointer_valid third_volume ≡ ok tt)
      × All (λ q. is_same_volume third_volume q ≡ false) (pointers document)
repointed_iff_example =
    repointed_iff (codes "ios-warm") 8 300 third_volume document document_is_valid

abbrev promoted_document : PublishedWarm
promoted_document = record {
  schema_version = 1;
  profile = codes "ios";
  logical_name = codes "ios-warm";
  generation = 3;
  produced_by = 8;
  produced_at_unix = 300;
  current = third_volume;
  superseded = second_volume ∷ first_volume ∷ [];
}

promotes : repointed (codes "ios-warm") 8 300 third_volume document ≡ ok promoted_document
unfolding repointed flanforge.Base.strip_prefix
promotes = refl

repointed-restored_example :
    (r : PublishedWarm) × (restored document.generation promoted_document ≡ ok r)
    × (r.current ≡ document.current)
    × (r.superseded ≡ third_volume ∷ document.superseded)
    × (r.generation ≡ document.generation)
repointed-restored_example =
    repointed-restored (codes "ios-warm") 8 300 third_volume document promoted_document
      document_is_valid promotes
