-- ===== src/Manager/Warm/Examples.antt =====
-- The source of a run at concrete answers.
use flanforge.Base.{◌≡◌, refl, ◌⊎◌, true, false, none, some, codes, [], Option}
use flanforge.Samples.{ios_profile}
use flanforge.Core.Source.{AllocationMode, FallbackReason, WarmImageRecord, WarmImageState}
use flanforge.Manager.Warm.{WarmAnswers, WarmAvailability, resolve_source, selected, from_template}
use flanforge.Manager.Warm.Table.{HasWarm, resolve_source_lem}

abbrev image : WarmImageRecord
image = record {
  profile = codes "ios";
  warm_template = codes "warm-ios";
  generation = 4;
  base_fingerprint = codes "0a1b";
  produced_by = 3;
  produced_at_unix = 900;
  state = WarmImageState.promoted;
  previous = none;
}

abbrev pub answers : WarmAnswers
answers = record {
  base_fingerprint = some (codes "0a1b");
  is_warm_supported = true;
  is_quarantined = false;
  listing = some [];
  image = some (some image);
  warm_availability = λ i machines. some WarmAvailability.ready;
  is_unclaimed_image = λ warm machines. some false;
}

boots_warm :
    resolve_source answers ios_profile AllocationMode.warm ≡ selected (codes "warm-ios") image
unfolding resolve_source flanforge.Base.text_eq
boots_warm = refl

stale_base_boots_cold :
    resolve_source
      (record answers { base_fingerprint = some (codes "ffff") })
      ios_profile
      AllocationMode.warm
    ≡ from_template
        (record answers { base_fingerprint = some (codes "ffff") })
        ios_profile
        (some FallbackReason.stale_base)
unfolding resolve_source flanforge.Base.text_eq
stale_base_boots_cold = refl

resolve_source_lem_example :
    ((w : HasWarm answers ios_profile AllocationMode.warm) × (resolve_source answers ios_profile
          AllocationMode.warm
        ≡ selected w.1.warm_template w.1))
    ⊎ ((¬ HasWarm answers ios_profile AllocationMode.warm)
        × (reason : Option FallbackReason) × (resolve_source answers ios_profile AllocationMode.warm
            ≡ from_template answers ios_profile reason))
resolve_source_lem_example = resolve_source_lem answers ios_profile AllocationMode.warm
