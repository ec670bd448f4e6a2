-- ===== src/Core/Sizing/Examples.antt =====
-- Sizing at a concrete request.
use flanforge.Base.{◌≡◌, refl, some, ok}
use flanforge.Core.Source.{GuestSize}
use flanforge.Core.Hot.{HotRequest}
use flanforge.Core.Sizing.{resolve_hot_age}
use flanforge.Samples.{ios_profile}

abbrev granted : GuestSize
granted = record { cpu_count = 2; memory_mb = 8192; storage_mb = 40960 }

age_granted : resolve_hot_age (HotRequest.retain (some 600)) ios_profile ≡ ok (some 600)
unfolding resolve_hot_age
age_granted = refl
