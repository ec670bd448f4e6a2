-- ===== src/Core/Hot/Lane.antt =====
-- hot/lane.rs, hot/refusal.rs, and the request of hot/request.rs.
use flanforge.Base.{ℕ, Bool, true, false, Option}

pub data HotLane : Type 0 where
  protected_lane unprotected_lane : HotLane

unfoldable pub from_ref_protected : Bool → HotLane
from_ref_protected true = protected_lane
from_ref_protected false = unprotected_lane

-- `==` on the derived discriminants.
unfoldable pub lane_eq : HotLane → HotLane → Bool
lane_eq protected_lane protected_lane = true
lane_eq unprotected_lane unprotected_lane = true
lane_eq _ _ = false

pub data HotLanePolicy : Type 0 where
  no_lane protected_only any_lane : HotLanePolicy

unfoldable pub is_lane_admitted : HotLanePolicy → HotLane → Bool
is_lane_admitted no_lane lane = false
is_lane_admitted protected_only protected_lane = true
is_lane_admitted protected_only unprotected_lane = false
is_lane_admitted any_lane lane = true

pub data HotRefusal : Type 0 where
  not_enabled lane_not_admitted regeneration unsupported_backend pool_full : HotRefusal

pub data HotRequest : Type 0 where
  untouched : HotRequest
  retain : Option ℕ → HotRequest
  evict : HotRequest

unfoldable pub is_retaining : HotRequest → Bool
is_retaining (retain age_seconds) = true
is_retaining _ = false

unfoldable pub is_evicting : HotRequest → Bool
is_evicting evict = true
is_evicting _ = false
