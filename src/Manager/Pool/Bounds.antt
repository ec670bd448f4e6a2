-- ===== src/Manager/Pool/Bounds.antt =====
-- hot/bounds.rs, hot/reload.rs and `surplus_idle` of hot/select.rs: the bounds over the whole pool,
-- and what ends machines because a reload, a run or an operator says so. `Live` is what the manager
-- reads beside the records: the configuration, the clock, the backend's fingerprints, the promoted
-- generations, the resident entries, and whether the table of records could be read.
use flanforge.Base.{
  ℕ, ◌-◌, Bool, true, false, not, ◌&&◌, ◌||◌, ◌==◌, ltb, Option, none, some, Text, text_eq, text_lt,
  List, [], ◌∷◌, map, filter, take, length, contains, is_some, is_none_or, unwrap_or, filter_option,
  if◌then◌else◌, Result, ok, err,
}
use flanforge.Core.Names.{ProfileName, VmName}
use flanforge.Core.Source.{BaseFingerprint}
use flanforge.Core.Hot.{
  HotGuest, HotLane, protected_lane, unprotected_lane, lane_eq, HotDrainReason, config_reloaded,
  max_idle, operator_request, idle, draining, state_eq, is_terminal, is_holding_machine, is_serving,
}
use flanforge.Core.Config.{
  Config, Profile, HotConfig, is_hot_enabled, get_profile, is_hot_draining_change,
}
use flanforge.Manager.Model.{Entry, ManagerError}
use flanforge.Manager.Pool.Select.{HotPolicy, drain_reason}
use flanforge.Manager.Pool.Claim.{live_hot_names}
use flanforge.Manager.Pool.Drain.{
  Host, World, load, load_all, remove, ensure_hot_drained, ensure_hot_evicted,
}
pub mod Passes
pub mod Keeps
pub mod Spares
pub mod Kill
pub mod Examples

pub record Live : Type 0 where
  pub config : Config
  pub now : ℕ
  pub fingerprint : VmName → Option BaseFingerprint
  pub promoted_generation : ProfileName → Option ℕ
  pub entries : List Entry
  pub is_readable : Bool

-- `for guest in guests { .. }`
unfoldable pub each : (HotGuest → World → World) → List HotGuest → World → World
each act [] w = w
each act (g ∷ gs) w = each act gs (act g w)

unfoldable pub hot_of : Config → ProfileName → Option HotConfig
hot_of config name = elim (get_profile name config.profiles) [
  | none ↦ none
  | some p ↦ filter_option p.hot is_hot_enabled
]

abbrev fingerprint_of : Live → ProfileName → Option BaseFingerprint
fingerprint_of live name = elim (get_profile name live.config.profiles) [
  | none ↦ none
  | some p ↦ live.fingerprint p.template
]

abbrev drain_if : Host → ℕ → HotGuest → Option HotDrainReason → World → World
drain_if host now g none w = w
drain_if host now g (some reason) w = ensure_hot_drained now host g reason w

abbrev pub policy_for : Live → HotConfig → ProfileName → HotPolicy
policy_for live hot name = record {
  hot = hot;
  fingerprint = fingerprint_of live name;
  warm_generation = live.promoted_generation name;
  now = live.now;
}

-- The body of the first loop of `ensure_hot_bounded`.
unfoldable pub bound_guest : Host → Live → HotGuest → World → World
unfolding hot_of ensure_hot_drained drain_reason
bound_guest host live g w = if is_terminal g.state then w else elim (hot_of live.config g.profile) [
  | none ↦ ensure_hot_drained live.now host g config_reloaded w
  | some hot ↦ drain_if host live.now g (drain_reason g (policy_for live hot g.profile)) w
]

-- The sort of `surplus_idle`: the stalest first, then the lesser name.
abbrev pub staler : HotGuest → HotGuest → Bool
staler a b =
    ltb a.updated_at_unix b.updated_at_unix
    || (a.updated_at_unix == b.updated_at_unix && text_lt a.vm_name b.vm_name)

unfoldable pub insert_staler : HotGuest → List HotGuest → List HotGuest
insert_staler g [] = g ∷ []
insert_staler g (r ∷ rest) =
    let more = insert_staler g rest in if staler r g then r ∷ more else g ∷ r ∷ rest

unfoldable pub sort_stale : List HotGuest → List HotGuest
unfolding insert_staler
sort_stale [] = []
sort_stale (g ∷ gs) = insert_staler g (sort_stale gs)

unfoldable pub surplus_idle : List HotGuest → ProfileName → HotLane → HotConfig → List HotGuest
unfolding sort_stale is_serving
surplus_idle guests profile lane hot =
    let serving = sort_stale (filter (λ g. is_serving g profile lane) guests) in
    take (length serving - hot.max_idle) serving

-- The set of the idle machines' lanes, in the order of its keys.
abbrev lane_lt : HotLane → HotLane → Bool
lane_lt protected_lane unprotected_lane = true
lane_lt a b = false

abbrev key_eq : ProfileName × HotLane → ProfileName × HotLane → Bool
key_eq a b = text_eq a.0 b.0 && lane_eq a.1 b.1

abbrev key_lt : ProfileName × HotLane → ProfileName × HotLane → Bool
key_lt a b = text_lt a.0 b.0 || (text_eq a.0 b.0 && lane_lt a.1 b.1)

unfoldable pub insert_lane :
    ProfileName × HotLane → List (ProfileName × HotLane) → List (ProfileName × HotLane)
unfolding lane_eq
insert_lane k [] = k ∷ []
insert_lane k (l ∷ ls) =
    let more = insert_lane k ls in
    if key_eq k l then l ∷ ls else if key_lt k l then k ∷ l ∷ ls else l ∷ more

unfoldable pub idle_lanes : List HotGuest → List (ProfileName × HotLane)
unfolding insert_lane
idle_lanes [] = []
idle_lanes (g ∷ gs) =
    let rest = idle_lanes gs in
    if state_eq g.state idle then insert_lane (g.profile, g.lane) rest else rest

unfoldable pub retire_lane : Host → Live → List HotGuest → ProfileName × HotLane → World → World
unfolding each hot_of surplus_idle ensure_hot_drained
retire_lane host live guests key w = elim (hot_of live.config key.0) [
  | none ↦ w
  | some hot ↦
      each (λ g. ensure_hot_drained live.now host g max_idle) (surplus_idle guests key.0 key.1 hot)
        w
]

unfoldable pub retire_lanes :
    Host → Live → List HotGuest → List (ProfileName × HotLane) → World → World
unfolding retire_lane
retire_lanes host live guests [] w = w
retire_lanes host live guests (k ∷ ks) w =
    retire_lanes host live guests ks (retire_lane host live guests k w)

unfoldable pub ensure_hot_surplus_retired : Host → Live → List HotGuest → World → World
unfolding retire_lanes idle_lanes
ensure_hot_surplus_retired host live guests w = retire_lanes host live guests (idle_lanes guests) w

abbrev pub reason_of : HotGuest → HotDrainReason
reason_of g = unwrap_or g.drain_reason operator_request

abbrev pub is_drain_finished : List Text → HotGuest → Bool
is_drain_finished claimed g = state_eq g.state draining && not (contains claimed g.vm_name)

abbrev pub is_retryable : List Text → HotGuest → Bool
is_retryable claimed g =
    not (state_eq g.state draining)
    && not (is_some g.claimed_by)
    && not (contains claimed g.vm_name)
    && is_some g.drain_reason

unfoldable pub ensure_hot_drains_finished : Host → Live → List HotGuest → World → World
unfolding each ensure_hot_evicted live_hot_names
ensure_hot_drains_finished host live guests =
    each (λ g. ensure_hot_evicted host g (reason_of g))
      (filter (is_drain_finished (live_hot_names live.entries)) guests)

unfoldable pub ensure_hot_evictions_retried : Host → Live → List HotGuest → World → World
unfolding each ensure_hot_evicted live_hot_names
ensure_hot_evictions_retried host live guests =
    each (λ g. ensure_hot_evicted host g (reason_of g))
      (filter (is_retryable (live_hot_names live.entries)) guests)

-- The end of both passes.
abbrev pub finish_drains : Host → Live → List HotGuest → World → World
finish_drains host live guests w =
    ensure_hot_evictions_retried host live guests (ensure_hot_drains_finished host live guests w)

unfoldable pub ensure_hot_pool_drained : Host → Live → List HotGuest → World → World
unfolding each ensure_hot_drained ensure_hot_drains_finished ensure_hot_evictions_retried
ensure_hot_pool_drained host live guests w = finish_drains host live guests (
    each (λ g. ensure_hot_drained live.now host g config_reloaded)
      (filter (λ (g : HotGuest). not (is_terminal g.state)) guests) w)

unfoldable pub ensure_hot_bounded : Host → Live → World → World
unfolding load_all ensure_hot_pool_drained each bound_guest ensure_hot_surplus_retired
    ensure_hot_drains_finished ensure_hot_evictions_retried
ensure_hot_bounded host live w =
    let guests = load_all w in
    if not live.is_readable
    then w
    else if live.config.runtime.max_hot_vms == 0
    then ensure_hot_pool_drained host live guests w
    else finish_drains host live guests
        (ensure_hot_surplus_retired host live guests (each (bound_guest host live) guests w))

-- Profiles whose machines a reload invalidates: gone, or changed in what a machine is built from.
unfoldable pub drained_profiles : Config → Config → List ProfileName
unfolding is_hot_draining_change
drained_profiles previous next =
    map (λ (e : ProfileName × Profile). e.0)
      (filter
        (λ (e : ProfileName × Profile).
          is_none_or (get_profile e.0 next.profiles) (λ p. is_hot_draining_change e.1 p))
        previous.profiles)

unfoldable pub ensure_hot_reloaded : Host → Live → List ProfileName → World → World
unfolding load_all each ensure_hot_drained
ensure_hot_reloaded host live [] w = w
ensure_hot_reloaded host live (p ∷ ps) w =
    if not live.is_readable
    then w
    else each (λ g. ensure_hot_drained live.now host g config_reloaded)
        (filter (λ (g : HotGuest). is_holding_machine g.state && contains (p ∷ ps) g.profile)
          (load_all w))
        w

unfoldable pub ensure_hot_evicted_for : Host → Live → ProfileName → HotDrainReason → World → World
unfolding load_all each ensure_hot_drained
ensure_hot_evicted_for host live profile reason w =
    if not live.is_readable
    then w
    else each (λ g. ensure_hot_drained live.now host g reason)
        (filter (λ (g : HotGuest). is_holding_machine g.state && text_eq g.profile profile)
          (load_all w))
        w

-- An operator's drain and eviction of one machine.
unfoldable pub hot_drain : Host → ℕ → VmName → World → Result (Unit {0}) ManagerError × World
unfolding load ensure_hot_drained
hot_drain host now name w = elim (load name w) [
  | err e ↦ (err e, w)
  | ok found ↦ elim found [
    | none ↦ (err (ManagerError.unknown_hot_guest name), w)
    | some g ↦ (ok tt, ensure_hot_drained now host g operator_request w)
  ]
]

unfoldable pub hot_evict : Host → VmName → World → Result (Unit {0}) ManagerError × World
unfolding load ensure_hot_evicted
hot_evict host name w = elim (load name w) [
  | err e ↦ (err e, w)
  | ok found ↦ elim found [
    | none ↦ (err (ManagerError.unknown_hot_guest name), w)
    | some g ↦ (ok tt, ensure_hot_evicted host g operator_request w)
  ]
]

unfoldable pub ensure_hot_forgotten : Host → HotGuest → World → World
ensure_hot_forgotten host g w =
    if host.is_removed g.vm_name then record w { rows = remove g.vm_name w.rows } else w
