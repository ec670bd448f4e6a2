-- ===== src/Core/Config/Reload.antt =====
-- `is_hot_draining_change` of config/reload.rs: which change of a profile a running machine cannot
-- absorb. The derived equality of the hot table is the conjunction of its fields'.
use flanforge.Base.{ℕ, Bool, true, false, not, ◌&&◌, ◌||◌, ◌==◌, Option, none, some, text_eq}
use flanforge.Core.Hot.{HotLanePolicy, no_lane, protected_only, any_lane}
use flanforge.Core.Config.Model.{
  Profile, HotConfig, NetworkMode, default_network, softnet, SimulatorReset, no_reset, apps, erase,
}

abbrev bool_eq : Bool → Bool → Bool
bool_eq true b = b
bool_eq false b = not b

abbrev network_eq : NetworkMode → NetworkMode → Bool
network_eq default_network default_network = true
network_eq softnet softnet = true
network_eq default_network softnet = false
network_eq softnet default_network = false

abbrev policy_code : HotLanePolicy → ℕ
policy_code no_lane = 0
policy_code protected_only = 1
policy_code any_lane = 2

abbrev reset_code : SimulatorReset → ℕ
reset_code no_reset = 0
reset_code apps = 1
reset_code erase = 2

unfoldable pub hot_eq : HotConfig → HotConfig → Bool
hot_eq a b =
    bool_eq a.enabled b.enabled
    && policy_code a.lanes == policy_code b.lanes
    && a.max_idle == b.max_idle
    && a.max_lifetime_seconds == b.max_lifetime_seconds
    && a.max_jobs == b.max_jobs
    && a.idle_ttl_seconds == b.idle_ttl_seconds
    && a.reset_timeout_seconds == b.reset_timeout_seconds
    && reset_code a.simulator_reset == reset_code b.simulator_reset

-- The derived `PartialEq` of an option, by that of its content.
abbrev pub option_eq {ℓ} : {A : Type ℓ} → (A → A → Bool) → Option A → Option A → Bool
option_eq eq none none = true
option_eq eq (some a) (some b) = eq a b
option_eq eq _ _ = false

unfoldable pub is_hot_draining_change : Profile → Profile → Bool
unfolding hot_eq
is_hot_draining_change old new =
    not (old.cpu_count == new.cpu_count)
    || not (old.memory_mb == new.memory_mb)
    || not (old.storage_mb == new.storage_mb)
    || not (network_eq old.network new.network)
    || not (text_eq old.template new.template)
    || not (option_eq text_eq old.warm_template new.warm_template)
    || not (option_eq hot_eq old.hot new.hot)
