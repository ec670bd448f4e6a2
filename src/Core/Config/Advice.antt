-- ===== src/Core/Config/Advice.antt =====
-- crates/flanforge-core/src/config/advisory.rs: the choices about the pool that a load warns of.
use flanforge.Base.{
  ℕ, Bool, true, false, not, ◌&&◌, ◌==◌, none, some, Text, codes, List, [], ◌∷◌, ◌++◌, filter, map,
  contains, ltb, leb, if◌then◌else◌,
}
use flanforge.Core.Names.{ProfileName}
use flanforge.Core.Hot.{HotLanePolicy}
use flanforge.Core.Config.Model.{HotConfig, SimulatorReset, Profile, Config}

pub data ConfigAdvisory : Type 0 where
  hot_occupies_every_running_slot : ℕ → ℕ → ConfigAdvisory
  hot_disabled_by_global_cap : ProfileName → ConfigAdvisory
  hot_lane_admits_fork_event : ProfileName → Text → ConfigAdvisory
  hot_lane_admits_nothing : ProfileName → ConfigAdvisory
  hot_idle_pool_empty : ProfileName → ConfigAdvisory
  hot_job_budget_empty : ProfileName → ConfigAdvisory
  hot_idle_exceeds_global_cap : ProfileName → ℕ → ℕ → ConfigAdvisory
  hot_lifetime_below_job_timeout : ProfileName → ℕ → ℕ → ConfigAdvisory
  hot_simulator_state_retained : ProfileName → ConfigAdvisory

abbrev pub fork_events : List Text
fork_events = codes "pull_request" ∷ codes "pull_request_target" ∷ []

-- The derived `PartialEq` of the two enumerations.
abbrev pub policy_code : HotLanePolicy → ℕ
policy_code HotLanePolicy.no_lane = 0
policy_code HotLanePolicy.protected_only = 1
policy_code HotLanePolicy.any_lane = 2

abbrev pub reset_code : SimulatorReset → ℕ
reset_code SimulatorReset.no_reset = 0
reset_code SimulatorReset.apps = 1
reset_code SimulatorReset.erase = 2

-- `if test { advisories.push(..) }`
abbrev pub when : Bool → ConfigAdvisory → List ConfigAdvisory
when true a = a ∷ []
when false a = []

unfoldable pub profile_advisories : ProfileName → Profile → HotConfig → ℕ → List ConfigAdvisory
profile_advisories name profile hot max_hot_vms =
    when (max_hot_vms == 0) (ConfigAdvisory.hot_disabled_by_global_cap name)
    ++ ((if policy_code hot.lanes == policy_code HotLanePolicy.any_lane
          then map (ConfigAdvisory.hot_lane_admits_fork_event name)
              (filter (contains profile.allowed_events) fork_events)
          else [])
        ++ (when (policy_code hot.lanes == policy_code HotLanePolicy.no_lane)
              (ConfigAdvisory.hot_lane_admits_nothing name)
            ++ (when (hot.max_idle == 0) (ConfigAdvisory.hot_idle_pool_empty name)
                ++ (when (hot.max_jobs == 0) (ConfigAdvisory.hot_job_budget_empty name)
                    ++ (when (ltb max_hot_vms hot.max_idle && ltb 0 max_hot_vms)
                          (ConfigAdvisory.hot_idle_exceeds_global_cap name hot.max_idle max_hot_vms)
                        ++ (when (ltb hot.max_lifetime_seconds profile.job_timeout_seconds) (
                              ConfigAdvisory.hot_lifetime_below_job_timeout name
                                hot.max_lifetime_seconds profile.job_timeout_seconds)
                            ++ when
                                (reset_code hot.simulator_reset
                                  == reset_code SimulatorReset.no_reset)
                                (ConfigAdvisory.hot_simulator_state_retained name)))))))

-- The loop over the profiles; a missing or a disabled table is passed over.
unfoldable pub pool_advisories : ℕ → List (ProfileName × Profile) → List ConfigAdvisory
unfolding profile_advisories
pool_advisories max_hot_vms [] = []
pool_advisories max_hot_vms ((name, profile) ∷ rest) =
    (elim profile.hot [
      | none ↦ []
      | some hot ↦ if not hot.enabled then [] else profile_advisories name profile hot max_hot_vms
    ])
    ++ pool_advisories max_hot_vms rest

-- `advisories` up to those of the web surface.
unfoldable pub advisories : Config → List ConfigAdvisory
unfolding pool_advisories
advisories config =
    when
      (leb 1 config.runtime.max_hot_vms
        && config.runtime.max_hot_vms == config.runtime.max_running_vms)
      (ConfigAdvisory.hot_occupies_every_running_slot config.runtime.max_hot_vms
        config.runtime.max_running_vms)
    ++ pool_advisories config.runtime.max_hot_vms config.profiles
