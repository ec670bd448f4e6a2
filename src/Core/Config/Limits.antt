-- ===== src/Core/Config/Limits.antt =====
-- `ensure_hot_valid` of crates/flanforge-core/src/config/hot.rs and the host budget of
-- config/runtime.rs.
use flanforge.Base.{
  ℕ, ◌+◌, Bool, not, ◌&&◌, ◌||◌, Option, none, some, Text, codes, List, [], ◌∷◌, ltb, leb, is_some,
  is_some_and, is_none_or, unwrap_or, filter_option, if◌then◌else◌, Result, ok, err, map_err, ok_or,
  refuse_if, ◌>>◌, ◌>>=◌, u64_max,
}
use flanforge.Core.Names.{ProfileName}
use flanforge.Core.Config.Model.{
  HotConfig, Profile, RuntimeConfig, Config, min_storage_free_mb, is_hot_enabled,
}
use flanforge.Core.Config.Validate.{ProfileFault, ConfigError, within, differ}

-- `ensure_bounds`
unfoldable pub ensure_bounds : HotConfig → Result (Unit {0}) ProfileFault
ensure_bounds hot = do
  refuse_if (not (within 300 604800 hot.max_lifetime_seconds)) ProfileFault.lifetime_range
  refuse_if (not (within 30 86400 hot.idle_ttl_seconds)) ProfileFault.idle_ttl_range
  refuse_if (not (within 5 600 hot.reset_timeout_seconds)) ProfileFault.reset_timeout_range
  refuse_if (not (within 0 1000 hot.max_jobs)) ProfileFault.max_jobs_range

unfoldable pub check_hot : List (ProfileName × Profile) → Result (Unit {0}) ConfigError
unfolding ensure_bounds
check_hot [] = ok tt
check_hot ((name, profile) ∷ rest) =
    (elim (filter_option profile.hot is_hot_enabled) [
      | none ↦ ok tt
      | some hot ↦ map_err (ConfigError.invalid_profile name) (ensure_bounds hot)
    ])
    >> check_hot rest

unfoldable pub ensure_hot_valid : Config → Result (Unit {0}) ConfigError
unfolding check_hot
ensure_hot_valid config =
    refuse_if (ltb config.runtime.max_running_vms config.runtime.max_hot_vms)
      (ConfigError.out_of_range (codes "runtime.max_hot_vms"))
    >> check_hot config.profiles

unfoldable pub ensure_range : Text → ℕ → ℕ → ℕ → Result (Unit {0}) ConfigError
ensure_range field value min max =
    if within min max value then ok tt else err (ConfigError.out_of_range field)

-- `checked_add` of `u64`
abbrev pub checked_add : ℕ → ℕ → Option ℕ
checked_add a b = if leb (a + b) u64_max then some (a + b) else none

abbrev pub exceeds_reserved_storage : RuntimeConfig → Profile → Bool
exceeds_reserved_storage runtime profile =
    is_some_and (min_storage_free_mb runtime.backend) (λ reserve.
      is_none_or (checked_add profile.storage_mb reserve)
        (λ required. is_none_or runtime.host_storage_mb (λ available. ltb available required)))

-- The loop over the profiles.
unfoldable pub check_sizes :
    RuntimeConfig → ℕ → ℕ → List (ProfileName × Profile) → Result (Unit {0}) ConfigError
check_sizes runtime cpu_count memory_mb [] = ok tt
check_sizes runtime cpu_count memory_mb ((name, profile) ∷ rest) =
    refuse_if
      (ltb cpu_count profile.cpu_count
        || ltb memory_mb profile.memory_mb
        || is_some_and runtime.host_storage_mb (λ host. ltb host profile.storage_mb))
      (ConfigError.invalid_profile name ProfileFault.larger_than_host)
    >> (refuse_if (exceeds_reserved_storage runtime profile)
          (ConfigError.invalid_profile name ProfileFault.larger_than_reserve)
        >> check_sizes runtime cpu_count memory_mb rest)

abbrev pub is_libvirt : RuntimeConfig → Bool
is_libvirt runtime = is_some (min_storage_free_mb runtime.backend)

-- The rest, once some budget is set or needed.
unfoldable pub check_budget_set : Config → Result (Unit {0}) ConfigError
unfolding ensure_range check_sizes
check_budget_set config = do
  let runtime = config.runtime
  refuse_if (differ (is_some runtime.host_cpu_count) (is_some runtime.host_memory_mb)) (
      ConfigError.out_of_range (
        if is_some runtime.host_cpu_count
        then codes "runtime.host_cpu_count"
        else codes "runtime.host_memory_mb"))
  cpu_count ←
      ok_or runtime.host_cpu_count (ConfigError.out_of_range (codes "runtime.host_cpu_count"))
  memory_mb ←
      ok_or runtime.host_memory_mb (ConfigError.out_of_range (codes "runtime.host_memory_mb"))
  refuse_if (is_libvirt runtime && not (is_some runtime.host_storage_mb))
      (ConfigError.out_of_range (codes "runtime.host_storage_mb"))
  ensure_range (codes "runtime.host_cpu_count") cpu_count 1 255
  ensure_range (codes "runtime.host_memory_mb") memory_mb 2048 1048576
  elim runtime.host_storage_mb [
    | none ↦ ok tt
    | some storage_mb ↦ ensure_range (codes "runtime.host_storage_mb") storage_mb 16384 16777216
  ]
  check_sizes runtime cpu_count memory_mb config.profiles
  refuse_if
      (is_some_and (min_storage_free_mb runtime.backend)
        (λ reserve. leb (unwrap_or runtime.host_storage_mb 0) reserve))
      (ConfigError.out_of_range (codes "runtime.backend.min_storage_free_mb"))

unfoldable pub ensure_host_budget_valid : Config → Result (Unit {0}) ConfigError
unfolding check_budget_set
ensure_host_budget_valid config =
    if not (is_some config.runtime.host_cpu_count)
      && not (is_some config.runtime.host_memory_mb)
      && not (is_some config.runtime.host_storage_mb)
      && not (is_libvirt config.runtime)
    then ok tt
    else check_budget_set config
