-- ===== src/Core/Config/Model.antt =====
-- config/model/{guest/hot,guest/profile,backend,runtime,root}.rs: the resolved tables. The profile
-- map is the list of its entries in key order.
use flanforge.Base.{ℕ, Bool, Option, none, some, Text, text_eq, List, [], ◌∷◌, if◌then◌else◌}
use flanforge.Core.Names.{ProfileName, RepositoryName, VmName, RunnerLabel, VmPrefix}
use flanforge.Core.Hot.{HotLanePolicy}

pub data SimulatorReset : Type 0 where
  no_reset apps erase : SimulatorReset

pub record HotConfig : Type 0 where
  pub enabled : Bool
  pub lanes : HotLanePolicy
  pub max_idle : ℕ  -- u8
  pub max_lifetime_seconds : ℕ
  pub max_jobs : ℕ  -- u32
  pub idle_ttl_seconds : ℕ
  pub reset_timeout_seconds : ℕ
  pub simulator_reset : SimulatorReset

pub data NetworkMode : Type 0 where
  default_network softnet : NetworkMode

pub record Profile : Type 0 where
  pub repository : RepositoryName
  pub template : VmName
  pub runner_label : RunnerLabel
  pub job_name : Text
  pub allowed_workflows : List Text
  pub allowed_events : List Text
  pub allowed_refs : List Text
  pub require_protected_ref : Bool
  pub network : NetworkMode
  pub cpu_count : ℕ  -- u8
  pub memory_mb : ℕ  -- u32
  pub storage_mb : ℕ  -- u64
  pub boot_timeout_seconds : ℕ
  pub idle_timeout_seconds : ℕ
  pub job_timeout_seconds : ℕ
  pub cleanup_timeout_seconds : ℕ
  pub warm_template : Option VmName
  pub regeneration_workflow : Option Text
  pub hot : Option HotConfig
  pub reap : Bool

-- What the budget reads of `RuntimeBackendConfig`: the libvirt table's storage reserve.
pub data RuntimeBackendConfig : Type 0 where
  tart : RuntimeBackendConfig
  libvirt : ℕ → RuntimeBackendConfig

pub record RuntimeConfig : Type 0 where
  pub vm_prefix : VmPrefix
  pub max_running_vms : ℕ  -- u8
  pub max_hot_vms : ℕ  -- u8
  pub host_cpu_count : Option ℕ  -- u8
  pub host_memory_mb : Option ℕ  -- u32
  pub host_storage_mb : Option ℕ  -- u64
  pub backend : RuntimeBackendConfig

pub record Config : Type 0 where
  pub runtime : RuntimeConfig
  pub profiles : List (ProfileName × Profile)

-- `BTreeMap::get`
unfoldable pub get_profile : ProfileName → List (ProfileName × Profile) → Option Profile
get_profile name [] = none
get_profile name ((key, profile) ∷ rest) =
    if text_eq key name then some profile else get_profile name rest

-- `runtime.libvirt()`: the storage reserve of the libvirt table, where the backend is libvirt.
abbrev pub min_storage_free_mb : RuntimeBackendConfig → Option ℕ
min_storage_free_mb tart = none
min_storage_free_mb (libvirt reserve) = some reserve

abbrev pub is_hot_enabled : HotConfig → Bool
is_hot_enabled h = h.enabled
