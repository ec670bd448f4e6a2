-- ===== src/Samples.antt =====
-- Sample records that the examples share: a profile, a pool machine, an allocation, a host.
use flanforge.Base.{true, false, none, some, codes, [], ◌∷◌}
use flanforge.Core.Source.{GuestSize, AllocationMode, CloneSource, CloneKind, AllocationOrigin}
use flanforge.Core.Hot.{HotGuest, HotState, HotLane, HotLanePolicy}
use flanforge.Core.Allocation.{Allocation, AllocationState}
use flanforge.Core.Config.{
  Config, RuntimeBackendConfig, Profile, HotConfig, SimulatorReset, NetworkMode,
}
use flanforge.Core.Claims.{ForgejoClaims}
use flanforge.Manager.Model.{HostMachine, MachineState, MachineOwnership, Entry}

abbrev pub small : GuestSize
small = record { cpu_count = 2; memory_mb = 4096; storage_mb = 40960 }

abbrev pub base_source : CloneSource
base_source = record {
  name = codes "base";
  kind = CloneKind.template_kind;
  base_fingerprint = some (codes "0a1b");
  fallback_reason = none;
}

abbrev pub warm_source : CloneSource
warm_source = record base_source { name = codes "warm-ios"; kind = CloneKind.warm_kind }

abbrev pub hot_config : HotConfig
hot_config = record {
  enabled = true;
  lanes = HotLanePolicy.any_lane;
  max_idle = 1;
  max_lifetime_seconds = 14400;
  max_jobs = 20;
  idle_ttl_seconds = 900;
  reset_timeout_seconds = 120;
  simulator_reset = SimulatorReset.apps;
}

abbrev pub ios_profile : Profile
ios_profile = record {
  repository = codes "acme/app";
  template = codes "base";
  runner_label = codes "ios";
  job_name = codes "build";
  allowed_workflows = codes "ci.yml" ∷ [];
  allowed_events = codes "push" ∷ [];
  allowed_refs = codes "refs/heads/*" ∷ [];
  require_protected_ref = false;
  network = NetworkMode.default_network;
  cpu_count = 4;
  memory_mb = 8192;
  storage_mb = 40960;
  boot_timeout_seconds = 300;
  idle_timeout_seconds = 300;
  job_timeout_seconds = 3600;
  cleanup_timeout_seconds = 120;
  warm_template = some (codes "warm-ios");
  regeneration_workflow = some (codes "ci.yml");
  hot = some hot_config;
  reap = true;
}

abbrev pub host_config : Config
host_config = record {
  runtime = record {
    vm_prefix = codes "ff-";
    max_running_vms = 3;
    max_hot_vms = 2;
    host_cpu_count = some 8;
    host_memory_mb = some 16384;
    host_storage_mb = some 200000;
    backend = RuntimeBackendConfig.libvirt 10000;
  };
  profiles = (codes "ios", ios_profile) ∷ [];
}

abbrev pub idle_guest : HotGuest
idle_guest = record {
  vm_name = codes "ff-ios-7-1";
  profile = codes "ios";
  lane = HotLane.protected_lane;
  state = HotState.idle;
  size = small;
  source = base_source;
  warm_generation = none;
  age_limit_seconds = none;
  booted_at_unix = 1000;
  updated_at_unix = 2000;
  jobs_served = 1;
  claimed_by = none;
  drain_reason = none;
}

abbrev pub claimed_guest : HotGuest
claimed_guest = record idle_guest { state = HotState.claimed; claimed_by = some 9 }

abbrev pub fresh_allocation : Allocation
fresh_allocation = record {
  id = 9;
  request = record {
    profile = codes "ios";
    repository = codes "acme/app";
    run_id = 8;
    run_attempt = 1;
  };
  state = AllocationState.requested;
  vm_name = codes "ff-ios-8-1";
  runner_label = codes "ios-9";
  vm_created = false;
  runner_id = none;
  created_at_unix = 2000;
  updated_at_unix = 2000;
  error = none;
  mode = AllocationMode.cold;
  size = some small;
  source = some base_source;
  origin = AllocationOrigin.cloned;
  hot_lane = none;
  hot_refusal = none;
  hot_age_seconds = none;
  warm_generation = none;
  retention = none;
  terminal_reason = none;
}

-- The allocation that reuses the pool machine.
abbrev pub reusing : Allocation
reusing = record fresh_allocation {
  state = AllocationState.running;
  origin = AllocationOrigin.hot_reuse (codes "ff-ios-7-1") 1 1000;
  hot_lane = some HotLane.protected_lane;
}

abbrev pub entry_of : Allocation → Entry
entry_of a = record {
  allocation = a;
  is_cancelled = false;
  is_supervised = true;
  is_terminalizing = false;
}

abbrev pub pool_machine : HostMachine
pool_machine = record {
  name = codes "ff-ios-7-1";
  state = MachineState.running_machine;
  age_seconds = some 5000;
  size = some small;
  ownership = MachineOwnership.owned_machine;
}

-- A push that the profile allows.
abbrev pub push : ForgejoClaims
push = record {
  actor = codes "ann";
  aud = codes "flanforge";
  event_name = codes "push";
  exp = 2000;
  iat = 1000;
  iss = codes "https://git.example/api/actions";
  nbf = 1000;
  git_ref = codes "refs/heads/main";
  ref_protected = codes "true";
  ref_type = codes "branch";
  repository = codes "acme/app";
  repository_owner = codes "acme";
  run_attempt = codes "1";
  run_id = codes "8";
  run_number = codes "3";
  sha = codes "0123456789012345678901234567890123456789";
  sub = codes "repo:acme/app:ref:refs/heads/main";
  workflow = codes "ci";
  workflow_ref = codes "acme/app/.forgejo/workflows/ci.yml@refs/heads/main";
}
