-- ===== src/Core/Config/Validate.antt =====
-- crates/flanforge-core/src/config/{profile,hot}.rs, the host budget of config/runtime.rs and the
-- ranges of config/validate.rs: what a load refuses. Each message is a constructor.
use flanforge.Base.{
  ℕ, ◌+◌, ◌-◌, Bool, true, false, not, ◌&&◌, ◌||◌, ◌==◌, none, some, Text, codes, text_eq, List, [],
  ◌∷◌, length, ltb, leb, all, any, contains, contains_byte, starts_with, is_some, is_some_and,
  is_ascii_alphanumeric, is_ascii_control, Result, ok, map_err, refuse_if, ◌>>◌,
}
use flanforge.Utils.Glob.{is_glob_match}
use flanforge.Utils.Refs.{is_safe_git_ref_pattern}
use flanforge.Core.Names.{ProfileName, VmName, VmPrefix, RunnerLabel}
use flanforge.Core.Source.{previous_suffix}
use flanforge.Core.Config.Model.{Profile, Config}

pub data ProfileFault : Type 0 where
  template_prefix label_too_long vm_name_too_long empty_allowlist unsafe_workflow : ProfileFault
  half_declared warm_prefix warm_too_long warm_is_template regeneration_not_allowed : ProfileFault
  unsafe_job_name unsafe_event unsafe_ref size_range : ProfileFault
  timeout_range : Text → ProfileFault
  lifetime_range idle_ttl_range reset_timeout_range max_jobs_range : ProfileFault
  larger_than_host larger_than_reserve : ProfileFault

pub data ConfigError : Type 0 where
  out_of_range : Text → ConfigError
  invalid_profile : ProfileName → ProfileFault → ConfigError
  duplicate_runner_label : ConfigError

-- `(low..=high).contains(&value)`
abbrev pub within : ℕ → ℕ → ℕ → Bool
within low high value = leb low value && leb value high

-- `VmName::MAX_LEN` and `RunnerLabel::MAX_LEN`
abbrev pub vm_name_max : ℕ
vm_name_max = 80

abbrev pub runner_label_max : ℕ
runner_label_max = 64

abbrev pub is_workflow_byte : Bool → ℕ → Bool
is_workflow_byte wildcards byte =
    is_ascii_alphanumeric byte
    || (byte == b'-' || byte == b'_' || byte == b'.')
    || (wildcards && (byte == b'*' || byte == b'?'))

unfoldable pub is_safe_workflow_shape : Text → Bool → Bool
is_safe_workflow_shape value wildcards =
    not (length value == 0)
    && not (contains_byte value b'/')
    && leb (length value) 128
    && all (is_workflow_byte wildcards) value

-- The rules of a declared warm template.
abbrev pub warm_template_rules : Profile → VmPrefix → VmName → Result (Unit {0}) ProfileFault
warm_template_rules profile vm_prefix warm = do
  refuse_if (starts_with warm vm_prefix) ProfileFault.warm_prefix
  refuse_if (ltb (vm_name_max - length previous_suffix) (length warm)) ProfileFault.warm_too_long
  refuse_if (text_eq warm profile.template) ProfileFault.warm_is_template

abbrev pub is_unlisted : Profile → Text → Bool
is_unlisted profile workflow =
    not (is_safe_workflow_shape workflow false)
    || not (any (λ pattern. is_glob_match pattern workflow) profile.allowed_workflows)

-- `is_some() != is_some()`
abbrev pub differ : Bool → Bool → Bool
differ true b = not b
differ false b = b

unfoldable pub warm_rules : Profile → VmPrefix → Result (Unit {0}) ProfileFault
unfolding is_safe_workflow_shape
warm_rules profile vm_prefix = do
  refuse_if (differ (is_some profile.warm_template) (is_some profile.regeneration_workflow))
      ProfileFault.half_declared
  elim profile.warm_template [
    | none ↦ ok tt
    | some warm ↦ warm_template_rules profile vm_prefix warm
  ]
  refuse_if (is_some_and profile.regeneration_workflow (is_unlisted profile))
      ProfileFault.regeneration_not_allowed

abbrev pub is_safe_event : Text → Bool
is_safe_event value =
    not (length value == 0)
    && leb (length value) 64
    && all (λ byte. is_ascii_alphanumeric byte || byte == b'_') value

-- The loop over the timeouts and their greatest values.
unfoldable pub check_timeouts : List (Text × ℕ × ℕ) → Result (Unit {0}) ProfileFault
check_timeouts [] = ok tt
check_timeouts ((label, timeout, max) ∷ rest) =
    refuse_if (not (within 5 max timeout)) (ProfileFault.timeout_range label) >> check_timeouts rest

unfoldable pub ensure_profile : ProfileName → Profile → VmPrefix → Result (Unit {0}) ProfileFault
unfolding warm_rules check_timeouts
ensure_profile name profile vm_prefix = do
  refuse_if (starts_with profile.template vm_prefix) ProfileFault.template_prefix
  refuse_if (ltb runner_label_max (length profile.runner_label + 1 + 36))
      ProfileFault.label_too_long
  refuse_if (ltb vm_name_max (length vm_prefix + length name + 1 + 20 + 1 + 10))
      ProfileFault.vm_name_too_long
  refuse_if
      (length profile.allowed_workflows == 0
        || length profile.allowed_events == 0
        || length profile.allowed_refs == 0)
      ProfileFault.empty_allowlist
  refuse_if (not (all (λ value. is_safe_workflow_shape value true) profile.allowed_workflows))
      ProfileFault.unsafe_workflow
  warm_rules profile vm_prefix
  refuse_if
      (length profile.job_name == 0
        || ltb 128 (length profile.job_name)
        || any is_ascii_control profile.job_name)
      ProfileFault.unsafe_job_name
  refuse_if (not (all is_safe_event profile.allowed_events)) ProfileFault.unsafe_event
  refuse_if (not (all is_safe_git_ref_pattern profile.allowed_refs)) ProfileFault.unsafe_ref
  refuse_if
      (not (within 1 64 profile.cpu_count)
        || not (within 2048 131072 profile.memory_mb)
        || not (within 16384 1048576 profile.storage_mb))
      ProfileFault.size_range
  check_timeouts (
      (codes "boot", profile.boot_timeout_seconds, 1800)
      ∷ (codes "idle", profile.idle_timeout_seconds, 3600)
      ∷ (codes "job", profile.job_timeout_seconds, 43200)
      ∷ (codes "cleanup", profile.cleanup_timeout_seconds, 600)
      ∷ [])

-- The loop over the profiles; `labels` are those seen before.
unfoldable pub check_profiles :
    VmPrefix → List RunnerLabel → List (ProfileName × Profile) → Result (Unit {0}) ConfigError
unfolding ensure_profile
check_profiles vm_prefix labels [] = ok tt
check_profiles vm_prefix labels ((name, profile) ∷ rest) =
    map_err (ConfigError.invalid_profile name) (ensure_profile name profile vm_prefix)
    >> (refuse_if (contains labels profile.runner_label) ConfigError.duplicate_runner_label
        >> check_profiles vm_prefix (profile.runner_label ∷ labels) rest)

unfoldable pub ensure_profiles_valid : Config → Result (Unit {0}) ConfigError
unfolding check_profiles
ensure_profiles_valid config = check_profiles config.runtime.vm_prefix [] config.profiles
