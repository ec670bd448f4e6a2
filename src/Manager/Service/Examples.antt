-- ===== src/Manager/Service/Examples.antt =====
-- Creates at concrete answers.
use flanforge.Base.{
  ◌≢◌, any, ◌∷◌, ◌≡◌, refl, ◌≤◌, ℕ, true, false, none, some, codes, [], ok, err, List, length,
  filter, arith,
}
use flanforge.Samples.{
  base_source, ios_profile, hot_config, idle_guest, host_config, fresh_allocation, push,
}
use flanforge.Core.Source.{AllocationMode, AllocationOrigin}
use flanforge.Core.Allocation.{AllocationState, Allocation, AllocationRequest}
use flanforge.Core.Claims.Policy.{IsAuthorized}
use flanforge.Core.Config.Advice.{profile_advisories}
use flanforge.Manager.Service.Advised.{is_inert, profile_advisories-Inert}
use flanforge.Manager.Pool.{reused}
use flanforge.Core.Config.{HotConfig, Profile, get_profile}
use flanforge.Core.Hot.{HotRequest, HotLane}
use flanforge.Core.Sizing.{RequestOptions}
use flanforge.Manager.Admission.{active_allocations}
use flanforge.Manager.Model.{Entry}
use flanforge.Manager.Pool.Drain.{World}
use flanforge.Manager.Resolve.{vm_name}
use flanforge.Manager.Warm.Examples
use flanforge.Manager.Service.{
  Answers, CreateAllocation, Outcome, hot_context, planned, Resolved, prepare_hot, create,
  idempotent, authorize,
}
use flanforge.Manager.Service.Attempts.{WellFormed, attempts}
use flanforge.Manager.Entries.{update, moved}
use flanforge.Manager.Service.Runs.{Run, Step, Change, Safe, Run-Safe}
use flanforge.Manager.Service.Admitted.{create-Admitted}

abbrev answers : Answers
answers = record {
  now = 3000;
  id = 11;
  label = codes "0b";
  warm = Examples.answers;
  base_storage_mb = λ source. none;
  is_hot_supported = true;
  base_fingerprint = some (codes "0a1b");
  promoted_image = some none;
  machines = some [];
  hot = some [];
  is_closing = false;
  is_clone_source_evidence_deferred = false;
  host = record {
    is_evicted = λ g. true;
    is_reset = λ g. true;
    is_saved = λ g. true;
    is_removed = λ name. true;
  };
  live = record {
    config = host_config;
    now = 3000;
    fingerprint = λ n. none;
    promoted_generation = λ p. none;
    entries = [];
    is_readable = true;
  };
  is_counted = true;
  yields = λ k. record { machines = some []; is_readable = true; entries = [] };
  is_saved = λ a. true;
  history_limit = 10;
}

abbrev plain : RequestOptions
plain = record { warm = false; hot = HotRequest.untouched; cpu_count = none; memory_mb = none }

abbrev empty : World
empty = record { rows = []; gone = [] }

abbrev request : AllocationRequest
request = fresh_allocation.request

abbrev Authorized : Answers → Type 0
Authorized a = (resolved : Resolved) × (authorize a host_config request plain push ≡ ok resolved)

abbrev first : Outcome
first = create answers host_config [] empty request plain push

none_live : (r : AllocationRequest) → length (attempts r []) ≤ 1
unfolding active_allocations filter
none_live r = omega arith

none_yet : WellFormed []
none_yet = record { keys = tt; one_live = λ r. none_live r }

-- The push runs the regeneration workflow, so that it boots from the template.
abbrev produced : Allocation
produced = record fresh_allocation {
  id = 11;
  runner_label = codes "ios-0b";
  created_at_unix = 3000;
  updated_at_unix = 3000;
  mode = AllocationMode.regenerate;
  size = some (record { cpu_count = 4; memory_mb = 8192; storage_mb = 40960 });
  source = some base_source;
}

first_is_new : first.result ≡ ok (record { allocation = produced; is_new = true })
unfolding flanforge.Base.to_string flanforge.Base.parse flanforge.Base.find flanforge.Base.filter
    flanforge.Base.filter_map flanforge.Base.best_by flanforge.Base.text_eq
    flanforge.Base.strip_prefix flanforge.Base.split_once flanforge.Base.contains
    flanforge.Base.contains_text flanforge.Base.strip_suffix flanforge.Base.char_count
    flanforge.Core.Allocation.Evidence.changes flanforge.Core.Allocation.new_allocation
    flanforge.Core.Claims.validate_text flanforge.Core.Claims.validate_token
    flanforge.Core.Claims.validate_name flanforge.Core.Claims.validate_boolean
    flanforge.Core.Claims.validate_repository flanforge.Core.Claims.validate_positive_decimal
    flanforge.Core.Claims.validate_sha flanforge.Core.Claims.is_valid_claims
    flanforge.Core.Claims.is_valid_request flanforge.Core.Claims.is_allowed
    flanforge.Core.Claims.workflow_file flanforge.Core.Claims.is_ref_protected
    flanforge.Core.Claims.ensure_authorized flanforge.Core.Config.get_profile
    flanforge.Core.Hot.is_retaining flanforge.Core.Names.starts_alphanumeric
    flanforge.Core.Names.new_profile_name flanforge.Core.Names.new_runner_label
    flanforge.Core.Names.ensure_valid flanforge.Core.Names.new_repository_name
    flanforge.Core.Names.owner flanforge.Core.Sizing.resolve_size flanforge.Core.Sizing.resolve_mode
    flanforge.Core.Sizing.resolve_hot_age flanforge.Manager.Admission.ensure_sole_producer
    flanforge.Manager.Admission.active_allocations flanforge.Manager.Admission.foreign_running
    flanforge.Manager.Admission.foreign_capacity flanforge.Manager.Admission.committed_capacity
    flanforge.Manager.Admission.orphans flanforge.Manager.Admission.orphan_capacity
    flanforge.Manager.Admission.hot_capacity flanforge.Manager.Admission.ensure_capacity
    flanforge.Manager.Admission.hot_snapshot flanforge.Manager.Pool.apply
    flanforge.Manager.Resolve.profile flanforge.Manager.Resolve.vm_name
    flanforge.Manager.Service.create flanforge.Manager.Service.effective_size
    flanforge.Manager.Warm.resolve_source flanforge.Utils.Glob.is_glob_match
    flanforge.Utils.Refs.is_safe_ref_segment flanforge.Utils.Refs.is_safe_ref_shape
    flanforge.Utils.Refs.is_safe_git_ref
first_is_new = refl

first_resolves : Authorized answers
unfolding flanforge.Base.parse flanforge.Base.any flanforge.Base.text_eq flanforge.Base.strip_prefix
    flanforge.Base.split_once flanforge.Base.contains flanforge.Base.contains_text
    flanforge.Base.strip_suffix flanforge.Base.char_count flanforge.Core.Claims.validate_text
    flanforge.Core.Claims.validate_token flanforge.Core.Claims.validate_name
    flanforge.Core.Claims.validate_boolean flanforge.Core.Claims.validate_repository
    flanforge.Core.Claims.validate_positive_decimal flanforge.Core.Claims.validate_sha
    flanforge.Core.Claims.is_valid_claims flanforge.Core.Claims.is_valid_request
    flanforge.Core.Claims.is_allowed flanforge.Core.Claims.workflow_identity
    flanforge.Core.Claims.is_ref_protected flanforge.Core.Claims.ensure_authorized
    flanforge.Core.Config.get_profile flanforge.Core.Names.starts_alphanumeric
    flanforge.Core.Names.new_profile_name flanforge.Core.Names.ensure_valid
    flanforge.Core.Names.new_repository_name flanforge.Core.Names.owner
    flanforge.Core.Sizing.resolve_size flanforge.Core.Sizing.resolve_hot_age
    flanforge.Manager.Resolve.profile flanforge.Manager.Service.create
    flanforge.Utils.Glob.is_glob_match flanforge.Utils.Refs.is_safe_ref_segment
    flanforge.Utils.Refs.is_safe_ref_shape flanforge.Utils.Refs.is_safe_git_ref
first_resolves = (_, refl)

create-Admitted_example :
    (produced.request ≡ request)
    × (vm_name host_config request ≡ ok produced.vm_name)
    × ((p : Profile) × (get_profile request.profile host_config.profiles ≡ some p)
        × IsAuthorized push p request)
    × (idempotent [] request ≡ none)
    × (length (active_allocations first.entries) ≤ 3)
create-Admitted_example =
    create-Admitted answers host_config [] empty request plain push none_yet first_is_new

abbrev prepared : World
prepared = (prepare_hot answers host_config request first_resolves.0 plain empty).1

-- A create, and the step of its allocation into its work.
abbrev second : List Entry
second =
    (update true (λ entries. entries) 11 (moved 3100 AllocationState.preparing) first.entries).1

one_of_three : 3 ≤ 3
one_of_three = omega arith

no_live : length (active_allocations []) ≤ 3
unfolding active_allocations filter
no_live = omega arith

Run-Safe_example : Safe 3 second
Run-Safe_example =
    Run-Safe
      (Run.next
        (Run.next Run.start
          (Step.creates answers host_config empty request plain push one_of_three))
        (Step.updates true 11 (Change.to_state 3100 AllocationState.preparing)))
      (none_yet, no_live)

-- A pool whose machines may serve no job.
abbrev jobless : HotConfig
jobless = record hot_config { max_jobs = 0 }

abbrev advised : Profile
advised = record ios_profile { hot = some jobless }

is_warned : any is_inert (profile_advisories (codes "ios") advised jobless 2) ≡ true
unfolding profile_advisories any filter flanforge.Base.contains flanforge.Base.text_eq
is_warned = refl

profile_advisories-Inert_example :
    planned answers []
      (idle_guest ∷ [])
      (hot_context answers host_config (codes "ios") advised HotLane.protected_lane none)
    ≢ some (reused idle_guest (AllocationOrigin.hot_reuse (codes "ff-ios-7-1") 1 1000) base_source)
profile_advisories-Inert_example =
    profile_advisories-Inert answers host_config (codes "ios") advised jobless
      HotLane.protected_lane none [] (idle_guest ∷ []) refl is_warned idle_guest
      (AllocationOrigin.hot_reuse (codes "ff-ios-7-1") 1 1000) base_source
