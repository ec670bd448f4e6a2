-- ===== src/Manager/Resolve/Examples.antt =====
-- Machine names at concrete requests.
use flanforge.Base.{
  ◌≡◌, refl, true, codes, ok, starts_with, Text, all, length, In, ◌++◌, ◌∷◌, arith,
}
use flanforge.Core.Allocation.{AllocationRequest}
use flanforge.Manager.Resolve.{joined, vm_name}
use flanforge.Manager.Resolve.VmNames.{vm_name_injective}
use flanforge.Core.Names.{is_name_byte, new_vm_prefix, new_profile_name, new_runner_label}
use flanforge.Core.Config.Validate.{ensure_profiles_valid}
use flanforge.Manager.Resolve.Derived.{ensure_profiles_valid-Names}
use flanforge.Samples.{ios_profile, host_config, fresh_allocation}

abbrev request : AllocationRequest
request = fresh_allocation.request

named : vm_name host_config request ≡ ok (codes "ff-ios-8-1")
unfolding vm_name flanforge.Base.to_string flanforge.Core.Names.starts_alphanumeric
    flanforge.Base.all
named = refl

vm_name_injective_example :
    (request.profile ≡ request.profile) × (request.run_id ≡ 8) × (request.run_attempt ≡ 1)
vm_name_injective_example = vm_name_injective host_config request request named named

profiles_are_valid : ensure_profiles_valid host_config ≡ ok tt
unfolding ensure_profiles_valid flanforge.Base.strip_prefix flanforge.Base.all
    flanforge.Base.contains_byte flanforge.Base.text_eq flanforge.Base.any
    flanforge.Utils.Glob.is_glob_match flanforge.Utils.Refs.is_safe_git_ref_pattern
    flanforge.Utils.Refs.is_safe_ref_shape flanforge.Base.ends_with_byte
    flanforge.Base.contains_text flanforge.Base.split flanforge.Utils.Refs.is_safe_ref_segment
    flanforge.Base.strip_suffix flanforge.Base.contains
profiles_are_valid = refl

abbrev uuid : Text
uuid = codes "9f1c7a3e-0000-4000-8000-000000000001"

uuid_bytes : all is_name_byte uuid ≡ true
unfolding all
uuid_bytes = refl

prefix_is_valid : new_vm_prefix (codes "ff-") ≡ ok (codes "ff-")
unfolding new_vm_prefix flanforge.Core.Names.starts_alphanumeric flanforge.Base.all
prefix_is_valid = refl

name_is_valid : new_profile_name (codes "ios") ≡ ok (codes "ios")
unfolding new_profile_name flanforge.Core.Names.starts_alphanumeric flanforge.Base.all
name_is_valid = refl

label_is_valid : new_runner_label (codes "ios") ≡ ok (codes "ios")
unfolding new_runner_label flanforge.Core.Names.starts_alphanumeric flanforge.Base.all
label_is_valid = refl

ensure_profiles_valid-Names_example :
    (vm_name host_config fresh_allocation.request
      ≡ ok (joined host_config.runtime.vm_prefix fresh_allocation.request))
    × (new_runner_label (codes "ios" ++ (b'-' ∷ uuid)) ≡ ok (codes "ios" ++ (b'-' ∷ uuid)))
ensure_profiles_valid-Names_example =
    ensure_profiles_valid-Names host_config ios_profile fresh_allocation.request uuid (codes "ff-")
      (codes "ios") (codes "ios") profiles_are_valid (In.here refl) prefix_is_valid name_is_valid
      label_is_valid (omega arith) (omega arith) refl uuid_bytes
