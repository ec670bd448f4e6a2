-- ===== src/Manager/Resolve.antt =====
-- crates/flanforge-manager/src/resolve.rs: the profile of a request and the machine name that its
-- run owns.
use flanforge.Base.{
  ℕ, ◌≡◌, refl, true, false, List, [], ◌∷◌, ◌++◌, Text, Result, ok, err, ok_or, map_err, to_string,
  to_string_injective, to_string-all, all, is_ascii_digit, ap, sym, ◌∙◌, arith, leb, ◌==◌,
  starts_with, strip_prefix, strip_prefix-append,
}
use flanforge.Core.Names.{VmName, new_vm_name, identifier, VmPrefix}
use flanforge.Core.Allocation.{AllocationRequest}
use flanforge.Core.Config.{Config, Profile, get_profile}
use flanforge.Manager.Model.{ManagerError}
pub mod VmNames
pub mod Derived
pub mod Examples

unfoldable pub profile : Config → AllocationRequest → Result Profile ManagerError
profile config request =
    ok_or (get_profile request.profile config.profiles)
      (ManagerError.unknown_profile request.profile)

-- `format!("{}{}-{}-{}", prefix, profile, run_id, run_attempt)`
abbrev pub joined : VmPrefix → AllocationRequest → Text
joined prefix request =
    prefix
    ++ (request.profile
        ++ (b'-' ∷ (to_string request.run_id ++ (b'-' ∷ to_string request.run_attempt))))

unfoldable pub vm_name : Config → AllocationRequest → Result VmName ManagerError
unfolding new_vm_name
vm_name config request =
    map_err (λ e. ManagerError.invalid_vm_name)
      (new_vm_name (joined config.runtime.vm_prefix request))
