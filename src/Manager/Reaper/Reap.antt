-- ===== src/Manager/Reaper/Reap.antt =====
-- `reap` and the loop over the plan of reaper/sweep.rs: a deletion re-plans on what the host and the
-- stores then say, and asks the backend only for a candidate that is still planned.
use flanforge.Base.{
  ℕ, suc, ◌*◌, max, Bool, true, false, ◌&&◌, ◌==◌, any, find, Option, none, some, Text, text_eq,
  List, [], ◌∷◌, Result, ok, err, if◌then◌else◌,
}
use flanforge.Core.Names.{ProfileName, VmName, new_vm_name}
use flanforge.Core.Source.{WarmImageRecord}
use flanforge.Core.Allocation.{Allocation}
use flanforge.Core.Config.{Config, Profile, get_profile}
use flanforge.Manager.Model.{ManagerError}
use flanforge.Manager.Reaper.{
  ReapAuthorization, by_record, by_staging, by_image, by_prefix, ReapCandidate, ReapInputs,
  plan_sweep, reserved_image_names,
}
use flanforge.Manager.Teardown.Budget.{CleanupBudget, teardown_budget}

abbrev pub right_eq : ReapAuthorization → ReapAuthorization → Bool
right_eq (by_record a) (by_record b) = a == b
right_eq (by_staging p) (by_staging q) = text_eq p q
right_eq (by_image p) (by_image q) = text_eq p q
right_eq by_prefix by_prefix = true
right_eq _ _ = false

-- What the backend is asked to delete, and what it may rest that on.
pub record ReapRequest : Type 0 where
  pub name : VmName
  pub authorization : ReapAuthorization
  pub profile : Option Profile
  pub image_record : Option WarmImageRecord
  pub allocation : Option Allocation
  pub reserved : List Text
  pub budget : CleanupBudget

-- LIBVIRT_MIN_CLEANUP_TIMEOUT_SECONDS
abbrev pub min_cleanup_seconds : ℕ
min_cleanup_seconds = 6

abbrev widest : List (ProfileName × Profile) → Option ℕ → Option ℕ
widest [] best = best
widest (e ∷ es) none = widest es (some e.1.cleanup_timeout_seconds)
widest (e ∷ es) (some s) = widest es (some (max s e.1.cleanup_timeout_seconds))

-- The seconds that a deletion gets.
unfoldable pub cleanup_allowance : Config → Option Profile → ℕ
cleanup_allowance config (some p) = max p.cleanup_timeout_seconds min_cleanup_seconds
cleanup_allowance config none = elim (widest config.profiles none) [
  | none ↦ min_cleanup_seconds
  | some s ↦ max s min_cleanup_seconds
]

abbrev named_profile : ReapAuthorization → Option ProfileName
named_profile (by_staging p) = some p
named_profile (by_image p) = some p
named_profile (by_record id) = none
named_profile by_prefix = none

unfoldable pub reaped_of : List Allocation → ReapAuthorization → Option Allocation
unfolding find
reaped_of allocations (by_record id) = find (λ (a : Allocation). a.id == id) allocations
reaped_of allocations _ = none

abbrev lookup : Config → Option ProfileName → Option Profile
lookup config none = none
lookup config (some p) = get_profile p config.profiles

abbrev profile_of : Config → Option Allocation → ReapAuthorization → Option Profile
profile_of config (some a) right = get_profile a.request.profile config.profiles
profile_of config none right = lookup config (named_profile right)

abbrev record_of : List WarmImageRecord → Option ProfileName → Option WarmImageRecord
record_of images none = none
record_of images (some p) = find (λ (r : WarmImageRecord). text_eq r.profile p) images

unfoldable pub request : Option ℕ → ReapInputs → VmName → ReapAuthorization → ReapRequest
unfolding reaped_of find cleanup_allowance teardown_budget reserved_image_names
request deadline i name right =
    let reaped = reaped_of i.allocations right in
    let profile = profile_of i.config reaped right in
    record {
      name = name;
      authorization = right;
      profile = profile;
      image_record = record_of i.images (named_profile right);
      allocation = reaped;
      reserved = reserved_image_names i.config.profiles;
      budget = teardown_budget deadline (1000 * cleanup_allowance i.config profile);
    }

abbrev pub is_planned : ReapInputs → ReapCandidate → Bool
is_planned i c =
    any (λ (d : ReapCandidate). text_eq d.name c.name && right_eq d.authorization c.authorization)
      (plan_sweep i)

-- What the backend was asked, if anything, and the answer of `reap`.
abbrev pub Reaped : Type 0
Reaped = Option ReapRequest × Result Bool ManagerError

abbrev answered : Result (Unit {0}) ManagerError → Result Bool ManagerError
answered (ok u) = ok true
answered (err e) = err e

abbrev sent : (ReapRequest → Result (Unit {0}) ManagerError) → ReapRequest → Reaped
sent delete_vm r = (some r, answered (delete_vm r))

-- `reads` is what the stores and the host say now, or the first of their errors.
unfoldable pub reap :
    Option ℕ
    → Result ReapInputs ManagerError
    → (ReapRequest → Result (Unit {0}) ManagerError)
    → ReapCandidate
    → Reaped
unfolding new_vm_name plan_sweep any request
reap deadline reads delete_vm c = elim (new_vm_name c.name) [
  | err e ↦ (none, ok false)
  | ok name ↦ elim reads [
    | err e ↦ (none, err e)
    | ok i ↦
        if is_planned i c
        then sent delete_vm (request deadline i name c.authorization)
        else (none, ok false)
  ]
]

-- The deletions of a sweep: what the backend was asked and at which read, and the report's names.
pub record Swept : Type 0 where
  pub requests : List (ℕ × ReapRequest)
  pub deleted : List Text
  pub skipped : List Text

abbrev pub noted : ℕ → Option ReapRequest → List (ℕ × ReapRequest) → List (ℕ × ReapRequest)
noted k none rs = rs
noted k (some r) rs = (k, r) ∷ rs

abbrev pub is_reaped : Result Bool ManagerError → Bool
is_reaped (ok b) = b
is_reaped (err e) = false

-- The loop over the candidates, each with its own read.
unfoldable pub reap_all :
    Option ℕ
    → (ℕ → Result ReapInputs ManagerError)
    → (ReapRequest → Result (Unit {0}) ManagerError)
    → ℕ
    → List ReapCandidate
    → Swept
unfolding reap
reap_all deadline reads delete_vm k [] = record { requests = []; deleted = []; skipped = [] }
reap_all deadline reads delete_vm k (c ∷ cs) =
    let (asked, result) = reap deadline (reads k) delete_vm c in
    let rest = reap_all deadline reads delete_vm (suc k) cs in
    record {
      requests = noted k asked rest.requests;
      deleted = if is_reaped result then c.name ∷ rest.deleted else rest.deleted;
      skipped = if is_reaped result then rest.skipped else c.name ∷ rest.skipped;
    }

-- A dry run deletes nothing.
unfoldable pub sweep_deletions :
    Bool
    → Option ℕ
    → (ℕ → Result ReapInputs ManagerError)
    → (ReapRequest → Result (Unit {0}) ManagerError)
    → List ReapCandidate
    → Swept
unfolding reap_all
sweep_deletions true deadline reads delete_vm planned = record {
  requests = [];
  deleted = [];
  skipped = [];
}
sweep_deletions false deadline reads delete_vm planned = reap_all deadline reads delete_vm 0 planned
