-- ===== src/Manager/Reaper.antt =====
-- crates/flanforge-manager/src/reaper/plan.rs: which machines a sweep may delete, and by what right.
use flanforge.Base.{
  ℕ, Bool, true, false, not, ◌&&◌, ◌||◌, Option, none, some, Text, text_eq, List, [], ◌∷◌, ◌++◌,
  map, filter, filter_map, find, contains, is_some, is_some_and, is_none_or, if◌then◌else◌, ltb,
  starts_with, Result, ok, err,
}
use flanforge.Core.Names.{ProfileName, VmName, with_suffix}
use flanforge.Core.Source.{
  AllocationId, AllocationMode, WarmImageRecord, staging_suffix, previous_suffix,
}
use flanforge.Core.Hot.{HotGuest, is_holding_machine}
use flanforge.Core.Allocation.{Allocation, is_terminal, is_regenerate}
use flanforge.Core.Config.{Config, Profile, get_profile}
use flanforge.Manager.Model.{HostMachine, MachineState}
pub mod Sweep
pub mod Rights
pub mod Reap
pub mod Fresh
pub mod Deletions
pub mod Examples

abbrev pub min_age_seconds : ℕ
min_age_seconds = 3600

abbrev pub image_age_seconds : ℕ
image_age_seconds = 86400

-- `ReapAuthorization`; its `Record` is `by_record`, and the others likewise.
pub data ReapAuthorization : Type 0 where
  by_record : AllocationId → ReapAuthorization
  by_staging : ProfileName → ReapAuthorization
  by_image : ProfileName → ReapAuthorization
  by_prefix : ReapAuthorization

pub record ReapCandidate : Type 0 where
  pub name : Text
  pub state : MachineState
  pub authorization : ReapAuthorization
  pub age_seconds : ℕ

pub record ReapInputs : Type 0 where
  pub config : Config
  pub machines : List HostMachine
  pub allocations : List Allocation
  pub images : List WarmImageRecord
  pub hot : List HotGuest

-- The suffixed name, or none where it is no machine name.
unfoldable pub suffixed : VmName → Text → Option Text
unfolding with_suffix
suffixed warm suffix = elim (with_suffix warm suffix) [ ok name ↦ some name | err e ↦ none ]

abbrev pub to_list : Option Text → List Text
to_list none = []
to_list (some t) = t ∷ []

unfoldable pub derived_names : VmName → List Text
unfolding suffixed
derived_names warm =
    warm ∷ (to_list (suffixed warm previous_suffix) ++ to_list (suffixed warm staging_suffix))

-- What one profile reserves.
unfoldable pub reserved_of : Profile → List Text
unfolding suffixed
reserved_of profile = profile.template ∷ elim profile.warm_template [
  | none ↦ []
  | some warm ↦ warm ∷ to_list (suffixed warm previous_suffix)
]

unfoldable pub reserved_image_names : List (ProfileName × Profile) → List Text
reserved_image_names [] = []
reserved_image_names ((name, profile) ∷ rest) = reserved_of profile ++ reserved_image_names rest

-- What one allocation adds to the protected names: nothing, once it is terminal.
unfoldable pub protected_by : Config → Allocation → List Text
unfolding derived_names
protected_by config a =
    if is_terminal a.state
    then []
    else a.vm_name
      ∷ (if is_regenerate a.mode
          then elim (get_profile a.request.profile config.profiles) [
            | none ↦ []
            | some profile ↦ elim profile.warm_template [
              | none ↦ []
              | some warm ↦ derived_names warm
            ]
          ]
          else [])

unfoldable pub protected_by_all : Config → List Allocation → List Text
protected_by_all config [] = []
protected_by_all config (a ∷ rest) = protected_by config a ++ protected_by_all config rest

unfoldable pub protected_names : ReapInputs → List Text
unfolding protected_by_all reserved_image_names
protected_names inputs =
    protected_by_all inputs.config inputs.allocations
    ++ (map (λ (g : HotGuest). g.vm_name)
          (filter (λ (g : HotGuest). is_holding_machine g.state) inputs.hot)
        ++ reserved_image_names inputs.config.profiles)

-- A terminal record that proves that the daemon created the clone.
abbrev pub is_clone_of : Text → Allocation → Bool
is_clone_of name a = is_terminal a.state && a.vm_created && text_eq a.vm_name name

unfoldable pub clone_authorization : ReapInputs → Text → ReapAuthorization
clone_authorization inputs name = elim (find (is_clone_of name) inputs.allocations) [
  | none ↦ ReapAuthorization.by_prefix
  | some a ↦ ReapAuthorization.by_record a.id
]

abbrev pub is_staging_of : Text → ProfileName × Profile → Bool
is_staging_of name entry =
    entry.1.reap
    && is_some_and entry.1.warm_template
        (λ warm. is_some_and (suffixed warm staging_suffix) (λ value. text_eq value name))

unfoldable pub is_reapable_profile : Config → ProfileName → Bool
is_reapable_profile config name =
    is_none_or (get_profile name config.profiles) (λ (p : Profile). p.reap)

abbrev pub is_image_of : Config → Text → WarmImageRecord → Bool
is_image_of config name r =
    is_reapable_profile config r.profile && contains (derived_names r.warm_template) name

unfoldable pub image_authorization : ReapInputs → Text → ℕ → Option ReapAuthorization
image_authorization inputs name age_seconds =
    elim (find (is_staging_of name) inputs.config.profiles) [
      | some entry ↦ some (ReapAuthorization.by_staging entry.0)
      | none ↦
          if ltb age_seconds image_age_seconds
          then none
          else elim (find (is_image_of inputs.config name) inputs.images) [
            | none ↦ none
            | some r ↦ some (ReapAuthorization.by_image r.profile)
          ]
    ]

abbrev pub authorization_of : ReapInputs → Text → ℕ → Option ReapAuthorization
authorization_of inputs name age_seconds =
    if starts_with name inputs.config.runtime.vm_prefix
    then some (clone_authorization inputs name)
    else image_authorization inputs name age_seconds

unfoldable pub candidate : ReapInputs → HostMachine → Option ReapCandidate
candidate inputs machine = elim machine.age_seconds [
  | none ↦ none
  | some age ↦
      if ltb age min_age_seconds then none else elim (authorization_of inputs machine.name age) [
        | none ↦ none
        | some right ↦ some (record {
          name = machine.name;
          state = machine.state;
          authorization = right;
          age_seconds = age;
        })
      ]
]

unfoldable pub plan_sweep : ReapInputs → List ReapCandidate
unfolding candidate
plan_sweep inputs =
    let protected = protected_names inputs in
    filter_map (candidate inputs)
      (filter (λ (m : HostMachine). not (contains protected m.name)) inputs.machines)

unfoldable pub unaged_candidates : ReapInputs → List Text
unaged_candidates inputs =
    let protected = protected_names inputs in
    map (λ (m : HostMachine). m.name)
      (filter
        (λ (m : HostMachine).
          not (is_some m.age_seconds)
          && starts_with m.name inputs.config.runtime.vm_prefix
          && not (contains protected m.name))
        inputs.machines)
