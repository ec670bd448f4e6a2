-- ===== src/Manager/Reaper/Rights.antt =====
-- What each deletion of a sweep rests on.
use flanforge.Base.{
  ℕ, ◌≡◌, refl, ◌≢◌, ◌≤◌, inl, inr, true, false, some, Text, text_eq, text_eq_iff, In, find,
  contains, starts_with, arith, Bool-cases, Option-cases, find-In, find-none, some_inj, ltb, ◌∙◌,
  ap, subst,
}
use flanforge.Core.Names.{ProfileName, VmName}
use flanforge.Core.Source.{WarmImageRecord, staging_suffix}
use flanforge.Core.Allocation.{Allocation, is_terminal}
use flanforge.Core.Config.{Profile}
use flanforge.Manager.Model.{HostMachine}
use flanforge.Manager.Reaper.Sweep.{swept}
use flanforge.Manager.Reaper.{
  ReapAuthorization, ReapCandidate, ReapInputs, plan_sweep, clone_authorization,
  image_authorization, min_age_seconds, image_age_seconds, is_reapable_profile, derived_names,
  suffixed, is_clone_of, is_staging_of, is_image_of,
}

-- What each authorization rests on.
abbrev pub Rests : ReapInputs → Text → ℕ → ReapAuthorization → Type 0
Rests inputs name age (ReapAuthorization.by_record id) =
    (starts_with name inputs.config.runtime.vm_prefix ≡ true)
    × (a : Allocation) × In a inputs.allocations
    × (a.id ≡ id)
    × (is_terminal a.state ≡ true)
    × (a.vm_created ≡ true)
    × (a.vm_name ≡ name)
Rests inputs name age (ReapAuthorization.by_staging profile) =
    (starts_with name inputs.config.runtime.vm_prefix ≡ false)
    × (p : Profile) × (warm : VmName) × In (profile, p) inputs.config.profiles
    × (p.reap ≡ true)
    × (p.warm_template ≡ some warm)
    × (suffixed warm staging_suffix ≡ some name)
Rests inputs name age (ReapAuthorization.by_image profile) =
    (starts_with name inputs.config.runtime.vm_prefix ≡ false)
    × (image_age_seconds ≤ age)
    × (is_reapable_profile inputs.config profile ≡ true)
    × (r : WarmImageRecord) × In r inputs.images
    × (r.profile ≡ profile)
    × (contains (derived_names r.warm_template) name ≡ true)
Rests inputs name age ReapAuthorization.by_prefix =
    (starts_with name inputs.config.runtime.vm_prefix ≡ true)
    × ((a : Allocation)
        → In a inputs.allocations
        → is_terminal a.state ≡ true
        → a.vm_created ≡ true
        → a.vm_name ≢ name)

clone-absurd :
    (inputs : ReapInputs) (name : Text) (a : Allocation)
    → is_clone_of name a ≡ false
    → is_terminal a.state ≡ true
    → a.vm_created ≡ true
    → a.vm_name ≢ name
clone-absurd inputs name a missed t made same =
    let hit : text_eq a.vm_name name ≡ true = (text_eq_iff a.vm_name name).1 same in
    absurd (ground arith)

staging-parts :
    (inputs : ReapInputs) (name : Text) (age : ℕ) (entry : ProfileName × Profile)
    → In entry inputs.config.profiles
    → is_staging_of name entry ≡ true
    → starts_with name inputs.config.runtime.vm_prefix ≡ false
    → Rests inputs name age (ReapAuthorization.by_staging entry.0)
staging-parts inputs name age entry listed test foreign =
    elim (Option-cases entry.1.warm_template) [
      | inl e ↦ absurd (ground arith)
      | inr (warm, e) ↦ elim (Option-cases (suffixed warm staging_suffix)) [
        | inl none_made ↦ absurd (ground arith)
        | inr (value, made) ↦
            let same : value ≡ name = (text_eq_iff value name).0 (ground arith) in
            (foreign, entry.1, warm, listed, ground arith, e, made ∙ ap some same)
      ]
    ]

clone-Rests :
    (inputs : ReapInputs) (name : Text) (age : ℕ)
    → starts_with name inputs.config.runtime.vm_prefix ≡ true
    → Rests inputs name age (clone_authorization inputs name)
unfolding clone_authorization
clone-Rests inputs name age own = elim (Option-cases (find (is_clone_of name) inputs.allocations)) [
  | inl e ↦
      rw (clone_authorization, e)
        (
          own,
          λ a i t made same.
              clone-absurd inputs name a (find-none (is_clone_of name) inputs.allocations e i) t
                made same,
        )
  | inr (a, e) ↦
      let (listed, test) = find-In (is_clone_of name) inputs.allocations e in
      rw (clone_authorization, e)
        (
          own,
          a,
          listed,
          refl,
          ground arith,
          ground arith,
          (text_eq_iff a.vm_name name).0 (ground arith),
        )
]

image-Rests :
    (inputs : ReapInputs) (name : Text) (age : ℕ) {right : ReapAuthorization}
    → starts_with name inputs.config.runtime.vm_prefix ≡ false
    → image_authorization inputs name age ≡ some right
    → Rests inputs name age right
unfolding image_authorization
image-Rests inputs name age {right} foreign h =
    elim (Option-cases (find (is_staging_of name) inputs.config.profiles)) [
      | inr (entry, e) ↦
          let (listed, test) = find-In (is_staging_of name) inputs.config.profiles e in
          subst (Rests inputs name age) (some_inj (rw (image_authorization, e) at h))
            (staging-parts inputs name age entry listed test foreign)
      | inl e ↦ elim (Bool-cases (ltb age image_age_seconds)) [
        | inl young ↦ absurd (ground arith)
        | inr old ↦ elim (Option-cases (find (is_image_of inputs.config name) inputs.images)) [
          | inl q ↦ absurd (ground arith)
          | inr (r, q) ↦
              let (listed, test) = find-In (is_image_of inputs.config name) inputs.images q in
              subst (Rests inputs name age) (some_inj (rw (image_authorization, e, old, q) at h))
                (foreign, ground arith, ground arith, r, listed, refl, ground arith)
        ]
      ]
    ]

-- Each deletion is that of a listed machine at least an hour old, under its own name and age, and
-- rests on what its authorization says: a terminal record of the clone, the prefix and no such
-- record, a reapable profile's staging image, or a day-old image that a reapable record derives.
pub plan_sweep_authorized :
    (inputs : ReapInputs) {c : ReapCandidate}
    → In c (plan_sweep inputs)
    → ((m : HostMachine) × In m inputs.machines
        × (m.name ≡ c.name)
        × (m.age_seconds ≡ some c.age_seconds))
      × (min_age_seconds ≤ c.age_seconds)
      × Rests inputs c.name c.age_seconds c.authorization
plan_sweep_authorized inputs {c} i =
    let (m, listed, _, name, age, old, right) = swept inputs i in
    (
      (m, listed, name, age),
      old,
      elim (Bool-cases (starts_with c.name inputs.config.runtime.vm_prefix)) [
        | inl own ↦
            subst (Rests inputs c.name c.age_seconds) (some_inj (rw own at right))
              (clone-Rests inputs c.name c.age_seconds own)
        | inr foreign ↦ image-Rests inputs c.name c.age_seconds foreign (rw foreign at right)
      ],
    )
