-- ===== src/Core/Sizing.antt =====
-- crates/flanforge-core/src/allocation/sizing.rs and `resolve_hot_age` of hot/request.rs: what a
-- request may choose beneath its profile.
use flanforge.Base.{
  ℕ, ◌≡◌, refl, ◌≤◌, ◌↔◌, ◌⊎◌, inl, inr, Bool, true, false, not, ◌&&◌, ◌||◌, Option, none, some,
  Text, text_eq, text_eq_iff, ltb, if◌then◌else◌, is_some, is_some_and, unwrap_or, filter_option,
  Result, ok, err, arith, Option-cases, Bool-cases, some_inj, ◌∙◌, sym, ap,
}
use flanforge.Core.Source.{GuestSize, AllocationMode}
use flanforge.Core.Hot.{HotRequest, is_retaining}
use flanforge.Core.Config.{Profile, HotConfig, is_hot_enabled}
pub mod Examples

pub record RequestOptions : Type 0 where
  pub warm : Bool
  pub hot : HotRequest
  pub cpu_count : Option ℕ  -- u8
  pub memory_mb : Option ℕ  -- u32

pub data SizeCeilingError : Type 0 where
  size_ceiling : SizeCeilingError

pub data HotCeilingError : Type 0 where
  hot_ceiling : HotCeilingError

unfoldable pub resolve_size : RequestOptions → Profile → Result GuestSize SizeCeilingError
resolve_size options profile =
    let cpu_count = unwrap_or options.cpu_count profile.cpu_count in
    let memory_mb = unwrap_or options.memory_mb profile.memory_mb in
    if ltb profile.cpu_count cpu_count || ltb profile.memory_mb memory_mb
    then err SizeCeilingError.size_ceiling
    else ok
        (record { cpu_count = cpu_count; memory_mb = memory_mb; storage_mb = profile.storage_mb })

unfoldable pub is_producer : Profile → Text → Bool
is_producer profile workflow_file =
    is_some profile.warm_template
    && is_some_and profile.regeneration_workflow (λ declared. text_eq declared workflow_file)

unfoldable pub resolve_mode : RequestOptions → Profile → Text → AllocationMode
unfolding is_producer
resolve_mode options profile workflow_file =
    if is_producer profile workflow_file
    then AllocationMode.regenerate
    else if options.warm || is_retaining options.hot
    then AllocationMode.warm
    else AllocationMode.cold

-- An age is kept only for a retaining request on a profile whose pool is enabled.
unfoldable pub resolve_hot_age : HotRequest → Profile → Result (Option ℕ) HotCeilingError
resolve_hot_age (HotRequest.retain (some age_seconds)) profile =
    elim (filter_option profile.hot is_hot_enabled) [
      | none ↦ ok none
      | some hot ↦
          if ltb hot.max_lifetime_seconds age_seconds
          then err HotCeilingError.hot_ceiling
          else ok (some age_seconds)
    ]
resolve_hot_age _ profile = ok none

-- The size that the request asks for, filled from the profile and within it.
abbrev pub Granted : RequestOptions → Profile → GuestSize → Type 0
Granted o p s =
    (s.cpu_count ≡ unwrap_or o.cpu_count p.cpu_count)
    × (s.memory_mb ≡ unwrap_or o.memory_mb p.memory_mb)
    × (s.storage_mb ≡ p.storage_mb)
    × (s.cpu_count ≤ p.cpu_count)
    × (s.memory_mb ≤ p.memory_mb)

-- A size is granted exactly when it is the request's, filled from the profile where the request is
-- silent, with the profile's storage, and neither count passes the profile's.
pub resolve_size_iff :
    (o : RequestOptions) (p : Profile) (s : GuestSize) → (resolve_size o p ≡ ok s) ↔ Granted o p s
unfolding resolve_size
resolve_size_iff o p s = (λ h. ground arith, λ h. ground arith)

is_producer_iff :
    (p : Profile) (w : Text)
    → (is_producer p w ≡ true)
      ↔ (is_some p.warm_template ≡ true) × (p.regeneration_workflow ≡ some w)
unfolding is_producer
is_producer_iff p w = elim (Option-cases p.regeneration_workflow) [
  | inl e ↦ (λ h. absurd (ground arith), λ h. absurd (ground arith))
  | inr (declared, e) ↦ (
    λ h.
        let same : declared ≡ w = (text_eq_iff declared w).0 (ground arith) in
        (ground arith, e ∙ ap some same),
    λ h.
        let same : declared ≡ w = some_inj (sym e ∙ h.1) in
        let hit : text_eq declared w ≡ true = (text_eq_iff declared w).1 same in ground arith,
  )
]

filter_option-some {ℓ} :
    {A : Type ℓ} (o : Option A) (p : A → Bool) {x : A}
    → filter_option o p ≡ some x
    → (o ≡ some x) × (p x ≡ true)
filter_option-some none p h = absurd (ground arith)
filter_option-some (some y) p {x} h = elim (Bool-cases (p y)) [
  | inl e ↦ let same : y ≡ x = some_inj (rw e at h) in (ap some same, ap p (sym same) ∙ e)
  | inr e ↦ absurd (ground arith)
]

-- A run regenerates exactly when its profile names a warm template and declares the run's workflow
-- as its regeneration workflow, whatever the request asks; otherwise it boots warm exactly when it
-- asks to boot warm or to be retained.
pub resolve_mode_iff :
    (o : RequestOptions) (p : Profile) (w : Text)
    → ((resolve_mode o p w ≡ AllocationMode.regenerate)
        ↔ (is_some p.warm_template ≡ true) × (p.regeneration_workflow ≡ some w))
      × ((resolve_mode o p w ≡ AllocationMode.warm)
          ↔ ¬ ((is_some p.warm_template ≡ true) × (p.regeneration_workflow ≡ some w))
            × ((o.warm ≡ true) ⊎ (is_retaining o.hot ≡ true)))
unfolding resolve_mode
resolve_mode_iff o p w =
    let (to, from) = is_producer_iff p w in
    elim (Bool-cases (is_producer p w)) [
      | inl e ↦
          ((λ h. to e, λ h. rw e refl), (λ h. absurd (ground arith), λ h. absurd (h.0 (to e))))
      | inr e ↦ (
        (λ h. absurd (ground arith), λ h. absurd (ground (arith, from h))),
        (λ h. (λ q. absurd (ground (arith, from q)), ground arith), λ h. ground arith),
      )
    ]

-- An age that is granted is one that the request asked for, and the enabled pool's ceiling holds it.
pub resolve_hot_age_sound :
    (r : HotRequest) (p : Profile) {age : ℕ}
    → resolve_hot_age r p ≡ ok (some age)
    → (r ≡ HotRequest.retain (some age))
      × (hot : HotConfig) × (p.hot ≡ some hot)
      × (is_hot_enabled hot ≡ true)
      × (age ≤ hot.max_lifetime_seconds)
unfolding resolve_hot_age
resolve_hot_age_sound HotRequest.untouched p h = absurd (ground arith)
resolve_hot_age_sound HotRequest.evict p h = absurd (ground arith)
resolve_hot_age_sound (HotRequest.retain none) p h = absurd (ground arith)
resolve_hot_age_sound (HotRequest.retain (some asked)) p {age} h =
    elim (Option-cases (filter_option p.hot is_hot_enabled)) [
      | inl e ↦ absurd (ground arith)
      | inr (hot, e) ↦
          let (set, enabled) = filter_option-some p.hot is_hot_enabled e in
          let same : asked ≡ age = ground arith in
          (ap (λ (a : ℕ). HotRequest.retain (some a)) same, hot, set, enabled, ground arith)
    ]
