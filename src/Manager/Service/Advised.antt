-- ===== src/Manager/Service/Advised.antt =====
-- What a load warns of, against the claims that a create plans.
use flanforge.Base.{
  ℕ, ◌<◌, ◌≡◌, ◌≢◌, refl, ap, ◌∙◌, subst, inl, inr, ◌⊎◌, Bool, true, false, ◌&&◌, ◌||◌, ◌==◌,
  Option, some, Text, List, [], ◌∷◌, ◌++◌, any, map, filter, contains, filter_option, arith,
  Bool-cases, Option-cases, if◌then◌else◌,
}
use flanforge.Core.Names.{ProfileName}
use flanforge.Core.Source.{AllocationId, AllocationOrigin, CloneSource}
use flanforge.Core.Hot.{HotGuest, HotLane, HotLanePolicy, is_lane_admitted}
use flanforge.Core.Config.{Config, HotConfig, Profile, is_hot_enabled}
use flanforge.Core.Config.Advice.{
  ConfigAdvisory, profile_advisories, when, policy_code, fork_events,
}
use flanforge.Manager.Model.{Entry}
use flanforge.Manager.Pool.{HotContext, reused, policy, claimable, live_hot_names, plan_hot_claim}
use flanforge.Manager.Pool.Choice.{claimable_sound}
use flanforge.Manager.Service.{Answers, hot_context, planned}

-- The warnings that say that no machine of the pool will serve.
abbrev pub is_inert : ConfigAdvisory → Bool
is_inert (ConfigAdvisory.hot_disabled_by_global_cap name) = true
is_inert (ConfigAdvisory.hot_lane_admits_nothing name) = true
is_inert (ConfigAdvisory.hot_job_budget_empty name) = true
is_inert _ = false

any-append :
    (p : ConfigAdvisory → Bool) (xs ys : List ConfigAdvisory)
    → any p (xs ++ ys) ≡ any p xs || any p ys
unfolding any
any-append p [] ys = refl
any-append p (x ∷ xs) ys = ground (arith, any-append p xs ys)

any-when : (b : Bool) (a : ConfigAdvisory) → any is_inert (when b a) ≡ b && is_inert a
unfolding any
any-when true a = ground arith
any-when false a = refl

forks_serve :
    (name : ProfileName) (xs : List Text)
    → any is_inert (map (ConfigAdvisory.hot_lane_admits_fork_event name) xs) ≡ false
unfolding any
forks_serve name [] = refl
forks_serve name (x ∷ xs) = forks_serve name xs

forks_part :
    (name : ProfileName) (b : Bool) (xs : List Text)
    → any is_inert (if b then map (ConfigAdvisory.hot_lane_admits_fork_event name) xs else [])
      ≡ false
unfolding any
forks_part name true xs = forks_serve name xs
forks_part name false xs = refl

no_lane_of : (l : HotLanePolicy) → (policy_code l == 0) ≡ true → l ≡ HotLanePolicy.no_lane
no_lane_of HotLanePolicy.no_lane h = refl
no_lane_of HotLanePolicy.protected_only h = absurd (ground arith)
no_lane_of HotLanePolicy.any_lane h = absurd (ground arith)

inert_reasons :
    (name : ProfileName) (p : Profile) (hot : HotConfig) (cap : ℕ)
    → any is_inert (profile_advisories name p hot cap) ≡ true
    → (cap ≡ 0) ⊎ ((hot.lanes ≡ HotLanePolicy.no_lane) ⊎ (hot.max_jobs ≡ 0))
unfolding profile_advisories
inert_reasons name p hot cap h =
    let forks =
      forks_part name (policy_code hot.lanes == policy_code HotLanePolicy.any_lane)
        (filter (contains p.allowed_events) fork_events) in
    let reasons = simp (any-append, any-when, forks) at h in
    elim (Bool-cases (cap == 0)) [
      | inl e ↦ inl (ground arith)
      | inr e ↦ elim (Bool-cases (policy_code hot.lanes == 0)) [
        | inl n ↦ inr (inl (no_lane_of hot.lanes n))
        | inr n ↦ inr (inr (ground arith))
      ]
    ]

context_parts :
    (answers : Answers) (config : Config) (name : ProfileName) (p : Profile) (lane : HotLane)
    (age : Option ℕ) {hot : HotConfig} {c : HotContext}
    → p.hot ≡ some hot
    → hot_context answers config name p lane age ≡ some c
    → (c.hot ≡ hot) × (config.runtime.max_hot_vms ≢ 0) × (is_lane_admitted hot.lanes lane ≡ true)
unfolding hot_context
context_parts answers config name p lane age {hot} {c} set h =
    elim (Option-cases (filter_option p.hot is_hot_enabled)) [
      | inl e ↦ absurd (ground arith)
      | inr (kept, e) ↦
          let same : kept ≡ hot = kept_option p.hot set e in
          let made : c.hot ≡ kept = ground arith in
          (
            made ∙ same,
            λ z. ground arith,
            subst (λ (x : HotConfig). is_lane_admitted x.lanes lane ≡ true) same (ground arith),
          )
    ]
  where
    kept_option :
        (o : Option HotConfig) {x y : HotConfig}
        → o ≡ some x
        → filter_option o is_hot_enabled ≡ some y
        → y ≡ x
    kept_option o s f = ground arith

plan_reuses :
    (now : ℕ) (entries : List Entry) (records : List HotGuest) (c : HotContext) (id : AllocationId)
    (guest : HotGuest) (origin : AllocationOrigin) (source : CloneSource)
    → plan_hot_claim now entries records c id ≡ some (reused guest origin source)
    → 0 < c.hot.max_jobs
unfolding plan_hot_claim policy
plan_reuses now entries records c id guest origin source h =
    let found = claimable records c.name c.lane (live_hot_names entries) (policy now c) in
    elim (Option-cases found) [
      | inl e ↦ absurd (ground arith)
      | inr (g, e) ↦
          let (_, _, _, _, _, within, _) =
            claimable_sound records c.name c.lane (live_hot_names entries) (policy now c) e in
          omega (arith, within.1)
    ]

-- Where the load warns that the global cap disables a profile's pool, that no lane is admitted, or
-- that no job is, no create for the profile ever reuses a machine, whatever the pool's records say.
pub profile_advisories-Inert :
    (answers : Answers) (config : Config) (name : ProfileName) (p : Profile) (hot : HotConfig)
    (lane : HotLane) (age : Option ℕ) (entries : List Entry) (records : List HotGuest)
    → p.hot ≡ some hot
    → any is_inert (profile_advisories name p hot config.runtime.max_hot_vms) ≡ true
    → (guest : HotGuest) (origin : AllocationOrigin) (source : CloneSource)
    → planned answers entries records (hot_context answers config name p lane age)
      ≢ some (reused guest origin source)
unfolding is_lane_admitted
profile_advisories-Inert answers config name p hot lane age entries records set warned guest origin
      source h =
    elim (Option-cases (hot_context answers config name p lane age)) [
      | inl e ↦ absurd (ground arith)
      | inr (c, e) ↦
          let (same, capped, admitted) = context_parts answers config name p lane age set e in
          let plan : plan_hot_claim answers.now entries records c answers.id
              ≡ some (reused guest origin source) =
            ground arith in
          let jobs =
            plan_reuses answers.now entries records c answers.id guest origin source plan in
          elim (inert_reasons name p hot config.runtime.max_hot_vms warned) [
            | inl z ↦ capped z
            | inr (inl n) ↦
                let none_in : is_lane_admitted hot.lanes lane ≡ false =
                  ap (λ l. is_lane_admitted l lane) n in
                absurd (ground arith)
            | inr (inr z) ↦
                let budget : c.hot.max_jobs ≡ 0 = ap (λ (x : HotConfig). x.max_jobs) same ∙ z in
                absurd (omega arith)
          ]
    ]
