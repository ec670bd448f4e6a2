-- ===== src/Manager/Pool/Choice.antt =====
-- What the choice of a machine guarantees.
use flanforge.Base.{
  ◌-◌, ◌≤◌, ◌<◌, ◌≡◌, ◌↔◌, ◌⊎◌, inl, inr, true, false, none, some, Text, List, In, filter, contains,
  arith, In-filter, filter-In, best_by-In, best_by-none, best_by_max, not-In_nil, text_eq_iff,
  subst, ◌∙◌, sym, Bool-cases,
}
use flanforge.Core.Names.{ProfileName}
use flanforge.Core.Hot.{HotGuest, HotLane, idle, evicted, is_terminal, is_serving, lane_eq}
use flanforge.Manager.Pool.Select.{
  HotPolicy, same_generation, is_base_changed, lifetime_limit, drain_reason, outranks, is_claimable,
  claimable,
}

-- The bounds of a machine's life, as the profile and the run that retained it set them.
abbrev pub WithinBounds : HotGuest → HotPolicy → Type 0
WithinBounds g p =
    (p.now - g.booted_at_unix < lifetime_limit g p)
    × (g.jobs_served < p.hot.max_jobs)
    × (is_base_changed g.source.base_fingerprint p.fingerprint ≡ false)
    × (same_generation g.warm_generation p.warm_generation ≡ true)
    × (g.state ≡ idle → p.now - g.updated_at_unix < p.hot.idle_ttl_seconds)

-- A machine is left alone exactly when it is already evicted or within all five bounds.
pub drain_reason_none_iff :
    (g : HotGuest) (p : HotPolicy)
    → (drain_reason g p ≡ none) ↔ (g.state ≡ evicted) ⊎ WithinBounds g p
unfolding drain_reason is_terminal
drain_reason_none_iff g p = (λ h. ground arith, λ h. ground arith)

is_claimable_parts :
    (profile : ProfileName) (lane : HotLane) (claimed : List Text) (p : HotPolicy) (x : HotGuest)
    → is_claimable profile lane claimed p x ≡ true
    → (x.state ≡ idle)
      × (x.profile ≡ profile)
      × (lane_eq x.lane lane ≡ true)
      × (contains claimed x.vm_name ≡ false)
      × (drain_reason x p ≡ none)
unfolding is_serving
is_claimable_parts profile lane claimed p x q = ground (arith, text_eq_iff x.profile profile)

idle_bounds :
    (g : HotGuest) (p : HotPolicy) → g.state ≡ idle → drain_reason g p ≡ none → WithinBounds g p
idle_bounds g p s d = elim ((drain_reason_none_iff g p).0 d) [
  | inl gone ↦ absurd (idle-ne-evicted (sym s ∙ gone))
  | inr within ↦ within
]
  where
    idle-ne-evicted : idle ≡ evicted → ⊥
    idle-ne-evicted e = cc

outranks_up : (a b : HotGuest) → outranks a b ≡ true → b.jobs_served ≤ a.jobs_served
outranks_up a b h = ground arith

outranks_down : (a b : HotGuest) → outranks a b ≡ false → a.jobs_served ≤ b.jobs_served
outranks_down a b h = ground arith

-- The machine that a claim takes is a recorded idle machine of that profile and lane which no live
-- allocation holds, it is within all its bounds, and no other such machine has served more jobs.
pub claimable_sound :
    (hot : List HotGuest) (profile : ProfileName) (lane : HotLane) (claimed : List Text)
    (p : HotPolicy) {g : HotGuest}
    → claimable hot profile lane claimed p ≡ some g
    → In g hot
      × (g.state ≡ idle)
      × (g.profile ≡ profile)
      × (lane_eq g.lane lane ≡ true)
      × (contains claimed g.vm_name ≡ false)
      × WithinBounds g p
      × ((h : HotGuest)
          → In h hot
          → is_claimable profile lane claimed p h ≡ true
          → h.jobs_served ≤ g.jobs_served)
unfolding claimable
claimable_sound hot profile lane claimed p {g} e =
    let test = is_claimable profile lane claimed p in
    let (held, passes) = In-filter test hot (best_by-In outranks (filter test hot) e) in
    let (s, n, l, c, d) = is_claimable_parts profile lane claimed p g passes in
    (
      held,
      s,
      n,
      l,
      c,
      idle_bounds g p s d,
      λ h i q.
          best_by_max (λ (x : HotGuest). x.jobs_served) outranks outranks_up outranks_down
            (filter test hot) e (filter-In test hot i q),
    )

-- A claim finds no machine only where there is none to take.
pub claimable_complete :
    (hot : List HotGuest) (profile : ProfileName) (lane : HotLane) (claimed : List Text)
    (p : HotPolicy) {g : HotGuest}
    → claimable hot profile lane claimed p ≡ none
    → In g hot
    → is_claimable profile lane claimed p g ≡ false
unfolding claimable
claimable_complete hot profile lane claimed p {g} e i =
    let test = is_claimable profile lane claimed p in
    let empty = best_by-none outranks (filter test hot) e in
    elim (Bool-cases (test g)) [
      | inl q ↦ absurd (not-In_nil g (subst (In g) empty (filter-In test hot i q)))
      | inr q ↦ q
    ]
