-- ===== src/Manager/Pool/Exclusion.antt =====
-- The machines that live entries claim, over the steps that run under the entries lock. A create
-- folds against a snapshot of the pool's records that may be stale.
use flanforge.Base.{
  ℕ, ◌≡◌, refl, ◌⊎◌, inl, inr, true, false, none, some, Text, text_eq, List, [], ◌∷◌, filter,
  filter_map, contains, arith, Bool-cases, Option-cases, some_inj, ◌∙◌, sym, ap, subst,
}
use flanforge.Core.Names.{VmName}
use flanforge.Core.Source.{AllocationId, AllocationOrigin, hot_vm_name}
use flanforge.Core.Hot.{HotGuest}
use flanforge.Core.Allocation.{is_terminal}
use flanforge.Manager.Model.{Entry}
use flanforge.Manager.Pool.Select.{claimable}
use flanforge.Manager.Pool.Claim.{
  HotContext, HotClaim, reused, retained, policy, live_hot_names, claim_machine, plan_hot_claim,
}
use flanforge.Manager.Pool.Choice.{claimable_sound}

-- The origin that `HotDecision::apply` records for a claim.
abbrev pub origin_of : HotClaim → AllocationOrigin
origin_of (reused guest origin source) = origin
origin_of retained = AllocationOrigin.cloned

-- No name stands twice in the list.
abbrev pub Distinct : List Text → Type 0
Distinct [] = Unit
Distinct (n ∷ ns) = (contains ns n ≡ false) × Distinct ns

-- What another task may do to the entries while it holds the lock: change an entry but for the
-- machine that it reuses and never back from an end, or drop one.
pub data Updates : List Entry → List Entry → Type 0 where
  same : {es : List Entry} → Updates es es
  change :
      {e f : Entry} {es fs : List Entry}
      → f.allocation.origin ≡ e.allocation.origin
      → (is_terminal e.allocation.state ≡ true → is_terminal f.allocation.state ≡ true)
      → Updates es fs
      → Updates (e ∷ es) (f ∷ fs)
  drop : {e : Entry} {es fs : List Entry} → Updates es fs → Updates (e ∷ es) fs

-- One step under the lock: a create that reuses a machine or not, or an update.
pub data Step (es : List Entry) : List Entry → Type 0 where
  create_claimed :
      (now : ℕ) (hot : List HotGuest) (context : HotContext) (e : Entry) (claim : HotClaim)
      → plan_hot_claim now es hot context e.allocation.id ≡ some claim
      → e.allocation.origin ≡ origin_of claim
      → Step es (e ∷ es)
  create_plain : (e : Entry) → e.allocation.origin ≡ AllocationOrigin.cloned → Step es (e ∷ es)
  update : {fs : List Entry} → Updates es fs → Step es fs

pub data Steps (es : List Entry) : List Entry → Type 0 where
  here : Steps es es
  next : {fs gs : List Entry} → Steps es fs → Step fs gs → Steps es gs

claim_machine-name :
    (now : ℕ) (id : AllocationId) (context : HotContext) (g : HotGuest) (claim : HotClaim)
    → claim_machine now id context g ≡ some claim
    → hot_vm_name (origin_of claim) ≡ some g.vm_name
unfolding claim_machine hot_vm_name
claim_machine-name now id context g claim h = elim (Option-cases context.age_seconds) [
  | inl e ↦ ground arith
  | inr (age, e) ↦ ground arith
]

-- The machine that a reusing claim takes is free.
plan_free :
    (now : ℕ) (es : List Entry) (hot : List HotGuest) (context : HotContext) (id : AllocationId)
    (claim : HotClaim) (name : VmName)
    → plan_hot_claim now es hot context id ≡ some claim
    → hot_vm_name (origin_of claim) ≡ some name
    → contains (live_hot_names es) name ≡ false
unfolding plan_hot_claim hot_vm_name
plan_free now es hot context id claim name h o =
    elim (Option-cases
      (claimable hot context.name context.lane (live_hot_names es) (policy now context))) [
        | inl e ↦ absurd (ground arith)
        | inr (g, e) ↦
            let (_, _, _, _, free, _, _) =
              claimable_sound hot context.name context.lane (live_hot_names es) (policy now context)
                e in
            let made : claim_machine now id context g ≡ some claim = ground arith in
            let same : g.vm_name ≡ name =
              some_inj (sym (claim_machine-name now id context g claim made) ∙ o) in
            rw (← same) free
      ]

-- An update adds no name to those that the live entries claim.
live-head :
    (e : Entry) (es : List Entry)
    → ((live_hot_names (e ∷ es) ≡ live_hot_names es)
        × ((is_terminal e.allocation.state ≡ true) ⊎ (hot_vm_name e.allocation.origin ≡ none)))
      ⊎ ((name : VmName) × (live_hot_names (e ∷ es) ≡ name ∷ live_hot_names es)
          × (is_terminal e.allocation.state ≡ false)
          × (hot_vm_name e.allocation.origin ≡ some name))
unfolding live_hot_names filter filter_map
live-head e es = elim (Bool-cases (is_terminal e.allocation.state)) [
  | inl t ↦ inl (rw t, inl t)
  | inr t ↦ elim (Option-cases (hot_vm_name e.allocation.origin)) [
    | inl o ↦ inl (rw (t, filter_map, o) refl, inr o)
    | inr (name, o) ↦ inr (name, rw (t, filter_map, o) refl, t, o)
  ]
]

live-tail :
    (e : Entry) (es : List Entry) (n : Text)
    → contains (live_hot_names es) n ≡ true
    → contains (live_hot_names (e ∷ es)) n ≡ true
unfolding contains
live-tail e es n h = elim (live-head e es) [
  | inl (eq, _) ↦ rw eq h
  | inr (name, eq, _, _) ↦ rw (eq, contains) (ground arith)
]

Distinct-tail :
    (e : Entry) (es : List Entry)
    → Distinct (live_hot_names (e ∷ es))
    → Distinct (live_hot_names es)
Distinct-tail e es d = elim (live-head e es) [
  | inl (eq, _) ↦ subst Distinct eq d
  | inr (name, eq, _, _) ↦ (subst Distinct eq d).1
]

-- A live name of the updated entry is one that the entry had.
kept-name :
    (e f : Entry) (es fs : List Entry) (n : Text)
    → f.allocation.origin ≡ e.allocation.origin
    → (is_terminal e.allocation.state ≡ true → is_terminal f.allocation.state ≡ true)
    → (contains (live_hot_names fs) n ≡ true → contains (live_hot_names es) n ≡ true)
    → contains (live_hot_names (f ∷ fs)) n ≡ true
    → contains (live_hot_names (e ∷ es)) n ≡ true
unfolding contains
kept-name e f es fs n o t ih h = elim (live-head f fs) [
  | inl (eq, _) ↦ live-tail e es n (ih (rw eq at h))
  | inr (name, eq, lf, of) ↦ elim (live-head e es) [
    | inl (_, inl te) ↦ absurd (ground (arith, t te))
    | inl (_, inr oe) ↦ absurd (ground (arith, ap hot_vm_name o))
    | inr (name', eq', le, oe) ↦
        let same : name ≡ name' = some_inj (sym of ∙ ap hot_vm_name o ∙ oe) in
        let h' : contains (name ∷ live_hot_names fs) n ≡ true = rw eq at h in
        rw (eq', ← same)
          (elim (Bool-cases (text_eq name n)) [
            | inl hit ↦ rw hit
            | inr miss ↦ rw (miss, ih (rw miss at h'))
          ])
  ]
]

Updates-contains :
    {es fs : List Entry} (u : Updates es fs) (n : Text)
    → contains (live_hot_names fs) n ≡ true
    → contains (live_hot_names es) n ≡ true
Updates-contains Updates.same n h = h
Updates-contains (Updates.change {e} {f} {es} {fs} o t u) n h =
    kept-name e f es fs n o t (Updates-contains u n) h
Updates-contains (Updates.drop {e} {es} {fs} u) n h = live-tail e es n (Updates-contains u n h)

Updates-fresh :
    {es fs : List Entry} (u : Updates es fs) (n : Text)
    → contains (live_hot_names es) n ≡ false
    → contains (live_hot_names fs) n ≡ false
Updates-fresh {es} {fs} u n h = elim (Bool-cases (contains (live_hot_names fs) n)) [
  | inl c ↦ absurd (true-ne-false (sym (Updates-contains u n c) ∙ h))
  | inr c ↦ c
]
  where
    true-ne-false : true ≡ false → ⊥
    true-ne-false q = cc

Updates-Distinct :
    {es fs : List Entry} (u : Updates es fs)
    → Distinct (live_hot_names es)
    → Distinct (live_hot_names fs)
Updates-Distinct Updates.same d = d
Updates-Distinct (Updates.change {e} {f} {es} {fs} o t u) d = elim (live-head f fs) [
  | inl (eq, _) ↦ subst Distinct (sym eq) (Updates-Distinct u (Distinct-tail e es d))
  | inr (name, eq, lf, of) ↦ elim (live-head e es) [
    | inl (_, inl te) ↦ absurd (ground (arith, t te))
    | inl (_, inr oe) ↦ absurd (ground (arith, ap hot_vm_name o))
    | inr (name', eq', le, oe) ↦
        let same : name' ≡ name = some_inj (sym oe ∙ sym (ap hot_vm_name o) ∙ of) in
        let d' : Distinct (name' ∷ live_hot_names es) = subst Distinct eq' d in
        subst Distinct (sym eq) (Updates-fresh u name (rw same at d'.0), Updates-Distinct u d'.1)
  ]
]
Updates-Distinct (Updates.drop {e} {es} {fs} u) d = Updates-Distinct u (Distinct-tail e es d)

create-Distinct :
    (e : Entry) (es : List Entry)
    → ((name : Text)
        → hot_vm_name e.allocation.origin ≡ some name
        → contains (live_hot_names es) name ≡ false)
    → Distinct (live_hot_names es)
    → Distinct (live_hot_names (e ∷ es))
create-Distinct e es free d = elim (live-head e es) [
  | inl (eq, _) ↦ subst Distinct (sym eq) d
  | inr (name, eq, _, o) ↦ subst Distinct (sym eq) (free name o, d)
]

Step-Distinct :
    {es fs : List Entry} → Step es fs → Distinct (live_hot_names es) → Distinct (live_hot_names fs)
unfolding hot_vm_name
Step-Distinct {es} (Step.create_claimed now hot context e claim h o) d =
    create-Distinct e es
      (λ name q.
        plan_free now es hot context e.allocation.id claim name h (ap hot_vm_name (sym o) ∙ q))
      d
Step-Distinct {es} (Step.create_plain e o) d =
    create-Distinct e es (λ name q. absurd (ground (arith, ap hot_vm_name o))) d
Step-Distinct (Step.update u) d = Updates-Distinct u d

-- Whatever creates, transitions and removals run, in any order and each create against any snapshot
-- of the pool's records, no two live allocations reuse one machine if none did at the start.
pub Steps-Distinct :
    {es fs : List Entry} → Steps es fs → Distinct (live_hot_names es) → Distinct (live_hot_names fs)
Steps-Distinct Steps.here d = d
Steps-Distinct (Steps.next r s) d = Step-Distinct s (Steps-Distinct r d)
