-- ===== src/Core/Allocation/Evidence.antt =====
-- The setters of allocation/model.rs over any sequence of changes: an allocation's identity, its
-- pool decision and its warm generation.
use flanforge.Base.{
  ℕ, ◌≡◌, refl, ◌∙◌, Bool, true, false, Option, none, some, List, [], ◌∷◌, ◌⊎◌, Result, ok, err,
  arith, All,
}
use flanforge.Core.Source.{CloneSource, AllocationOrigin, RetentionOutcome}
use flanforge.Core.Hot.{HotLane, HotRefusal}
use flanforge.Core.Allocation.State.{AllocationState, StateTransitionError}
use flanforge.Core.Allocation.Model.{
  Allocation, transition, set_runner_id, set_vm_created, set_source, set_clone_source, set_hot,
  set_hot_refused, set_retention, set_capacity_busy, is_warm_kind,
}

-- One call of a setter, with its arguments.
pub data Change : Type 0 where
  to_state : AllocationState → Change
  runner_registered : ℕ → Change
  vm_made : Change
  source_set : CloneSource → Change
  clone_source_set : CloneSource → Option ℕ → Change
  hot_set : Option HotLane → AllocationOrigin → Option CloneSource → Option ℕ → Change
  hot_refused : HotRefusal → Change
  retention_set : RetentionOutcome → Change
  capacity_busy : Change

abbrev accepted : Allocation → Result Allocation StateTransitionError → Allocation
accepted a (ok b) = b
accepted a (err e) = a

unfoldable pub change : ℕ → Allocation → Change → Allocation
unfolding transition set_runner_id set_vm_created set_source set_clone_source set_hot
    set_hot_refused set_retention set_capacity_busy
change now a (to_state s) = accepted a (transition now s a)
change now a (runner_registered id) = set_runner_id now id a
change now a vm_made = set_vm_created now a
change now a (source_set source) = set_source now source a
change now a (clone_source_set source generation) = set_clone_source now source generation a
change now a (hot_set lane origin source age) = set_hot now lane origin source age a
change now a (hot_refused refusal) = set_hot_refused now refusal a
change now a (retention_set outcome) = set_retention now outcome a
change now a capacity_busy = set_capacity_busy now a

unfoldable pub changes : ℕ → Allocation → List Change → Allocation
unfolding change
changes now a [] = a
changes now a (c ∷ cs) = changes now (change now a c) cs

-- A lane and a refusal are never both recorded.
abbrev pub IsCoherent : Allocation → Type 0
IsCoherent a = (a.hot_lane ≡ none) ⊎ (a.hot_refusal ≡ none)

abbrev pub is_warm_source : Option CloneSource → Bool
is_warm_source none = false
is_warm_source (some s) = is_warm_kind s.kind

-- A recorded warm generation rests on a source that is a warm image.
abbrev pub HasEvidence : Allocation → Type 0
HasEvidence a = (a.warm_generation ≡ none) ⊎ (is_warm_source a.source ≡ true)

-- The one setter that replaces the source and keeps the generation is `set_hot`: the reused
-- machine's source has to be warm.
abbrev pub IsWarmReuse : Change → Type 0
IsWarmReuse (hot_set lane origin (some s) age) = is_warm_kind s.kind ≡ true
IsWarmReuse _ = Unit {0}

change-IsCoherent :
    (now : ℕ) (a : Allocation) (c : Change) → IsCoherent a → IsCoherent (change now a c)
unfolding change
change-IsCoherent now a (to_state s) h = ground arith
change-IsCoherent now a _ h = ground arith

-- Whatever setters run, in any order, an allocation never carries both the lane that its guest is
-- retained into and the reason why it is not.
pub changes-IsCoherent :
    (now : ℕ) (a : Allocation) (cs : List Change) → IsCoherent a → IsCoherent (changes now a cs)
unfolding changes
changes-IsCoherent now a [] h = h
changes-IsCoherent now a (c ∷ cs) h =
    changes-IsCoherent now (change now a c) cs (change-IsCoherent now a c h)

change-HasEvidence :
    (now : ℕ) (a : Allocation) (c : Change)
    → IsWarmReuse c
    → HasEvidence a
    → HasEvidence (change now a c)
unfolding change
change-HasEvidence now a (hot_set lane origin none age) w h = ground arith
change-HasEvidence now a (hot_set lane origin (some s) age) w h = ground arith
change-HasEvidence now a (source_set s) w h = ground arith
change-HasEvidence now a _ w h = ground arith

-- A recorded warm generation always comes with a warm source: a fallback to the template clears it.
-- The sequence may reuse only pool machines that were themselves cloned from a warm image.
pub changes-HasEvidence :
    (now : ℕ) (a : Allocation) (cs : List Change)
    → All IsWarmReuse cs
    → HasEvidence a
    → HasEvidence (changes now a cs)
unfolding changes
changes-HasEvidence now a [] w h = h
changes-HasEvidence now a (c ∷ cs) w h =
    changes-HasEvidence now (change now a c) cs w.1 (change-HasEvidence now a c w.0 h)

-- What identifies an allocation.
abbrev pub SameIdentity : Allocation → Allocation → Type 0
SameIdentity a b =
    (b.id ≡ a.id)
    × (b.request ≡ a.request)
    × (b.vm_name ≡ a.vm_name)
    × (b.runner_label ≡ a.runner_label)
    × (b.created_at_unix ≡ a.created_at_unix)
    × (b.mode ≡ a.mode)
    × (b.size ≡ a.size)

change-SameIdentity : (now : ℕ) (a : Allocation) (c : Change) → SameIdentity a (change now a c)
unfolding change
change-SameIdentity now a (to_state s) = ground arith
change-SameIdentity now a _ = ground arith

-- No setter touches the identity, the names, the mode or the charged size.
pub changes-SameIdentity :
    (now : ℕ) (a : Allocation) (cs : List Change) → SameIdentity a (changes now a cs)
unfolding changes
changes-SameIdentity now a [] = (refl, refl, refl, refl, refl, refl, refl)
changes-SameIdentity now a (c ∷ cs) =
    let (i, r, v, l, t, m, s) = change-SameIdentity now a c in
    let (i', r', v', l', t', m', s') = changes-SameIdentity now (change now a c) cs in
    (i' ∙ i, r' ∙ r, v' ∙ v, l' ∙ l, t' ∙ t, m' ∙ m, s' ∙ s)
