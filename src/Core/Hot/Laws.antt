-- ===== src/Core/Hot/Laws.antt =====
-- The claim protocol of a pool machine's record, and its lifecycle.
use flanforge.Base.{
  ℕ, ◌≡◌, refl, ◌∙◌, ◌⊎◌, inl, inr, ◌↔◌, true, false, none, some, List, [], ◌∷◌, Result, ok, err,
  is_ok, arith, saturating_add, u32_max,
}
use flanforge.Core.Source.{AllocationId}
use flanforge.Core.Hot.State.{
  HotState, provisioning, idle, claimed, recycling, draining, evicted, HotTransitionError,
}
use flanforge.Core.Hot.Record.{
  HotGuest, ensure_state, ensure_claimed, ensure_released, validate_claim,
}

-- Only an idle machine is claimed, for every allocation and at every time.
pub ensure_claimed_iff :
    (now : ℕ) (id : AllocationId) (g : HotGuest)
    → (is_ok (ensure_claimed now id g) ≡ true) ↔ (g.state ≡ idle)
unfolding ensure_claimed
ensure_claimed_iff now id g = (λ h. ground arith, λ h. ground arith)

-- The record while allocation `id` holds the machine, and after it let go.
abbrev pub held : ℕ → AllocationId → HotGuest → HotGuest
held now id g = record g { state = claimed; updated_at_unix = now; claimed_by = some id }

abbrev pub let_go : ℕ → HotGuest → HotGuest
let_go now g = record g {
  state = recycling;
  updated_at_unix = now;
  claimed_by = none;
  jobs_served = saturating_add u32_max g.jobs_served 1;
}

-- One claim of an idle machine and its release: while it is held every second claim is refused,
-- the release counts one job and clears the claim, both records are ones that a load accepts, and
-- neither a second release nor a claim succeeds until the machine is idle again.
pub claim_cycle :
    (now later : ℕ) (id other : AllocationId) (g : HotGuest)
    → g.state ≡ idle
    → (ensure_claimed now id g ≡ ok (held now id g))
      × (is_ok (ensure_claimed later other (held now id g)) ≡ false)
      × (ensure_released later (held now id g) ≡ ok (let_go later g))
      × (is_ok (ensure_released later (let_go later g)) ≡ false)
      × (is_ok (ensure_claimed later other (let_go later g)) ≡ false)
      × (validate_claim (held now id g) ≡ true)
      × (validate_claim (let_go later g) ≡ true)
unfolding ensure_claimed ensure_released validate_claim
claim_cycle now later id other g h = ground arith

-- A sequence of operations on one record; a refused one leaves it as it was.
pub data Op : Type 0 where
  claim : AllocationId → Op
  release : Op
  move : HotState → Op

abbrev kept : HotGuest → Result HotGuest HotTransitionError → HotGuest
kept g (ok h) = h
kept g (err e) = g

unfoldable pub operate : ℕ → HotGuest → Op → HotGuest
unfolding ensure_claimed ensure_released
operate now g (claim id) = kept g (ensure_claimed now id g)
operate now g release = kept g (ensure_released now g)
operate now g (move s) = kept g (ensure_state now s g)

unfoldable pub run : ℕ → HotGuest → List Op → HotGuest
unfolding operate
run now g [] = g
run now g (o ∷ os) = run now (operate now g o) os

-- Eviction is final.
operate_evicted :
    (now : ℕ) (g : HotGuest) (o : Op) → g.state ≡ evicted → (operate now g o).state ≡ evicted
unfolding operate
operate_evicted now g (claim id) h = ground arith
operate_evicted now g _ h = ground arith

-- An evicted machine never serves again, and its record never says that it does.
pub run_evicted :
    (now : ℕ) (g : HotGuest) (os : List Op) → g.state ≡ evicted → (run now g os).state ≡ evicted
unfolding run
run_evicted now g [] h = h
run_evicted now g (o ∷ os) h = run_evicted now (operate now g o) os (operate_evicted now g o h)

-- An operation by which a claimed machine can leave its claim.
abbrev pub EndsClaim : Op → Type 0
EndsClaim o = (o ≡ release) ⊎ (o ≡ move recycling) ⊎ (o ≡ move draining)

operate_claimed :
    (now : ℕ) (g : HotGuest) (o : Op)
    → g.state ≡ claimed
    → EndsClaim o
      ⊎ (((operate now g o).state ≡ claimed) × ((operate now g o).claimed_by ≡ g.claimed_by))
unfolding operate
operate_claimed now g (claim id) h = ground arith
operate_claimed now g release h = inl (inl refl)
operate_claimed now g (move recycling) h = inl (inr (inl refl))
operate_claimed now g (move draining) h = inl (inr (inr refl))
operate_claimed now g (move provisioning) h = ground arith
operate_claimed now g (move idle) h = ground arith
operate_claimed now g (move claimed) h = ground arith
operate_claimed now g (move evicted) h = ground arith

pub data Some {ℓ κ} {A : Type ℓ} (P : A → Type κ) : List A → Type (ℓ ⊔ κ) where
  now : {a : A} {as' : List A} → P a → Some P (a ∷ as')
  later : {a : A} {as' : List A} → Some P as' → Some P (a ∷ as')

-- Until the claim is released or drained, no sequence of operations, another allocation's claims
-- included, takes a claimed machine from its allocation or evicts it.
pub run_claimed :
    (time : ℕ) (g : HotGuest) (os : List Op)
    → g.state ≡ claimed
    → Some EndsClaim os
      ⊎ (((run time g os).state ≡ claimed) × ((run time g os).claimed_by ≡ g.claimed_by))
unfolding run
run_claimed time g [] h = inr (h, refl)
run_claimed time g (o ∷ os) h = elim (operate_claimed time g o h) [
  | inl ends ↦ inl (Some.now ends)
  | inr (c, by) ↦ elim (run_claimed time (operate time g o) os c) [
    | inl ends ↦ inl (Some.later ends)
    | inr (c', by') ↦ inr (c', by' ∙ by)
  ]
]
