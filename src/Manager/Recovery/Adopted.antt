-- ===== src/Manager/Recovery/Adopted.antt =====
-- A start returns a surviving machine to the pool on proof alone.
use flanforge.Base.{
  ℕ, ◌≡◌, ◌↔◌, refl, ap, ◌∙◌, true, not, Bool, ◌&&◌, arith, ok, Result-cases, Option-cases, none,
  some, is_some, inl, inr, text_eq_refl, if◌then◌else◌, saturating_add, u32_max,
}
use flanforge.Core.Hot.{
  HotGuest, HotState, idle, claimed, draining, recycling, state_eq, HotDrainReason, ensure_state,
  ensure_released, can_transition_to, validate_claim, unverifiable, config_reloaded,
}
use flanforge.Core.Hot as Hot
use flanforge.Core.Config.{Config}
use flanforge.Manager.Pool.Drain.{Host, World, row, upsert}
use flanforge.Manager.Pool.Drain.Table.{save-finds}
use flanforge.Manager.Pool.Bounds.{hot_of}
use flanforge.Manager.Recovery.{given_up, adopt, is_hot_adoptable}

-- The record that a verified machine serves under: idle, with no claim, and one job older if a
-- claim was given up.
unfoldable pub rejoined : ℕ → HotGuest → HotGuest
rejoined now g = record g {
  state = idle;
  updated_at_unix = now;
  claimed_by = none;
  jobs_served =
      if state_eq g.state claimed then saturating_add u32_max g.jobs_served 1 else g.jobs_served;
}

-- The states with a way back to the pool.
abbrev pub is_returnable : HotState → Bool
is_returnable s = not (state_eq s draining) && not (Hot.is_terminal s)

adopted_lem :
    (now : ℕ) (g : HotGuest)
    → validate_claim g ≡ true
    → is_returnable g.state ≡ true
    → ensure_state now idle (given_up now g) ≡ ok (rejoined now g)
unfolding rejoined given_up Hot.is_claim_bearing ensure_state ensure_released can_transition_to
    validate_claim Hot.is_terminal
adopted_lem now g v r = ground arith

refused_lem :
    (now : ℕ) (g : HotGuest) {h : HotGuest}
    → ensure_state now idle (given_up now g) ≡ ok h
    → is_returnable g.state ≡ true
unfolding given_up ensure_state ensure_released can_transition_to Hot.is_terminal
refused_lem now g e = ground arith

-- What a start has to know of a machine before it serves again.
pub record IsProved (now : ℕ) (host : Host) (config : Config) (g : HotGuest) (is_present : Bool)
    : Type 0 where
  pub present : is_present ≡ true
  pub wanted : g.drain_reason ≡ none
  pub configured : is_some (hot_of config g.profile) ≡ true
  pub verified : host.is_reset g ≡ true
  pub returnable : is_returnable g.state ≡ true
  pub recorded : host.is_saved (rejoined now g) ≡ true

pub proved_adopts :
    (now : ℕ) (host : Host) (config : Config) (g : HotGuest) (is_present : Bool) (w : World)
    → validate_claim g ≡ true
    → IsProved now host config g is_present
    → is_hot_adoptable now host config g is_present w
      ≡ (true, record w { rows = upsert (rejoined now g) w.rows })
unfolding is_hot_adoptable adopt
proved_adopts now host config g is_present w v p = elim (Option-cases (hot_of config g.profile)) [
  | inl e ↦ absurd (ground (arith, p.configured, e))
  | inr (hot, e) ↦
      ground
        (arith, p.present, p.wanted, e, p.verified, p.recorded, adopted_lem now g v p.returnable)
]

pub adopts-IsProved :
    (now : ℕ) (host : Host) (config : Config) (g : HotGuest) (is_present : Bool) (w : World)
    → validate_claim g ≡ true
    → (is_hot_adoptable now host config g is_present w).0 ≡ true
    → IsProved now host config g is_present
unfolding is_hot_adoptable adopt
adopts-IsProved now host config g is_present w v h =
    elim (Result-cases (ensure_state now idle (given_up now g))) [
      | inr (e, q) ↦ absurd (ground (arith, q))
      | inl (x, q) ↦
          let back = refused_lem now g q in
          let same = adopted_lem now g v back in
          record {
            present = ground arith;
            wanted = ground arith;
            configured = ground arith;
            verified = ground arith;
            returnable = back;
            recorded = ground (arith, same);
          }
    ]

-- A valid record is adopted exactly if the host lists its machine, nothing drained it, a live
-- profile wants it, it passed the reset, its state leads back to the pool and the row was saved; the
-- pool then has the machine's row idle and unclaimed.
pub is_hot_adoptable_iff :
    (now : ℕ) (host : Host) (config : Config) (g : HotGuest) (is_present : Bool) (w : World)
    → validate_claim g ≡ true
    → ((is_hot_adoptable now host config g is_present w).0 ≡ true
        ↔ IsProved now host config g is_present)
      × (IsProved now host config g is_present
          → row g.vm_name (is_hot_adoptable now host config g is_present w).1.rows
            ≡ some (rejoined now g))
unfolding rejoined
is_hot_adoptable_iff now host config g is_present w v = (
  (
    adopts-IsProved now host config g is_present w v,
    λ p. ap (λ (r : Bool × World). r.0) (proved_adopts now host config g is_present w v p),
  ),
  λ p.
      ap (λ (r : Bool × World). row g.vm_name r.1.rows)
        (proved_adopts now host config g is_present w v p)
      ∙ save-finds (rejoined now g) w.rows g.vm_name
      ∙ rw (text_eq_refl g.vm_name) refl,
)
