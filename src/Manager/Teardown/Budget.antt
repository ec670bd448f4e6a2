-- ===== src/Manager/Teardown/Budget.antt =====
-- worker/budget.rs and the budget of shutdown.rs: how long one teardown may take. Instants and
-- durations are counted in milliseconds; `now` is the instant at which the clock is read.
use flanforge.Base.{
  ℕ, ◌+◌, ◌-◌, ◌/◌, ◌≤◌, ◌≡◌, refl, min, max, Bool, Option, none, some, is_some, arith,
}

pub record CleanupBudget : Type 0 where
  pub allowance : ℕ
  pub deadline : Option ℕ

abbrev pub allow : ℕ → CleanupBudget
allow allowance = record { allowance = allowance; deadline = none }

abbrev pub until : CleanupBudget → ℕ → CleanupBudget
until b deadline = record b { deadline = some deadline }

abbrev pub at_least : CleanupBudget → ℕ → CleanupBudget
at_least b floor = record b { allowance = max b.allowance floor }

abbrev pub is_bounded : CleanupBudget → Bool
is_bounded b = is_some b.deadline

-- `saturating_duration_since`
abbrev since : ℕ → Option ℕ → Option ℕ
since now none = none
since now (some deadline) = some (deadline - now)

unfoldable pub remaining : ℕ → CleanupBudget → Option ℕ
remaining now b = since now b.deadline

abbrev capped : Option ℕ → ℕ → ℕ
capped none duration = duration
capped (some left) duration = min left duration

unfoldable pub limit : ℕ → CleanupBudget → ℕ → ℕ
unfolding remaining
limit now b duration = capped (remaining now b) duration

unfoldable pub timeout : ℕ → CleanupBudget → ℕ
unfolding limit
timeout now b = limit now b b.allowance

-- `started + grace - grace / BOOKKEEPING_RESERVE`
unfoldable pub teardown_deadline : ℕ → ℕ → ℕ
teardown_deadline started grace = started + grace - grace / 8

unfoldable pub teardown_budget : Option ℕ → ℕ → CleanupBudget
teardown_budget none allowance = allow allowance
teardown_budget (some deadline) allowance = until (allow allowance) deadline

-- A teardown that starts while a shutdown with `grace` runs has a timeout that is at most its
-- allowance, raised to the backend's floor, and that ends within the grace, an eighth of the grace
-- before its end; after that instant it has no time at all. With no shutdown the timeout is the
-- allowance, raised to the floor.
pub timeout-InGrace :
    (started grace now allowance floor : ℕ)
    → started ≤ now
    → (timeout now
          (at_least (teardown_budget (some (teardown_deadline started grace)) allowance) floor)
        ≤ max allowance floor)
      × (max now (
            now
            + timeout now (
                at_least
                  (teardown_budget (some (teardown_deadline started grace)) allowance)
                  floor))
          ≤ max now (started + grace - grace / 8))
      × (timeout now (at_least (teardown_budget none allowance) floor) ≡ max allowance floor)
unfolding timeout limit remaining teardown_budget teardown_deadline
timeout-InGrace started grace now allowance floor h = (omega arith, omega arith, refl)
