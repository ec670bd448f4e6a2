-- ===== src/Core/Allocation/Lifecycle.antt =====
-- The lifecycle of allocation/state.rs over any sequence of requested transitions.
use flanforge.Base.{
  ℕ, ◌≤◌, ◌<◌, ◌≡◌, refl, true, false, List, [], ◌∷◌, In, Result, ok, err, arith, ◌⊎◌, inl, inr,
  sym, ◌∙◌,
}
use flanforge.Core.Allocation.State.{
  StateTransitionError, AllocationState, requested, preparing, booting, registering,
  waiting_for_job, ready, running, cleaning, completed, failed, cancelled, is_terminal,
  can_transition_to,
}
use flanforge.Core.Allocation.Model.{Allocation, transition}

-- How far along a state is; the three ends share the last place.
abbrev pub rank : AllocationState → ℕ
rank requested = 0
rank preparing = 1
rank booting = 2
rank registering = 3
rank waiting_for_job = 4
rank ready = 5
rank running = 6
rank cleaning = 7
rank completed = 8
rank failed = 8
rank cancelled = 8

-- The state that a caller sees after one request; a refused one changes nothing.
abbrev after : Allocation → Result Allocation StateTransitionError → Allocation
after a (ok b) = b
after a (err e) = a

unfoldable pub advance : ℕ → Allocation → AllocationState → Allocation
unfolding transition
advance now a state = after a (transition now state a)

unfoldable pub run : ℕ → Allocation → List AllocationState → Allocation
unfolding advance
run now a [] = a
run now a (s ∷ ss) = run now (advance now a s) ss

step-rank : (s t : AllocationState) → can_transition_to s t ≡ true → (s ≡ t) ⊎ (rank s < rank t)
unfolding can_transition_to
step-rank s t h = ground arith

advance-rank :
    (now : ℕ) (a : Allocation) (s : AllocationState) → rank a.state ≤ rank (advance now a s).state
unfolding advance
advance-rank now a s = ground (arith, step-rank a.state s)

-- No sequence of requests moves an allocation back: the rank of its state never falls.
pub run_monotone :
    (now : ℕ) (a : Allocation) (ss : List AllocationState)
    → rank a.state ≤ rank (run now a ss).state
unfolding run
run_monotone now a [] = omega arith
run_monotone now a (s ∷ ss) =
    omega (arith, advance-rank now a s, run_monotone now (advance now a s) ss)

advance_terminal :
    (now : ℕ) (a : Allocation) (s : AllocationState)
    → is_terminal a.state ≡ true
    → (advance now a s).state ≡ a.state
unfolding advance is_terminal
advance_terminal now a s h = ground arith

-- A completed, failed or cancelled allocation stays exactly that, whatever is requested of it.
pub run_terminal :
    (now : ℕ) (a : Allocation) (ss : List AllocationState)
    → is_terminal a.state ≡ true
    → (run now a ss).state ≡ a.state
unfolding run
run_terminal now a [] h = refl
run_terminal now a (s ∷ ss) h =
    let e = advance_terminal now a s h in run_terminal now (advance now a s) ss (rw e h) ∙ e

advance_ends :
    (now : ℕ) (a : Allocation) (s : AllocationState)
    → rank a.state < 7
    → (cleaning ≡ s) ⊎ (rank (advance now a s).state < 7)
unfolding advance
advance_ends now a s h = ground arith

-- An allocation that has not begun to clean up ends only after a request for `cleaning`: no
-- sequence of transitions skips the teardown.
pub ends_through_cleaning :
    (now : ℕ) (a : Allocation) (ss : List AllocationState)
    → rank a.state < rank cleaning
    → is_terminal (run now a ss).state ≡ true
    → In cleaning ss
unfolding run is_terminal
ends_through_cleaning now a [] h t = absurd (ground arith)
ends_through_cleaning now a (s ∷ ss) h t = elim (advance_ends now a s h) [
  | inl e ↦ In.here (sym e)
  | inr low ↦ In.there (ends_through_cleaning now (advance now a s) ss low t)
]

-- From every state that is not an end, `cleaning` and then any of the three ends is accepted, and
-- each stamps the time; an accepted transition changes the state and the stamp alone.
pub teardown_possible :
    (now later : ℕ) (a : Allocation) (end : AllocationState)
    → is_terminal a.state ≡ false
    → is_terminal end ≡ true
    → let c = record a { state = cleaning; updated_at_unix = now } in
      (transition now cleaning a ≡ ok c)
      × (transition later end c ≡ ok (record c { state = end; updated_at_unix = later }))
unfolding transition is_terminal
teardown_possible now later a end h t = ground arith
