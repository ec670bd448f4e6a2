-- ===== src/Manager/Teardown/Examples.antt =====
-- The end of an allocation at concrete answers: a first write that is lost, a cleanup that succeeds
-- at its second attempt, and a stop that leaves one allocation behind.
use flanforge.Base.{
  ◌++◌, ℕ, ◌≡◌, ◌≤◌, ◌+◌, max, refl, inl, ◌⊎◌, true, false, not, ◌&&◌, ◌||◌, ◌==◌, any,
  if◌then◌else◌, some, none, codes, List, [], ◌∷◌, ok, err, is_ok, arith,
}
use flanforge.Samples.{fresh_allocation, entry_of}
use flanforge.Core.Allocation.{is_hot, Allocation, AllocationState, is_terminal}
use flanforge.Manager.Model.{Entry}
use flanforge.Manager.Entries.{get, find_entry, has_id}
use flanforge.Manager.Teardown.Budget.{
  is_bounded, timeout, at_least, teardown_budget, teardown_deadline, timeout-InGrace, CleanupBudget,
}
use flanforge.Manager.Teardown.{
  Call, Ended, ensure_terminal, current_or, before_cleanup, cleanup_once, record_leak, LeakReason,
  Answers, Attempt, WorkerError, cleanup_with_retries, requested_state, is_leaked,
}
use flanforge.Manager.Teardown.Terminal.{attempts_to, ensure_terminal-Cleans}
use flanforge.Manager.Teardown.Worker.{run_teardown, run_teardown-Ends}
use flanforge.Manager.Teardown.Shutdown.{Stopping, begin_shutdown, shutdown, awaited_ids, is_clean}
use flanforge.Manager.Teardown.Leaks.{IsDistinct, is_among, is_unfinished, shutdown-Reports}

abbrev entries : List Entry
entries = entry_of fresh_allocation ∷ []

abbrev boom : WorkerError
boom = WorkerError.failed_with (codes "boom")

abbrev slow_host : ℕ → Attempt
slow_host k = record { started = 0; duration = 30; outcome = if k == 2 then ok tt else err boom }

abbrev answers : Answers
answers = record { is_saved = λ k. not (k == 0); meanwhile = λ k es. es; cleanup = slow_host }

abbrev budget : CleanupBudget
budget = teardown_budget none 120

abbrev Nobody : AllocationState → Type 0
Nobody s = ⊥

run_teardown-Ends_example :
    (c : Allocation) × (find_entry fresh_allocation.id
        (run_teardown answers 5 budget fresh_allocation false (ok tt) entries []).entries
      ≡ some c)
    × (is_terminal c.state ≡ true)
    × ((c.state ≡ (
          if is_ok (cleanup_with_retries budget slow_host).result
          then requested_state false (ok tt)
          else AllocationState.failed))
        ⊎ Nobody c.state)
    × (any
          (λ e. has_id fresh_allocation.id e && e.is_supervised)
          (run_teardown answers 5 budget fresh_allocation false (ok tt) entries []).entries
        ≡ false)
unfolding find_entry is_terminal
run_teardown-Ends_example =
    run_teardown-Ends Nobody answers 5 budget fresh_allocation false (ok tt) entries []
      {x = fresh_allocation} refl refl (λ k es a h. (a, h, inl refl)) refl refl

abbrev stopping : Stopping
stopping = record {
  entries = entry_of fresh_allocation ∷ [];
  is_closing = false;
  teardown_deadline = none;
  leaked = [];
}

abbrev unmoved : Stopping → Stopping
unmoved s = s

shutdown-Reports_example :
    (is_leaked 9 (shutdown 1000 800 800 unmoved stopping).0.leaked ≡ (
      is_leaked 9 (begin_shutdown 1000 800 stopping).leaked
      || (is_among 9 (awaited_ids stopping.entries)
          && is_unfinished (begin_shutdown 1000 800 stopping).entries 9)))
    × IsDistinct (shutdown 1000 800 800 unmoved stopping).0.leaked
    × ((shutdown 1000 800 800 unmoved stopping).1.leaked ≡ [])
    × (is_clean (shutdown 1000 800 800 unmoved stopping).0 ≡ true
        → is_among 9 (awaited_ids stopping.entries) ≡ true
        → is_unfinished (begin_shutdown 1000 800 stopping).entries 9 ≡ false)
unfolding begin_shutdown
shutdown-Reports_example = shutdown-Reports 1000 800 800 unmoved stopping 9 tt

timeout-InGrace_example :
    (timeout 1300 (at_least (teardown_budget (some (teardown_deadline 1000 800)) 600) 60) ≤ 600)
    × (max 1300 (
          1300
          + timeout 1300 (at_least (teardown_budget (some (teardown_deadline 1000 800)) 600) 60))
        ≤ 1700)
    × (timeout 1300 (at_least (teardown_budget none 600) 60) ≡ 600)
timeout-InGrace_example = timeout-InGrace 1000 800 1300 600 60 (omega arith)

abbrev ending : Ended
ending = ensure_terminal answers 5 budget fresh_allocation AllocationState.completed entries []

abbrev seen : Allocation
seen =
    current_or fresh_allocation
      (get fresh_allocation.id (before_cleanup answers 5 fresh_allocation.id entries))

ensure_terminal-Cleans_example :
    (is_terminal seen.state ≡ false
      → (1 ≤ ending.attempts)
        × (ending.attempts ≤ (if is_bounded budget then 1 else 3))
        × (ending.calls
            ≡ (if is_hot seen then Call.pool_offered ∷ [] else []) ++ attempts_to ending.attempts)
        × (ending.leaked ≡ (
            if not (is_ok (cleanup_once budget (slow_host ending.attempts))) && is_bounded budget
            then record_leak seen LeakReason.cleanup_failed []
            else [])))
    × (is_terminal seen.state ≡ true
        → (ending.attempts ≡ 0)
          × (ending.leaked ≡ [])
          × (ending.calls ≡ [])
          × (ending.entries ≡ before_cleanup answers 5 fresh_allocation.id entries)
          × (ending.result ≡ ok seen.state))
ensure_terminal-Cleans_example =
    ensure_terminal-Cleans answers 5 budget fresh_allocation AllocationState.completed entries []
