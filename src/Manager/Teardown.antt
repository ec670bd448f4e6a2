-- ===== src/Manager/Teardown.antt =====
-- crates/flanforge-manager/src/{lifecycle,teardown}.rs: the end of an allocation. A teardown waits
-- at the points that `Answers` numbers: what other tasks did to the entries by then is
-- `meanwhile k`, and whether the store saved the record is `is_saved k`. The worker's answer to a
-- cleanup is an attempt with its duration, so that a deadline cuts it off.
use flanforge.Base.{
  ℕ, zero, suc, ◌+◌, ◌-◌, Bool, true, false, not, leb, ◌==◌, any, Option, none, some, is_some, Text,
  codes, List, [], ◌∷◌, ◌++◌, if◌then◌else◌, Result, ok, err, is_ok,
}
use flanforge.Utils.Bounded.{bounded_text}
use flanforge.Core.Names.{RepositoryName, VmName}
use flanforge.Core.Source.{AllocationId}
use flanforge.Core.Allocation.{
  Allocation, AllocationState, cleaning, completed, failed, cancelled, is_terminal, is_hot,
}
use flanforge.Manager.Model.{Entry, ManagerError}
use flanforge.Manager.Entries.{Changed, get, has_id, update, moved, with_error, ensure_cleaning}
use flanforge.Manager.Teardown.Budget.{CleanupBudget, is_bounded, remaining, teardown_budget}
pub mod Budget
pub mod Cleanup
pub mod Keeps
pub mod Terminal
pub mod Shutdown
pub mod Leaks
pub mod Worker
pub mod Examples

pub data WorkerError : Type 0 where
  failed_with : Text → WorkerError
  capacity_of : Text → WorkerError

unfoldable pub new_error : Text → WorkerError
new_error message = failed_with (bounded_text message 512)

abbrev pub is_capacity : WorkerError → Bool
is_capacity (failed_with m) = false
is_capacity (capacity_of m) = true

abbrev pub message : WorkerError → Text
message (failed_with m) = m
message (capacity_of m) = m

-- One call of the backend's `cleanup`: when it starts, how long it takes, what it answers.
pub record Attempt : Type 0 where
  pub started : ℕ
  pub duration : ℕ
  pub outcome : Result (Unit {0}) WorkerError

pub record Answers : Type 0 where
  pub is_saved : ℕ → Bool
  pub meanwhile : ℕ → List Entry → List Entry
  pub cleanup : ℕ → Attempt

-- `tokio::time::timeout` polls the attempt first, so one that ends at the deadline is in time.
abbrev within : Option ℕ → Attempt → Result (Unit {0}) WorkerError
within none a = a.outcome
within (some left) a =
    if leb a.duration left
    then a.outcome
    else err (failed_with (codes "cleanup was abandoned when the shutdown grace expired"))

unfoldable pub cleanup_once : CleanupBudget → Attempt → Result (Unit {0}) WorkerError
unfolding remaining
cleanup_once b a = within (remaining a.started b) a

-- The result of the attempts and how many were made.
pub record Cleaned : Type 0 where
  pub result : Result (Unit {0}) WorkerError
  pub attempts : ℕ

-- `for attempt in 1..=attempts`, with `made` attempts behind it and `left` ahead.
unfoldable pub retry : CleanupBudget → (ℕ → Attempt) → ℕ → ℕ → WorkerError → Cleaned
unfolding cleanup_once
retry b cleanup zero made last_error = record { result = err last_error; attempts = made }
retry b cleanup (suc left) made last_error = elim (cleanup_once b (cleanup (suc made))) [
  | ok u ↦ record { result = ok tt; attempts = suc made }
  | err e ↦ retry b cleanup left (suc made) e
]

unfoldable pub max_attempts : CleanupBudget → ℕ
max_attempts b = if is_bounded b then 1 else 3

unfoldable pub cleanup_with_retries : CleanupBudget → (ℕ → Attempt) → Cleaned
unfolding retry max_attempts
cleanup_with_retries b cleanup =
    retry b cleanup (max_attempts b) 0 (failed_with (codes "cleanup failed"))

pub data LeakReason : Type 0 where
  cleanup_failed not_terminal : LeakReason

pub record AllocationLeak : Type 0 where
  pub id : AllocationId
  pub state : AllocationState
  pub repository : RepositoryName
  pub vm_name : VmName
  pub is_vm_created : Bool
  pub runner_id : Option ℕ
  pub reason : LeakReason

unfoldable pub new_leak : Allocation → LeakReason → AllocationLeak
new_leak a reason = record {
  id = a.id;
  state = a.state;
  repository = a.request.repository;
  vm_name = a.vm_name;
  is_vm_created = a.vm_created;
  runner_id = a.runner_id;
  reason = reason;
}

abbrev pub is_leaked : AllocationId → List AllocationLeak → Bool
is_leaked id = any λ l. l.id == id

unfoldable pub record_leak : Allocation → LeakReason → List AllocationLeak → List AllocationLeak
unfolding any new_leak
record_leak a reason leaked =
    if is_leaked a.id leaked then leaked else leaked ++ (new_leak a reason ∷ [])

-- The end of `cleanup_with_retries`.
unfoldable pub leaks_after :
    CleanupBudget → Cleaned → Allocation → List AllocationLeak → List AllocationLeak
leaks_after b c a leaked =
    if is_ok c.result
    then leaked
    else if is_bounded b
    then record_leak a cleanup_failed leaked
    else leaked

-- `AllocationManager::transition`
unfoldable pub transitioned :
    Bool → (List Entry → List Entry) → ℕ → AllocationId → AllocationState → List Entry → Changed
unfolding get update
transitioned is_saved meanwhile now id state entries = elim (get id entries) [
  | err e ↦ (err e, entries)
  | ok a ↦ update is_saved meanwhile id (moved now state) entries
]

-- A call that the teardown makes: `ensure_hot_released` offers the machine to the pool, and the
-- backend's cleanup is called for each attempt, from 1.
pub data Call : Type 0 where
  pool_offered : Call
  cleanup_called : ℕ → Call

-- A call adds itself at the end of those made before it.
unfoldable pub offered : Allocation → List Call → List Call
offered a calls = if is_hot a then calls ++ (pool_offered ∷ []) else calls

unfoldable pub cleanup_calls : ℕ → List Call → List Call
cleanup_calls zero calls = calls
cleanup_calls (suc n) calls = cleanup_calls n calls ++ (cleanup_called (suc n) ∷ [])

-- What one run of `ensure_terminal` did; `calls` has its calls in their order.
pub record Ended : Type 0 where
  pub result : Result AllocationState ManagerError
  pub entries : List Entry
  pub leaked : List AllocationLeak
  pub calls : List Call
  pub attempts : ℕ

-- The second half of `ensure_terminal`: durable bookkeeping, after the teardown.
abbrev pub Settled : Type 0
Settled = Result AllocationState ManagerError × List Entry

unfoldable pub settle_last :
    Answers → ℕ → AllocationId → AllocationState → Allocation → List Entry → Settled
unfolding transitioned
settle_last w now id terminal latest entries =
    if is_terminal latest.state
    then (ok latest.state, entries)
    else let (moved_to, after) =
        transitioned (w.is_saved 3) (w.meanwhile 6) now id terminal entries in
      elim moved_to [ err e ↦ (err e, after) | ok u ↦ (ok terminal, after) ]

unfoldable pub settle : Answers → ℕ → AllocationId → AllocationState → List Entry → Settled
unfolding ensure_cleaning get settle_last
settle w now id terminal entries =
    let (cleaned, second) = ensure_cleaning (w.is_saved 2) (w.meanwhile 4) now id entries in
    elim cleaned [
      | err e ↦ (err e, second)
      | ok u ↦
          let third = w.meanwhile 5 second in
          elim (get id third) [
            | err e ↦ (err e, third)
            | ok latest ↦ settle_last w now id terminal latest third
          ]
    ]

abbrev pub has_ended : AllocationId → List Entry → Option AllocationState
has_ended id entries = elim (get id entries) [
  | err e ↦ none
  | ok latest ↦ if is_terminal latest.state then some latest.state else none
]

-- What the cleanup's result leads to.
unfoldable pub conclude :
    Answers
    → ℕ
    → AllocationId
    → AllocationState
    → Result (Unit {0}) WorkerError
    → List Entry
    → Settled
unfolding get update settle
conclude w now id asked (ok u) entries = settle w now id asked entries
conclude w now id asked (err e) entries = elim (has_ended id entries) [
  | some state ↦ (ok state, entries)
  | none ↦
      let (_, recorded) =
        update (w.is_saved 1) (w.meanwhile 3) id
          (λ a. ok (with_error now false (codes "cleanup failed: " ++ message e) a)) entries in
      settle w now id failed recorded
]

abbrev pub current_or : Allocation → Result Allocation ManagerError → Allocation
current_or fallback (ok a) = a
current_or fallback (err e) = fallback

-- The entries when the record is read, before the cleanup.
unfoldable pub before_cleanup : Answers → ℕ → AllocationId → List Entry → List Entry
unfolding ensure_cleaning
before_cleanup w now id entries =
    w.meanwhile 1 (ensure_cleaning (w.is_saved 0) (w.meanwhile 0) now id entries).1

unfoldable pub ensure_terminal :
    Answers
    → ℕ
    → CleanupBudget
    → Allocation
    → AllocationState
    → List Entry
    → List AllocationLeak
    → Ended
unfolding before_cleanup get offered cleanup_with_retries cleanup_calls conclude
ensure_terminal w now b fallback asked entries leaked =
    let id = fallback.id in
    let seen = before_cleanup w now id entries in
    let current = current_or fallback (get id seen) in
    let released = offered current [] in
    let cleaned = cleanup_with_retries b w.cleanup in
    let released_then_cleaned = cleanup_calls cleaned.attempts released in
    let concluded = conclude w now id asked cleaned.result (w.meanwhile 2 seen) in
    if is_terminal current.state
    then record {
      result = ok current.state;
      entries = seen;
      leaked = leaked;
      calls = [];
      attempts = 0;
    }
    else record {
      result = concluded.0;
      entries = concluded.1;
      leaked = leaks_after b cleaned current leaked;
      calls = released_then_cleaned;
      attempts = cleaned.attempts;
    }

unfoldable pub requested_state : Bool → Result (Unit {0}) WorkerError → AllocationState
requested_state is_cancelled run_result =
    if is_cancelled then cancelled else if is_ok run_result then completed else failed
