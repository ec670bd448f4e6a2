-- ===== src/Manager/Teardown/Shutdown.antt =====
-- crates/flanforge-manager/src/shutdown.rs: the stop of the manager and its report. Instants are
-- milliseconds; what the awaited teardowns did to the entries within the grace is an argument.
use flanforge.Base.{
  ℕ, Bool, true, false, not, ◌&&◌, ◌||◌, any, filter, map, Option, none, some, Text, codes, List,
  [], ◌∷◌, ◌++◌, if◌then◌else◌,
}
use flanforge.Core.Source.{AllocationId}
use flanforge.Core.Allocation.{is_terminal}
use flanforge.Manager.Model.{Entry}
use flanforge.Manager.Entries.{find_entry}
use flanforge.Manager.Teardown.{
  LeakReason, not_terminal, AllocationLeak, new_leak, is_leaked, record_leak,
}
use flanforge.Manager.Teardown.Budget.{teardown_deadline}

-- The entries that a stop cancels and waits for.
abbrev pub is_awaited : Entry → Bool
is_awaited e = not (is_terminal e.allocation.state) && (e.is_supervised || e.is_terminalizing)

abbrev cancel_entry : Entry → Entry
cancel_entry e = if is_awaited e then record e { is_cancelled = true } else e

abbrev pub awaited_ids : List Entry → List AllocationId
awaited_ids es = map (λ (e : Entry). e.allocation.id) (filter is_awaited es)

unfoldable pub add_leak : List Entry → AllocationId → List AllocationLeak → List AllocationLeak
unfolding find_entry any new_leak
add_leak entries id leaked = if is_leaked id leaked then leaked else elim (find_entry id entries) [
  | none ↦ leaked
  | some a ↦ if is_terminal a.state then leaked else leaked ++ (new_leak a not_terminal ∷ [])
]

unfoldable pub collect_leaks :
    List Entry → List AllocationId → List AllocationLeak → List AllocationLeak
unfolding add_leak
collect_leaks entries [] leaked = leaked
collect_leaks entries (id ∷ ids) leaked = collect_leaks entries ids (add_leak entries id leaked)

-- `uuid_text` is the text of a UUID.
unfoldable pub runner_name : (AllocationId → Text) → AllocationLeak → Option Text
runner_name uuid_text l = elim l.runner_id [
  | none ↦ none
  | some r ↦ some (codes "flanforged-" ++ uuid_text l.id)
]

pub record ShutdownReport : Type 0 where
  pub leaked : List AllocationLeak
  pub grace : ℕ
  pub spent : ℕ

abbrev pub is_clean : ShutdownReport → Bool
is_clean r = elim r.leaked [ [] ↦ true | l ∷ ls ↦ false ]

-- The manager's part of the state that a stop reads and writes.
pub record Stopping : Type 0 where
  pub entries : List Entry
  pub is_closing : Bool
  pub teardown_deadline : Option ℕ
  pub leaked : List AllocationLeak

-- The first half, under one lock. The deadline is a `OnceLock`: a second stop keeps the first's.
unfoldable pub begin_shutdown : ℕ → ℕ → Stopping → Stopping
begin_shutdown started grace s = record s {
  entries = map cancel_entry s.entries;
  is_closing = true;
  teardown_deadline = elim s.teardown_deadline [
    | none ↦ some (flanforge.Manager.Teardown.Budget.teardown_deadline started grace)
    | some d ↦ some d
  ];
}

-- The whole stop: `settled` is the state when the wait is over. The leaks are taken from it.
unfoldable pub shutdown : ℕ → ℕ → ℕ → (Stopping → Stopping) → Stopping → ShutdownReport × Stopping
unfolding begin_shutdown collect_leaks
shutdown started grace spent wait s =
    let settled = wait (begin_shutdown started grace s) in
    (
      record {
        leaked = collect_leaks settled.entries (awaited_ids s.entries) settled.leaked;
        grace = grace;
        spent = spent;
      },
      record settled { leaked = [] },
    )
