-- ===== src/Manager/Entries/Examples.antt =====
-- The trim of a history at concrete entries.
use flanforge.Base.{◌≡◌, refl, ◌≤◌, List, [], ◌∷◌, length, max, arith, filter}
use flanforge.Samples.{fresh_allocation, entry_of}
use flanforge.Core.Allocation.{AllocationState}
use flanforge.Manager.Model.{Entry, allocations}
use flanforge.Manager.Admission.{active_allocations}
use flanforge.Manager.Entries.{prune_terminal_history}
use flanforge.Manager.Entries.Sort.{Unique}
use flanforge.Manager.Entries.Prune.{prune_terminal_history-Kept}

abbrev history : List Entry
history =
    entry_of (record fresh_allocation { id = 1; state = AllocationState.completed })
    ∷ entry_of fresh_allocation
    ∷ entry_of
        (record fresh_allocation { id = 2; state = AllocationState.failed; updated_at_unix = 1000 })
    ∷ []

-- The oldest of the ended records goes.
drops_oldest :
    prune_terminal_history history 2
    ≡ entry_of (record fresh_allocation { id = 1; state = AllocationState.completed })
      ∷ entry_of fresh_allocation
      ∷ []
unfolding prune_terminal_history filter flanforge.Core.Allocation.is_terminal
drops_oldest = refl

history-Unique : Unique (allocations history)
history-Unique = ((λ e. omega arith, (λ e. omega arith, tt)), ((λ e. omega arith, tt), (tt, tt)))

prune_terminal_history-Kept_example :
    (active_allocations (prune_terminal_history history 2) ≡ active_allocations history)
    × (length (prune_terminal_history history 2) ≤ max 2 (length (active_allocations history)))
    × (length history ≤ 2 → prune_terminal_history history 2 ≡ history)
    × Unique (allocations (prune_terminal_history history 2))
prune_terminal_history-Kept_example = prune_terminal_history-Kept history 2 history-Unique
