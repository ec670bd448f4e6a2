-- ===== src/Core/Allocation/Examples.antt =====
-- The allocation's theorems at concrete records.
use flanforge.Base.{◌≡◌, refl, List, [], ◌∷◌, In, arith}
use flanforge.Core.Allocation.{AllocationState, is_terminal}
use flanforge.Core.Allocation.Lifecycle.{run, ends_through_cleaning}
use flanforge.Samples.{fresh_allocation}

abbrev whole_life : List AllocationState
whole_life =
    AllocationState.preparing ∷ AllocationState.running ∷ AllocationState.cleaning
    ∷ AllocationState.completed ∷ []

-- The request to run is refused: the guest has not booted.
whole_life_ends : (run 5 fresh_allocation whole_life).state ≡ AllocationState.completed
unfolding run
whole_life_ends = refl

ends_through_cleaning_example : In AllocationState.cleaning whole_life
unfolding run is_terminal
ends_through_cleaning_example =
    ends_through_cleaning 5 fresh_allocation whole_life (omega arith) refl
