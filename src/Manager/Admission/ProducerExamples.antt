-- ===== src/Manager/Admission/ProducerExamples.antt =====
-- The producer test at a host that runs no regeneration, and at one that does.
use flanforge.Base.{◌≡◌, refl, ◌≤◌, some, List, [], ◌∷◌, codes, length, ok, err, length-filter-le}
use flanforge.Core.Source.{AllocationMode}
use flanforge.Manager.Model.{Entry, ManagerError, BusyReason, allocations}
use flanforge.Manager.Admission.{produces, ensure_sole_producer}
use flanforge.Manager.Admission.Producers.{producers, sole_producer_kept}
use flanforge.Samples.{fresh_allocation, entry_of}

abbrev regeneration_entry : Entry
regeneration_entry =
    entry_of (record fresh_allocation { id = 10; mode = AllocationMode.regenerate })

first_regeneration :
    ensure_sole_producer
      (entry_of fresh_allocation ∷ [])
      regeneration_entry.allocation.request.profile
      AllocationMode.regenerate
    ≡ ok tt
unfolding ensure_sole_producer flanforge.Base.find flanforge.Core.Allocation.is_terminal
first_regeneration = refl

second_regeneration :
    ensure_sole_producer
      (regeneration_entry ∷ [])
      regeneration_entry.allocation.request.profile
      AllocationMode.regenerate
    ≡ err (ManagerError.busy BusyReason.regenerating (some 10))
unfolding ensure_sole_producer flanforge.Base.find flanforge.Core.Allocation.is_terminal
    flanforge.Base.text_eq
second_regeneration = refl

sole_producer_kept_example :
    length (producers (codes "ios") (regeneration_entry ∷ entry_of fresh_allocation ∷ [])) ≤ 1
sole_producer_kept_example =
    sole_producer_kept (entry_of fresh_allocation ∷ []) regeneration_entry first_regeneration
      (λ q. length-filter-le (produces q) (allocations (entry_of fresh_allocation ∷ [])))
      (codes "ios")
