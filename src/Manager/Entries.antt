-- ===== src/Manager/Entries.antt =====
-- crates/flanforge-manager/src/state.rs: the resident entries. A change takes the lock twice; what
-- other tasks do in between is the function `meanwhile`, and whether the store saved the record is
-- `is_saved`. A runner's identifier is a natural number. The identifiers' texts have one width, so
-- that their order is that of their numbers.
use flanforge.Base.{
  ℕ, ◌-◌, Bool, true, false, not, ◌&&◌, ◌||◌, ◌==◌, ltb, Option, none, some, Text, List, [], ◌∷◌,
  map, length, take, filter, if◌then◌else◌, Result, ok, err, map_err, ok_or,
}
use flanforge.Core.Source.{AllocationId, CloneSource, RetentionOutcome}
use flanforge.Core.Allocation.{
  Allocation, AllocationState, cleaning, is_terminal, state_eq, transition, set_runner_id,
  set_vm_created, set_source, set_clone_source, set_retention, set_capacity_busy, set_error,
}
use flanforge.Manager.Model.{
  Entry, ManagerError, not_found, transition_error, store_error, invalid_runner_id, allocations,
}
pub mod Sort
pub mod Prune
pub mod Examples

abbrev pub has_id : AllocationId → Entry → Bool
has_id id e = e.allocation.id == id

unfoldable pub find_entry : AllocationId → List Entry → Option Allocation
find_entry id [] = none
find_entry id (e ∷ es) = if has_id id e then some e.allocation else find_entry id es

unfoldable pub get : AllocationId → List Entry → Result Allocation ManagerError
unfolding find_entry
get id entries = ok_or (find_entry id entries) (not_found id)

abbrev pub set_allocation : Allocation → Entry → Entry
set_allocation a e = record e { allocation = a }

-- `entry.allocation = allocation` of the entry under the key
unfoldable pub replace : AllocationId → Allocation → List Entry → List Entry
replace id a [] = []
replace id a (e ∷ es) =
    let rest = replace id a es in if has_id id e then set_allocation a e ∷ es else e ∷ rest

-- `entries.remove(&id)` and `entries.insert(id, entry)`
unfoldable pub remove_entry : AllocationId → List Entry → List Entry
remove_entry id = filter λ e. not (has_id id e)

unfoldable pub insert_entry : Entry → List Entry → List Entry
unfolding remove_entry
insert_entry e es = e ∷ remove_entry e.allocation.id es

abbrev pub Changed : Type 0
Changed = Result (Unit {0}) ManagerError × List Entry

-- The second half of `update`, on the entries as they are by then.
abbrev pub store_back : AllocationId → Allocation → List Entry → Changed
store_back id a entries = elim (find_entry id entries) [
  | none ↦ (err (not_found id), entries)
  | some old ↦ (ok tt, replace id a entries)
]

unfoldable pub update :
    Bool
    → (List Entry → List Entry)
    → AllocationId
    → (Allocation → Result Allocation ManagerError)
    → List Entry
    → Changed
unfolding get replace
update is_saved meanwhile id change entries = elim (get id entries) [
  | err e ↦ (err e, entries)
  | ok a ↦ elim (change a) [
    | err e ↦ (err e, entries)
    | ok b ↦
        if is_saved
        then store_back id b (meanwhile entries)
        else (err store_error, meanwhile entries)
  ]
]

-- The changes that the callers of `update` make.
unfoldable pub moved : ℕ → AllocationState → Allocation → Result Allocation ManagerError
unfolding transition
moved now state a = map_err transition_error (transition now state a)

unfoldable pub with_error : ℕ → Bool → Text → Allocation → Allocation
with_error now is_capacity message a =
    set_error now message (if is_capacity then set_capacity_busy now a else a)

unfoldable pub set_runner_id_checked :
    Bool → (List Entry → List Entry) → ℕ → AllocationId → ℕ → List Entry → Changed
unfolding update
set_runner_id_checked is_saved meanwhile now id runner_id entries =
    if runner_id == 0
    then (err invalid_runner_id, entries)
    else update is_saved meanwhile id (λ a. ok (set_runner_id now runner_id a)) entries

unfoldable pub ensure_cleaning :
    Bool → (List Entry → List Entry) → ℕ → AllocationId → List Entry → Changed
unfolding update
ensure_cleaning is_saved meanwhile now id entries = elim (get id entries) [
  | err e ↦ (err e, entries)
  | ok a ↦
      if state_eq a.state cleaning || is_terminal a.state
      then (ok tt, entries)
      else update is_saved meanwhile id (moved now cleaning) entries
]

-- `sort_by_key`: the time of the last change, the time of creation, the identifier.
abbrev pub key_lt : Allocation → Allocation → Bool
key_lt a b =
    ltb a.updated_at_unix b.updated_at_unix
    || (a.updated_at_unix == b.updated_at_unix
        && (ltb a.created_at_unix b.created_at_unix
            || (a.created_at_unix == b.created_at_unix && ltb a.id b.id)))

unfoldable pub insert_by : Allocation → List Allocation → List Allocation
insert_by a [] = a ∷ []
insert_by a (b ∷ bs) = let rest = insert_by a bs in if key_lt b a then b ∷ rest else a ∷ b ∷ bs

unfoldable pub sort : List Allocation → List Allocation
unfolding insert_by
sort [] = []
sort (a ∷ rest) = insert_by a (sort rest)

unfoldable pub remove_all : List AllocationId → List Entry → List Entry
unfolding remove_entry
remove_all [] es = es
remove_all (id ∷ ids) es = remove_all ids (remove_entry id es)

abbrev pub ended : List Entry → List Allocation
ended es = filter (λ a. is_terminal a.state) (allocations es)

abbrev pub ids : List Allocation → List AllocationId
ids = map λ a. a.id

unfoldable pub prune_terminal_history : List Entry → ℕ → List Entry
unfolding sort remove_all
prune_terminal_history entries limit =
    let remove_count = length entries - limit in
    if remove_count == 0
    then entries
    else remove_all (take remove_count (ids (sort (ended entries)))) entries
