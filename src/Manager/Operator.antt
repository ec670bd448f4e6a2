-- ===== src/Manager/Operator.antt =====
-- crates/flanforge-manager/src/operator/{control,status,token}.rs and `cancel_authorized` of
-- service.rs: what an operator or a run asks of the manager. A cancellation takes the entries' lock
-- once to decide; what happens until the allocation ends is given by the teardown's answers.
use Prim.Native.Nat.{bit_or, bit_xor}
use flanforge.Base.{
  ℕ, ◌-◌, ◌+◌, ◌*◌, Bool, true, false, not, ◌&&◌, ◌||◌, ◌==◌, ltb, min, Option, none, some,
  unwrap_or, Text, List, [], ◌∷◌, map, length, is_some_and, text_eq, if◌then◌else◌, Result, ok, err,
}
use flanforge.Core.Names.{ProfileName, RepositoryName, VmName}
use flanforge.Core.Source.{
  AllocationId, AllocationMode, GuestSize, CloneSource, WarmImageRecord, WarmImageState,
}
use flanforge.Core.Allocation.{Allocation, AllocationState, is_terminal}
use flanforge.Core.Claims.{ForgejoClaims}
use flanforge.Core.Config.{Config, get_profile}
use flanforge.Manager.Model.{Entry, ManagerError, allocations}
use flanforge.Manager.Entries.{get, has_id}
use flanforge.Manager.Service.{get_authorized}
use flanforge.Manager.Teardown.{Answers, AllocationLeak, Ended, ensure_terminal}
use flanforge.Manager.Teardown.Budget.{teardown_budget}
use flanforge.Manager.Recovery.{profile_or_fallback}
pub mod Cancel
pub mod Token
pub mod Examples

-- What the first part of `cancel_by_id` decided, with the entry's allocation.
pub data Cancelling : Type 0 where
  missing : Cancelling
  over signalled waits drives : Allocation → Cancelling

unfoldable pub find_full : AllocationId → List Entry → Option Entry
find_full id [] = none
find_full id (e ∷ es) = if has_id id e then some e else find_full id es

-- A write to the entry under the key.
unfoldable pub set_entry : AllocationId → (Entry → Entry) → List Entry → List Entry
set_entry id change [] = []
set_entry id change (e ∷ es) =
    let rest = set_entry id change es in if has_id id e then change e ∷ es else e ∷ rest

abbrev pub cancel : Entry → Entry
cancel e = record e { is_cancelled = true }

abbrev pub drive : Entry → Entry
drive e = record e { is_cancelled = true; is_terminalizing = true }

abbrev pub settle_entry : Entry → Entry
settle_entry e = record e { is_terminalizing = false }

unfoldable pub begin_cancel : AllocationId → List Entry → Cancelling × List Entry
unfolding find_full set_entry
begin_cancel id entries = elim (find_full id entries) [
  | none ↦ (missing, entries)
  | some e ↦
      if is_terminal e.allocation.state
      then (over e.allocation, entries)
      else if e.is_supervised
      then (signalled e.allocation, set_entry id cancel entries)
      else if e.is_terminalizing
      then (waits e.allocation, set_entry id cancel entries)
      else (drives e.allocation, set_entry id drive entries)
]

unfoldable pub end_cancel : AllocationId → List Entry → List Entry
unfolding set_entry
end_cancel id = set_entry id settle_entry

-- The teardown that an unsupervised allocation's cancellation runs itself.
unfoldable pub cancel_teardown :
    Answers → ℕ → Option ℕ → Config → Allocation → List Entry → List AllocationLeak → Ended
unfolding profile_or_fallback teardown_budget ensure_terminal
cancel_teardown w now deadline config a entries leaked =
    ensure_terminal w now
      (teardown_budget deadline (1000 * (profile_or_fallback config a).cleanup_timeout_seconds)) a
      AllocationState.cancelled entries leaked

pub record Cancelled : Type 0 where
  pub result : Result Allocation ManagerError
  pub entries : List Entry
  pub leaked : List AllocationLeak

unfoldable pub answer :
    AllocationId → Result AllocationState ManagerError → List Entry → Result Allocation ManagerError
unfolding get
answer id (err e) entries = err e
answer id (ok state) entries = get id entries

-- `others` is what other tasks do until a cancellation that another call drives has ended.
unfoldable pub cancel_by_id :
    Answers
    → (List Entry → List Entry)
    → ℕ
    → Option ℕ
    → Config
    → AllocationId
    → List Entry
    → List AllocationLeak
    → Cancelled
unfolding begin_cancel end_cancel cancel_teardown answer get
cancel_by_id w others now deadline config id entries leaked =
    let (decided, begun) = begin_cancel id entries in
    elim decided [
      | missing ↦ record {
        result = err (ManagerError.not_found id);
        entries = begun;
        leaked = leaked;
      }
      | over a ↦ record { result = ok a; entries = begun; leaked = leaked }
      | signalled a ↦ record { result = ok a; entries = begun; leaked = leaked }
      | waits a ↦
          let later = others begun in
          record { result = get id later; entries = later; leaked = leaked }
      | drives a ↦
          let ended = cancel_teardown w now deadline config a begun leaked in
          let rested = end_cancel id ended.entries in
          record { result = answer id ended.result rested; entries = rested; leaked = ended.leaked }
    ]

unfoldable pub cancel_authorized :
    Answers
    → (List Entry → List Entry)
    → ℕ
    → Option ℕ
    → Config
    → AllocationId
    → ForgejoClaims
    → List Entry
    → List AllocationLeak
    → Cancelled
unfolding get_authorized cancel_by_id
cancel_authorized w others now deadline config id claims entries leaked =
    elim (get_authorized config entries id claims) [
      | err e ↦ record { result = err e; entries = entries; leaked = leaked }
      | ok a ↦
          if is_terminal a.state
          then record { result = ok a; entries = entries; leaked = leaked }
          else cancel_by_id w others now deadline config id entries leaked
    ]

pub record AllocationSummary : Type 0 where
  pub id : AllocationId
  pub profile : ProfileName
  pub repository : RepositoryName
  pub run_id : ℕ
  pub run_attempt : ℕ
  pub state : AllocationState
  pub age_seconds : ℕ
  pub vm_name : VmName
  pub mode : AllocationMode
  pub size : Option GuestSize
  pub source : Option CloneSource

unfoldable pub summarize : ℕ → Allocation → AllocationSummary
summarize now a = record {
  id = a.id;
  profile = a.request.profile;
  repository = a.request.repository;
  run_id = a.request.run_id;
  run_attempt = a.request.run_attempt;
  state = a.state;
  age_seconds = now - a.created_at_unix;
  vm_name = a.vm_name;
  mode = a.mode;
  size = a.size;
  source = a.source;
}

-- The sort of `list`: the oldest first, then the lesser identifier: the texts of UUIDs have one
-- length and are ordered as their numbers are.
abbrev older : AllocationSummary → AllocationSummary → Bool
older a b = ltb b.age_seconds a.age_seconds || (a.age_seconds == b.age_seconds && ltb a.id b.id)

unfoldable pub insert_older : AllocationSummary → List AllocationSummary → List AllocationSummary
insert_older s [] = s ∷ []
insert_older s (r ∷ rest) =
    let more = insert_older s rest in if older r s then r ∷ more else s ∷ r ∷ rest

unfoldable pub sort_older : List AllocationSummary → List AllocationSummary
unfolding insert_older
sort_older [] = []
sort_older (s ∷ rest) = insert_older s (sort_older rest)

unfoldable pub list : ℕ → List Entry → List AllocationSummary
unfolding sort_older summarize
list now entries = sort_older (map (summarize now) (allocations entries))

unfoldable pub bounded_count : ℕ → ℕ
bounded_count value = min value 65535

-- `is_referenced` of the status of a warm image.
unfoldable pub is_referenced : Config → WarmImageRecord → Bool
is_referenced config r = elim (get_profile r.profile config.profiles) [
  | none ↦ false
  | some p ↦ is_some_and p.warm_template (λ warm. text_eq warm r.warm_template)
]

-- The differences of two texts of one length, folded into one byte.
unfoldable pub difference : ℕ → Text → Text → ℕ
difference acc [] _ = acc
difference acc (l ∷ ls) [] = acc
difference acc (l ∷ ls) (r ∷ rs) = difference (bit_or acc (bit_xor l r)) ls rs

unfoldable pub is_token_match : Text → Text → Bool
unfolding difference
is_token_match presented expected =
    if not (length presented == length expected) || length expected == 0
    then false
    else difference 0 presented expected == 0
