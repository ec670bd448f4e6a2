-- ===== src/Manager/Service/Commit.antt =====
-- What a create commits: the claim, then the allocation.
use flanforge.Base.{
  true, false, not, Option, none, some, List, if◌then◌else◌, Result, ok, err, map_err, ◌>>◌, ◌>>=◌,
}
use flanforge.Core.Source.{AllocationId}
use flanforge.Core.Hot.{is_evicting, evict_requested, reset_failed}
use flanforge.Core.Allocation.{Allocation, AllocationRequest}
use flanforge.Core.Config.{Config}
use flanforge.Core.Claims.{ForgejoClaims, ensure_authorized}
use flanforge.Core.Sizing.{RequestOptions}
use flanforge.Manager.Model.{Entry, ManagerError, authorization, shutting_down, store_error}
use flanforge.Manager.Pool.{HotContext, HotClaim, reused}
use flanforge.Manager.Pool.Bounds.{ensure_hot_evicted_for}
use flanforge.Manager.Pool.Yield.{ensure_hot_yielded}
use flanforge.Manager.Pool.Drain.{World, upsert, ensure_hot_drained}
use flanforge.Manager.Resolve
use flanforge.Manager.Resolve.{vm_name}
use flanforge.Manager.Entries.{get, insert_entry, prune_terminal_history}
use flanforge.Manager.Service.Decide.{
  Answers, Resolved, CreateAllocation, Decided, authorize, requested_context, idempotent, decide,
}

-- What a create leaves: its answer, the entries and the pool's records.
pub record Outcome : Type 0 where
  pub result : Result CreateAllocation ManagerError
  pub entries : List Entry
  pub world : World

abbrev pub refused : ManagerError → List Entry → World → Outcome
refused e entries world = record { result = err e; entries = entries; world = world }

abbrev pub entry_of : Allocation → Entry
entry_of a = record {
  allocation = a;
  is_cancelled = false;
  is_supervised = true;
  is_terminalizing = false;
}

unfoldable pub abandon_hot_claim : Answers → Option HotClaim → World → World
unfolding ensure_hot_drained
abandon_hot_claim answers (some (reused guest origin source)) world =
    ensure_hot_drained answers.now answers.host guest reset_failed world
abandon_hot_claim answers _ world = world

-- The allocation's own commit.
unfoldable pub commit_allocation : Answers → List Entry → World → Decided → Outcome
unfolding abandon_hot_claim insert_entry prune_terminal_history
commit_allocation answers entries world decided =
    if not (answers.is_saved decided.allocation)
    then refused store_error entries (abandon_hot_claim answers decided.claim world)
    else record {
      result = ok (record { allocation = decided.allocation; is_new = true });
      entries =
          prune_terminal_history (insert_entry (entry_of decided.allocation) entries)
            answers.history_limit;
      world = world;
    }

-- The claim's commit, before it.
abbrev pub commit_claim : Answers → Option HotClaim → World → Result World ManagerError
commit_claim answers (some (reused guest origin source)) world =
    if answers.host.is_saved guest
    then ok (record world { rows = upsert guest world.rows })
    else err store_error
commit_claim answers _ world = ok world

unfoldable pub commit : Answers → List Entry → World → Decided → Outcome
unfolding commit_allocation
commit answers entries world decided = elim (commit_claim answers decided.claim world) [
  | err e ↦ refused e entries world
  | ok claimed ↦ commit_allocation answers entries claimed decided
]

-- The part of `create` under the entries lock.
unfoldable pub admit :
    Answers → Config → List Entry → World → AllocationRequest → RequestOptions → Resolved → Outcome
unfolding idempotent decide commit
admit answers config entries world request options resolved =
    if answers.is_closing
    then refused shutting_down entries world
    else elim (idempotent entries request) [
      | some existing ↦ record {
        result = ok (record { allocation = existing; is_new = false });
        entries = entries;
        world = world;
      }
      | none ↦ elim (decide answers config entries request options resolved) [
        | err e ↦ refused e entries world
        | ok decided ↦ commit answers entries world decided
      ]
    ]

-- What a `hot` request asks for before the admission: the eviction of its profile's machines where
-- it ends the session, and the yield of idle machines to a request that finds no room.
unfoldable pub prepare_hot :
    Answers
    → Config
    → AllocationRequest
    → Resolved
    → RequestOptions
    → World
    → Option HotContext × World
unfolding requested_context ensure_hot_evicted_for ensure_hot_yielded
prepare_hot answers config request resolved options world =
    let ended =
      if is_evicting options.hot
      then ensure_hot_evicted_for answers.host answers.live request.profile evict_requested world
      else world in
    (
      requested_context answers config request resolved options,
      ensure_hot_yielded answers.host config resolved.size answers.is_counted answers.yields ended,
    )

-- The entries are those under the lock; what `prepare_hot` reads of them before that is among the
-- answers. The context is part of the decision (`made`).
unfoldable pub create :
    Answers
    → Config
    → List Entry
    → World
    → AllocationRequest
    → RequestOptions
    → ForgejoClaims
    → Outcome
unfolding authorize prepare_hot admit
create answers config entries world request options claims =
    elim (authorize answers config request options claims) [
      | err e ↦ refused e entries world
      | ok resolved ↦
          let (_, prepared) = prepare_hot answers config request resolved options world in
          admit answers config entries prepared request options resolved
    ]

unfoldable pub get_authorized :
    Config → List Entry → AllocationId → ForgejoClaims → Result Allocation ManagerError
unfolding get
get_authorized config entries id claims = do
  allocation ← get id entries
  profile ← Resolve.profile config allocation.request
  map_err authorization (ensure_authorized claims profile allocation.request)
  ok allocation
