-- ===== src/Manager/Service/Prepared.antt =====
-- What `prepare_hot` leaves of the pool.
use flanforge.Base.{
  ℕ, zero, suc, ◌≡◌, refl, false, none, [], length, if◌then◌else◌, Bool-cases, inl, inr,
}
use flanforge.Core.Hot.{is_evicting, evict_requested}
use flanforge.Core.Allocation.{AllocationRequest}
use flanforge.Core.Config.{Config}
use flanforge.Core.Sizing.{RequestOptions}
use flanforge.Manager.Pool.Drain.{World, load_all}
use flanforge.Manager.Pool.Drain.Records.{Keeps, Keeps-trans}
use flanforge.Manager.Pool.Bounds.Keeps.{passes-Keeps}
use flanforge.Manager.Pool.Yield.{
  yieldable_hot, yield_rounds, ensure_hot_yielded, yield_rounds-Keeps,
}
use flanforge.Manager.Service.{Answers, Resolved, prepare_hot}

pub prepared-Keeps :
    (answers : Answers) (config : Config) (request : AllocationRequest) (resolved : Resolved)
    (options : RequestOptions) (world : World)
    → Keeps world (prepare_hot answers config request resolved options world).1
unfolding prepare_hot ensure_hot_yielded
prepared-Keeps answers config request resolved options world =
    let yields = λ (left : ℕ) (v : World).
      yield_rounds-Keeps answers.host config resolved.size answers.yields 0 left v in
    elim (Bool-cases (is_evicting options.hot)) [
      | inl e ↦ rw e (
          Keeps-trans world _ _
            (passes-Keeps answers.host answers.live [] request.profile evict_requested world).2
            (yields _ _))
      | inr e ↦ rw e (yields _ world)
    ]

pub prepared_same :
    (answers : Answers) (config : Config) (request : AllocationRequest) (resolved : Resolved)
    (options : RequestOptions) (world : World)
    → is_evicting options.hot ≡ false
    → yieldable_hot config resolved.size (answers.yields 0) world ≡ none
    → (prepare_hot answers config request resolved options world).1 ≡ world
unfolding prepare_hot ensure_hot_yielded yield_rounds
prepared_same answers config request resolved options world e y =
    rw e (rounds_same (if answers.is_counted then length (load_all world) else 0))
  where
    rounds_same :
        (left : ℕ)
        → yield_rounds answers.host config resolved.size answers.yields 0 left world ≡ world
    rounds_same zero = refl
    rounds_same (suc left) = rw (yield_rounds, y) refl
