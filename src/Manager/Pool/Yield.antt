-- ===== src/Manager/Pool/Yield.antt =====
-- hot/yield.rs: an idle machine gives its slot to a request that the host has no other room for.
-- A round reads the host, the records and the entries anew; `YieldRead` is what it then sees.
use flanforge.Base.{
  ℕ, zero, suc, Bool, not, ◌&&◌, Option, none, some, Text, List, contains, filter, best_by, length,
  is_ok, if◌then◌else◌, Option-cases, inl, inr,
}
use flanforge.Core.Source.{GuestSize}
use flanforge.Core.Hot.{HotGuest, HotDrainReason, idle, state_eq}
use flanforge.Core.Config.{Config}
use flanforge.Manager.Model.{HostMachine, Entry}
use flanforge.Manager.Admission.{ensure_capacity, active_allocations, hot_names, vm_names}
use flanforge.Manager.Pool.Claim.{live_hot_names}
use flanforge.Manager.Pool.Drain.{Host, World, load_all, ensure_hot_evicted}
use flanforge.Manager.Pool.Drain.Records.{Keeps, Keeps-refl, Keeps-trans, evicted-Keeps}
use flanforge.Manager.Pool.Bounds.{staler}

pub record YieldRead : Type 0 where
  pub machines : Option (List HostMachine)
  pub is_readable : Bool
  pub entries : List Entry

abbrev is_yieldable : List Text → List Text → List Text → HotGuest → Bool
is_yieldable names claimed busy g =
    state_eq g.state idle
    && contains names g.vm_name
    && not (contains claimed g.vm_name)
    && not (contains busy g.vm_name)

-- The first least one, by `min_by_key`.
abbrev stalest : List HotGuest → Option HotGuest
stalest = best_by λ best g. not (staler g best)

unfoldable pub yieldable_hot : Config → GuestSize → YieldRead → World → Option HotGuest
unfolding load_all ensure_capacity live_hot_names hot_names active_allocations filter best_by
yieldable_hot config requested read w = elim read.machines [
  | none ↦ none
  | some machines ↦
      let hot = load_all w in
      if not read.is_readable
      then none
      else if is_ok (ensure_capacity read.entries config requested machines hot)
      then none
      else stalest (
          filter
            (is_yieldable (hot_names hot machines) (live_hot_names read.entries)
              (vm_names (active_allocations read.entries)))
            hot)
]

-- `round` rounds are behind, `left` ahead.
unfoldable pub yield_rounds : Host → Config → GuestSize → (ℕ → YieldRead) → ℕ → ℕ → World → World
unfolding yieldable_hot ensure_hot_evicted
yield_rounds host config requested reads round zero w = w
yield_rounds host config requested reads round (suc left) w =
    elim (yieldable_hot config requested (reads round) w) [
      | none ↦ w
      | some g ↦
          yield_rounds host config requested reads (suc round) left
            (ensure_hot_evicted host g HotDrainReason.capacity_pressure w)
    ]

-- `is_counted` says whether the records could be read when they are counted.
unfoldable pub ensure_hot_yielded :
    Host → Config → GuestSize → Bool → (ℕ → YieldRead) → World → World
unfolding load_all yield_rounds
ensure_hot_yielded host config requested is_counted reads w =
    yield_rounds host config requested reads 0 (if is_counted then length (load_all w) else 0) w

-- A yield keeps the row of each machine that it does not destroy.
pub yield_rounds-Keeps :
    (host : Host) (config : Config) (requested : GuestSize) (reads : ℕ → YieldRead) (round left : ℕ)
    (w : World)
    → Keeps w (yield_rounds host config requested reads round left w)
unfolding yield_rounds
yield_rounds-Keeps host config requested reads round zero w = Keeps-refl w
yield_rounds-Keeps host config requested reads round (suc left) w =
    elim (Option-cases (yieldable_hot config requested (reads round) w)) [
      | inl e ↦ rw (yield_rounds, e) (Keeps-refl w)
      | inr (g, e) ↦
          let evicted = ensure_hot_evicted host g HotDrainReason.capacity_pressure w in
          rw (yield_rounds, e)
            (Keeps-trans w evicted _ (evicted-Keeps host g HotDrainReason.capacity_pressure w)
              (yield_rounds-Keeps host config requested reads (suc round) left evicted))
    ]
