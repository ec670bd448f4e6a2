-- ===== src/Manager/Pool/Drain.antt =====
-- hot/evict.rs, `ensure_hot_drained` of hot/bounds.rs, and the rows of
-- crates/flanforge-orm/src/stores/hot.rs. What the host and the database answer is the parameter
-- `Host`; a number that does not fit its column is one of the database's refusals.
use flanforge.Base.{
  leb, u8_max, u32_max, ℕ, Bool, true, false, not, ◌&&◌, ◌||◌, ◌==◌, Option, none, some, Text,
  text_eq, List, [], ◌∷◌, filter, find, is_some, is_some_and, filter_option, if◌then◌else◌, Result,
  ok, err,
}
use flanforge.Core.Names.{VmName}
use flanforge.Core.Hot.{
  HotGuest, HotState, HotDrainReason, config_reloaded, reset_failed, idle, draining, state_eq,
  ensure_state, ensure_released, validate_guest,
}
use flanforge.Core.Allocation.{Allocation}
use flanforge.Core.Config.{Profile, is_hot_enabled}
use flanforge.Manager.Model.{ManagerError}
pub mod Records
pub mod Faults
pub mod Table
pub mod Examples

-- The answers of the backend and of the database for a machine's record.
pub record Host : Type 0 where
  pub is_evicted : HotGuest → Bool
  pub is_reset : HotGuest → Bool
  pub is_saved : HotGuest → Bool
  pub is_removed : VmName → Bool

-- The rows of the table, and the names of the machines that were destroyed.
pub record World : Type 0 where
  pub rows : List HotGuest
  pub gone : List Text

unfoldable pub row : VmName → List HotGuest → Option HotGuest
row name = find (λ (r : HotGuest). text_eq r.vm_name name)

-- The insert that updates on a conflict of names.
unfoldable pub upsert : HotGuest → List HotGuest → List HotGuest
upsert g [] = g ∷ []
upsert g (r ∷ rest) =
    let more = upsert g rest in if text_eq r.vm_name g.vm_name then g ∷ rest else r ∷ more

unfoldable pub remove : VmName → List HotGuest → List HotGuest
remove name = filter (λ (r : HotGuest). not (text_eq r.vm_name name))

abbrev i64_max : ℕ
i64_max = 9223372036854775807

abbrev is_within : ℕ → Option ℕ → Bool
is_within bound none = true
is_within bound (some n) = leb n bound

-- Whether the numbers fit the fields and the columns.
abbrev pub is_in_range : HotGuest → Bool
is_in_range g =
    leb g.size.cpu_count u8_max
    && leb g.size.memory_mb u32_max
    && leb g.size.storage_mb i64_max
    && is_within i64_max g.warm_generation
    && is_within i64_max g.age_limit_seconds
    && leb g.booted_at_unix i64_max
    && leb g.updated_at_unix i64_max
    && leb g.jobs_served u32_max

-- Whether `hot_guest_from_model` maps and validates the row. A row has the values of its record:
-- one that another program wrote, with a token that names none, is not among the model's.
unfoldable pub is_readable_row : HotGuest → Bool
unfolding validate_guest
is_readable_row g = validate_guest g && is_in_range g

-- A row is mapped and validated when it is read: a single read fails on it, a read of all skips it.
unfoldable pub load : VmName → World → Result (Option HotGuest) ManagerError
unfolding is_readable_row
load name w = elim (row name w.rows) [
  | none ↦ ok none
  | some g ↦ if is_readable_row g then ok (some g) else err ManagerError.store_error
]

unfoldable pub load_all : World → List HotGuest
unfolding is_readable_row
load_all w = filter is_readable_row w.rows

-- The derived `PartialEq` of the reason compares discriminants.
abbrev reason_code : HotDrainReason → ℕ
reason_code HotDrainReason.evict_requested = 0
reason_code HotDrainReason.capacity_pressure = 1
reason_code HotDrainReason.max_lifetime = 2
reason_code HotDrainReason.max_jobs = 3
reason_code HotDrainReason.max_idle = 4
reason_code HotDrainReason.idle_ttl = 5
reason_code HotDrainReason.reset_failed = 6
reason_code HotDrainReason.stale_base = 7
reason_code HotDrainReason.config_reloaded = 8
reason_code HotDrainReason.machine_gone = 9
reason_code HotDrainReason.unverifiable = 10
reason_code HotDrainReason.operator_request = 11

abbrev pub is_stamped : HotGuest → HotDrainReason → Bool
is_stamped g reason = is_some_and g.drain_reason (λ r. reason_code r == reason_code reason)

abbrev pub stamp : HotDrainReason → HotGuest → HotGuest
stamp reason g = record g { drain_reason = some reason }

unfoldable pub ensure_hot_eviction_pending : Host → HotGuest → HotDrainReason → World → World
ensure_hot_eviction_pending host g reason w =
    if is_stamped g reason
    then w
    else if host.is_saved (stamp reason g)
    then record w { rows = upsert (stamp reason g) w.rows }
    else w

unfoldable pub ensure_hot_evicted : Host → HotGuest → HotDrainReason → World → World
unfolding ensure_hot_eviction_pending
ensure_hot_evicted host g reason w =
    if host.is_evicted g
    then record {
      rows = if host.is_removed g.vm_name then remove g.vm_name w.rows else w.rows;
      gone = g.vm_name ∷ w.gone;
    }
    else ensure_hot_eviction_pending host g reason w

unfoldable pub hot_drain_pending : VmName → World → Option HotDrainReason
unfolding load
hot_drain_pending name w = elim (load name w) [
  | err e ↦ none
  | ok found ↦ elim found [ none ↦ none | some g ↦ g.drain_reason ]
]

-- The end of a drain whose record is saved: an unclaimed machine is destroyed now.
unfoldable pub finish_drain : Host → HotGuest → HotDrainReason → World → World
unfolding ensure_hot_evicted
finish_drain host moved reason saved =
    if is_some moved.claimed_by then saved else ensure_hot_evicted host moved reason saved

unfoldable pub ensure_hot_drained : ℕ → Host → HotGuest → HotDrainReason → World → World
ensure_hot_drained now host g reason w =
    if state_eq g.state draining then w else elim (ensure_state now draining g) [
      | err e ↦ ensure_hot_eviction_pending host g reason w
      | ok moved ↦
          if not (host.is_saved (stamp reason moved))
          then w
          else finish_drain host (stamp reason moved) reason
              (record w { rows = upsert (stamp reason moved) w.rows })
    ]
