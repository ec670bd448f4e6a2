-- ===== src/Manager/Teardown/Worker.antt =====
-- crates/flanforge-manager/src/teardown.rs and the worker's end in lifecycle.rs: the guard that
-- runs the teardown once, and that run. Its points are numbered on from those of `Answers`.
use flanforge.Base.{
  ℕ, ◌≡◌, refl, sym, ap, ◌∙◌, Bool, true, false, not, ◌&&◌, some, Text, any, List, [], ◌∷◌, map,
  if◌then◌else◌, Result, ok, err, is_ok, arith, inl, inr, ◌⊎◌, subst,
}
use flanforge.Core.Source.{AllocationId}
use flanforge.Core.Allocation.{
  Allocation, AllocationState, is_terminal, set_error, set_capacity_busy,
}
use flanforge.Manager.Model.{Entry}
use flanforge.Manager.Entries.{find_entry, has_id, update, with_error}
use flanforge.Manager.Teardown.Budget.{CleanupBudget}
use flanforge.Manager.Teardown.{
  WorkerError, is_capacity, message, Answers, AllocationLeak, Ended, cleanup_with_retries,
  ensure_terminal, requested_state,
}
use flanforge.Manager.Teardown.Keeps.{KeepsOrEnds, Found, update-Found, find-id}
use flanforge.Manager.Teardown.Terminal.{ensure_terminal-Ends}

-- `entry.is_supervised = false`
abbrev unsupervise : AllocationId → Entry → Entry
unsupervise id e = if has_id id e then record e { is_supervised = false } else e

unfoldable pub release_supervision : AllocationId → List Entry → List Entry
release_supervision id = map (unsupervise id)

-- `Teardown::run`; whether the warm image was put in quarantine is `is_quarantined`.
pub record Finished : Type 0 where
  pub ended : Ended
  pub entries : List Entry
  pub is_quarantined : Bool

unfoldable pub blamed :
    Answers → ℕ → Allocation → Result (Unit {0}) WorkerError → List Entry → List Entry
unfolding update with_error
blamed w now a (ok u) entries = entries
blamed w now a (err e) entries =
    (update (w.is_saved 7) (w.meanwhile 7) a.id
      (λ b. ok (with_error now (is_capacity e) (message e) b)) entries).1

abbrev is_suspect : Result (Unit {0}) WorkerError → Bool
is_suspect (ok u) = false
is_suspect (err e) = not (is_capacity e)

unfoldable pub run_teardown :
    Answers
    → ℕ
    → CleanupBudget
    → Allocation
    → Bool
    → Result (Unit {0}) WorkerError
    → List Entry
    → List AllocationLeak
    → Finished
unfolding release_supervision ensure_terminal blamed requested_state
run_teardown w now b a is_cancelled run_result entries leaked =
    let ended =
      ensure_terminal w now b a (requested_state is_cancelled run_result)
        (blamed w now a run_result entries) leaked in
    record {
      ended = ended;
      entries = release_supervision a.id (w.meanwhile 8 ended.entries);
      is_quarantined = is_suspect run_result;
    }

find-release :
    (id : AllocationId) (es : List Entry)
    → find_entry id (release_supervision id es) ≡ find_entry id es
unfolding release_supervision find_entry
find-release id [] = refl
find-release id (e ∷ es) = ground (arith, find-release id es)

unsupervised :
    (id : AllocationId) (es : List Entry)
    → any (λ e. has_id id e && e.is_supervised) (release_supervision id es) ≡ false
unfolding release_supervision any
unsupervised id [] = refl
unsupervised id (e ∷ es) = ground (arith, unsupervised id es)

requested-ends :
    (c : Bool) (r : Result (Unit {0}) WorkerError) → is_terminal (requested_state c r) ≡ true
unfolding requested_state is_terminal
requested-ends c r = ground arith

with_error-id : (now : ℕ) (f : Bool) (m : Text) (a : Allocation) → (with_error now f m a).id ≡ a.id
unfolding with_error set_error set_capacity_busy
with_error-id now f m a = ground arith

with_error-state :
    (now : ℕ) (f : Bool) (m : Text) (a : Allocation) → (with_error now f m a).state ≡ a.state
unfolding with_error set_error set_capacity_busy
with_error-state now f m a = ground arith

blamed-Found :
    (E : AllocationState → Type 0) (w : Answers) (now : ℕ) (a : Allocation)
    (r : Result (Unit {0}) WorkerError) (es : List Entry) {x : Allocation}
    → KeepsOrEnds a.id E (w.meanwhile 7)
    → find_entry a.id es ≡ some x
    → is_terminal x.state ≡ false
    → Found a.id E (blamed w now a r es)
unfolding blamed
blamed-Found E w now a (ok u) es {x} k h n = (x, h, inl n)
blamed-Found E w now a (err e) es {x} k h n =
    update-Found a.id E (w.is_saved 7) (w.meanwhile 7)
      (λ b. ok (with_error now (is_capacity e) (message e) b)) es k h (inl n) refl
      (with_error-id now (is_capacity e) (message e) x ∙ find-id a.id es h)
      (inl (ap is_terminal (with_error-state now (is_capacity e) (message e) x) ∙ n))

-- A worker's teardown ends its allocation, whatever the worker returned and however its cleanup
-- went, if the two saves after the cleanup succeed and other tasks keep the record or end it with a
-- state of `E`. The record's state is then `cancelled` for a cancelled allocation and otherwise
-- `completed` or `failed` by the worker's result, if the cleanup succeeded, and `failed` if it did
-- not; or it is one that another task chose. No entry of the allocation counts as supervised.
pub run_teardown-Ends :
    (E : AllocationState → Type 0) (w : Answers) (now : ℕ) (b : CleanupBudget) (a : Allocation)
    (is_cancelled : Bool) (r : Result (Unit {0}) WorkerError) (entries : List Entry)
    (leaked : List AllocationLeak) {x : Allocation}
    → w.is_saved 2 ≡ true
    → w.is_saved 3 ≡ true
    → ((k : ℕ) → KeepsOrEnds a.id E (w.meanwhile k))
    → find_entry a.id entries ≡ some x
    → is_terminal x.state ≡ false
    → (c : Allocation) × (find_entry a.id
          (run_teardown w now b a is_cancelled r entries leaked).entries
        ≡ some c)
      × (is_terminal c.state ≡ true)
      × ((c.state ≡ (
            if is_ok (cleanup_with_retries b w.cleanup).result
            then requested_state is_cancelled r
            else AllocationState.failed))
          ⊎ E c.state)
      × (any
            (λ e. has_id a.id e && e.is_supervised)
            (run_teardown w now b a is_cancelled r entries leaked).entries
          ≡ false)
unfolding run_teardown
run_teardown-Ends E w now b a is_cancelled r entries leaked {x} s2 s3 k h n =
    let (s, c, done, ends, which, found, same) =
      ensure_terminal-Ends E w now b a (requested_state is_cancelled r) (blamed w now a r entries)
        leaked s2 s3 k (requested-ends is_cancelled r)
        (blamed-Found E w now a r entries (k 7) h n) in
    let (d, found', how) = k 8 _ c found in
    let released = find-release a.id _ ∙ found' in
    elim how [
      | inl q ↦
          let state : d.state ≡ s = ap (λ (y : Allocation). y.state) q ∙ same in
          (
            d,
            released,
            ap is_terminal state ∙ ends,
            ended_as (sym state) which,
            unsupervised a.id _,
          )
      | inr e ↦ (d, released, e.0, inr e.1, unsupervised a.id _)
    ]
  where
    ended_as : {s s' t : AllocationState} → s ≡ s' → (s ≡ t) ⊎ E s → (s' ≡ t) ⊎ E s'
    ended_as q (inl e) = inl (sym q ∙ e)
    ended_as q (inr e) = inr (subst E q e)
