-- ===== src/Manager/Recovery/Frames.antt =====
-- The teardown of one allocation leaves the records of the others.
use flanforge.Base.{
  ℕ, ◌≡◌, ◌≢◌, refl, true, false, arith, ok, err, Result, List, ◌++◌, codes, none, some,
  Result-cases, Bool-cases, Option-cases, subst, inl, inr,
}
use flanforge.Core.Source.{AllocationId}
use flanforge.Core.Allocation.{Allocation, AllocationState, is_terminal}
use flanforge.Manager.Model.{Entry, ManagerError}
use flanforge.Manager.Entries.{Changed, get, find_entry, update, moved, ensure_cleaning, with_error}
use flanforge.Manager.Teardown.{
  Answers, WorkerError, AllocationLeak, message, transitioned, settle_last, settle, conclude,
  has_ended, before_cleanup, current_or, ensure_terminal, cleanup_with_retries,
}
use flanforge.Manager.Teardown.Budget.{CleanupBudget}
use flanforge.Manager.Teardown.Keeps.{KeepsOrEnds}
use flanforge.Manager.Recovery.Kept.{
  KeepsId, IsKept, IsKept-refl, IsKept-trans, with_error-KeepsId, update-IsKept, cleaning-IsKept,
  moved-KeepsId,
}

module _ (id j : AllocationId) (other : j ≢ id) (E : AllocationState → Type 0) where
  -- Every step of the teardown's second half, by its cases.
  module _ (w : Answers) (k : (i : ℕ) → KeepsOrEnds j E (w.meanwhile i)) (now : ℕ) where
    transitioned-IsKept :
        (t : AllocationState) (es : List Entry)
        → IsKept j E es (transitioned (w.is_saved 3) (w.meanwhile 6) now id t es).1
    unfolding transitioned get
    transitioned-IsKept t es = elim (Option-cases (find_entry id es)) [
      | inl s ↦ subst (IsKept j E es) (skipped s) (IsKept-refl j E es)
      | inr (a, s) ↦ subst (IsKept j E es) (taken a s) (
          update-IsKept id j other E (w.is_saved 3) (w.meanwhile 6) (moved now t) es (k 6)
            (moved-KeepsId id j other E now t))
    ]
      where
        skipped :
            find_entry id es ≡ none
            → es ≡ (transitioned (w.is_saved 3) (w.meanwhile 6) now id t es).1
        skipped s = ground (arith, s)

        taken :
            (a : Allocation)
            → find_entry id es ≡ some a
            → (update (w.is_saved 3) (w.meanwhile 6) id (moved now t) es).1
              ≡ (transitioned (w.is_saved 3) (w.meanwhile 6) now id t es).1
        taken a s = ground (arith, s)

    settle_last-IsKept :
        (t : AllocationState) (latest : Allocation) (es : List Entry)
        → IsKept j E es (settle_last w now id t latest es).1
    unfolding settle_last
    settle_last-IsKept t latest es = elim (Bool-cases (is_terminal latest.state)) [
      | inl e ↦ rw e (IsKept-refl j E es)
      | inr e ↦ subst (IsKept j E es) (which e) (transitioned-IsKept t es)
    ]
      where
        which :
            is_terminal latest.state ≡ false
            → (transitioned (w.is_saved 3) (w.meanwhile 6) now id t es).1
              ≡ (settle_last w now id t latest es).1
        which e = ground (arith, e)

    settle-IsKept : (t : AllocationState) (es : List Entry) → IsKept j E es (settle w now id t es).1
    unfolding settle get
    settle-IsKept t es =
        let second = (ensure_cleaning (w.is_saved 2) (w.meanwhile 4) now id es).1 in
        let third = w.meanwhile 5 second in
        let first_kept = cleaning-IsKept id j other E (w.is_saved 2) (w.meanwhile 4) now es (k 4) in
        let then_kept = IsKept-trans j E es second third first_kept (k 5 second) in
        elim (Result-cases (ensure_cleaning (w.is_saved 2) (w.meanwhile 4) now id es).0) [
          | inr (e, c) ↦ subst (IsKept j E es) (refused e c) first_kept
          | inl (u, c) ↦ elim (Option-cases (find_entry id third)) [
            | inl s ↦ subst (IsKept j E es) (lost u c s) then_kept
            | inr (latest, s) ↦
                subst (IsKept j E es) (last u latest c s)
                  (IsKept-trans j E es third _ then_kept (settle_last-IsKept t latest third))
          ]
        ]
      where
        cleaned : Changed
        cleaned = ensure_cleaning (w.is_saved 2) (w.meanwhile 4) now id es

        refused : (e : ManagerError) → cleaned.0 ≡ err e → cleaned.1 ≡ (settle w now id t es).1
        refused e c = ground (arith, c)

        lost :
            (u : Unit {0})
            → cleaned.0 ≡ ok u
            → find_entry id (w.meanwhile 5 cleaned.1) ≡ none
            → w.meanwhile 5 cleaned.1 ≡ (settle w now id t es).1
        lost u c s = ground (arith, c, s)

        last :
            (u : Unit {0}) (latest : Allocation)
            → cleaned.0 ≡ ok u
            → find_entry id (w.meanwhile 5 cleaned.1) ≡ some latest
            → (settle_last w now id t latest (w.meanwhile 5 cleaned.1)).1 ≡ (settle w now id t es).1
        last u latest c s = ground (arith, c, s)

    conclude-IsKept :
        (t : AllocationState) (r : Result (Unit {0}) WorkerError) (es : List Entry)
        → IsKept j E es (conclude w now id t r es).1
    unfolding conclude get
    conclude-IsKept t (ok u) es = settle-IsKept t es
    conclude-IsKept t (err e) es = elim (Option-cases (has_ended id es)) [
      | inr (s, h) ↦ subst (IsKept j E es) (over s h) (IsKept-refl j E es)
      | inl h ↦ subst (IsKept j E es) (goes h) (
          IsKept-trans j E es blamed _
            (update-IsKept id j other E (w.is_saved 1) (w.meanwhile 3) blame es (k 3) blame-KeepsId)
            (settle-IsKept AllocationState.failed blamed))
    ]
      where
        blame : Allocation → Result Allocation ManagerError
        blame a = ok (with_error now false (codes "cleanup failed: " ++ message e) a)

        blamed : List Entry
        blamed = (update (w.is_saved 1) (w.meanwhile 3) id blame es).1

        blame-KeepsId : KeepsId blame
        blame-KeepsId a b h =
            with_error-KeepsId now false (codes "cleanup failed: " ++ message e) a b h

        over :
            (s : AllocationState)
            → has_ended id es ≡ some s
            → es ≡ (conclude w now id t (err e) es).1
        over s h = ground (arith, h)

        goes :
            has_ended id es ≡ none
            → (settle w now id AllocationState.failed blamed).1 ≡ (conclude w now id t (err e) es).1
        goes h = rw (conclude, h) refl

-- The teardown of an allocation keeps every other one's record, if the other tasks do.
pub ensure_terminal-IsKept :
    (j : AllocationId) (E : AllocationState → Type 0) (w : Answers) (now : ℕ) (b : CleanupBudget)
    (fallback : Allocation) (t : AllocationState) (es : List Entry) (leaked : List AllocationLeak)
    → (other : j ≢ fallback.id) → ((i : ℕ) → KeepsOrEnds j E (w.meanwhile i))
    → IsKept j E es (ensure_terminal w now b fallback t es leaked).entries
unfolding ensure_terminal before_cleanup
ensure_terminal-IsKept j E w now b fallback t es leaked other k =
    let id = fallback.id in
    let first = (ensure_cleaning (w.is_saved 0) (w.meanwhile 0) now id es).1 in
    let seen = w.meanwhile 1 first in
    let seen_kept =
      IsKept-trans j E es first seen
        (cleaning-IsKept id j other E (w.is_saved 0) (w.meanwhile 0) now es (k 0)) (k 1 first) in
    let current = current_or fallback (get id seen) in
    elim (Bool-cases (is_terminal current.state)) [
      | inl e ↦ subst (IsKept j E es) (early e) seen_kept
      | inr n ↦ subst (IsKept j E es) (late n) (
          IsKept-trans j E es seen _ seen_kept (
            IsKept-trans j E seen (w.meanwhile 2 seen) _ (k 2 seen) (
              conclude-IsKept id j other E w k now t (cleanup_with_retries b w.cleanup).result
                (w.meanwhile 2 seen))))
    ]
  where
    before : List Entry
    before = before_cleanup w now fallback.id es

    early :
        is_terminal (current_or fallback (get fallback.id before)).state ≡ true
        → before ≡ (ensure_terminal w now b fallback t es leaked).entries
    early e = ground (arith, e)

    late :
        is_terminal (current_or fallback (get fallback.id before)).state ≡ false
        → (conclude w now fallback.id t
            (cleanup_with_retries b w.cleanup).result
            (w.meanwhile 2 before)).1
          ≡ (ensure_terminal w now b fallback t es leaked).entries
    late n = ground (arith, n)
