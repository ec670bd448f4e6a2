-- ===== src/Manager/Teardown/Terminal.antt =====
-- What `ensure_terminal` leaves behind.
use flanforge.Base.{
  zero, suc, sym, ◌∙◌, ◌++◌, [], ◌∷◌, append-nil, append_assoc, ℕ, ◌≤◌, ◌≡◌, refl, sym, ap, ◌∙◌,
  true, false, not, ◌&&◌, if◌then◌else◌, arith, is_ok, ok, err, Result, List, Text, codes, ◌++◌,
  some, subst, inl, inr, ◌⊎◌,
}
use flanforge.Core.Source.{AllocationId}
use flanforge.Core.Allocation.{
  Allocation, is_hot, AllocationState, is_terminal, set_error, can_transition_to,
}
use flanforge.Manager.Model.{Entry, ManagerError}
use flanforge.Manager.Entries.{get, find_entry, update, moved, with_error}
use flanforge.Manager.Teardown.Budget.{CleanupBudget, is_bounded}
use flanforge.Manager.Teardown.Cleanup.{cleanup_with_retries-IsRetried, max_attempts_pos}
use flanforge.Manager.Teardown.{
  Call, pool_offered, cleanup_called, offered, cleanup_calls, Answers, before_cleanup, WorkerError,
  message, cleanup_failed, record_leak, leaks_after, Ended, AllocationLeak, cleanup_once,
  max_attempts, cleanup_with_retries, settle, settle_last, conclude, ensure_terminal, current_or,
}
use flanforge.Manager.Teardown.Keeps.{
  KeepsOrEnds, Found, IsCleaned, find-id, cleaning_goes_on, can-end, moved_lem, update_lem,
  cleaning_lem, update-Found, cleaning-Found, meanwhile-Found,
}

with_error-id : (now : ℕ) (m : Text) (a : Allocation) → (with_error now false m a).id ≡ a.id
unfolding with_error set_error
with_error-id now m a = refl

with_error-state :
    (now : ℕ) (m : Text) (a : Allocation) → (with_error now false m a).state ≡ a.state
unfolding with_error set_error
with_error-state now m a = refl

failed_ends : is_terminal AllocationState.failed ≡ true
unfolding is_terminal
failed_ends = refl

module _ (id : AllocationId) (E : AllocationState → Type 0) where
  -- The record ends in `s`, which is `t` or what another task chose.
  abbrev pub EndsIn : AllocationState → Result AllocationState ManagerError × List Entry → Type 0
  EndsIn t r =
      (s : AllocationState) × (b : Allocation) × (r.0 ≡ ok s)
      × (is_terminal s ≡ true)
      × ((s ≡ t) ⊎ E s)
      × (find_entry id r.1 ≡ some b)
      × (b.state ≡ s)

  settle_last-Ends :
      (w : Answers) (now : ℕ) (t : AllocationState) (es : List Entry) {c : Allocation}
      → w.is_saved 3 ≡ true
      → KeepsOrEnds id E (w.meanwhile 6)
      → is_terminal t ≡ true
      → find_entry id es ≡ some c
      → IsCleaned id E c
      → EndsIn t (settle_last w now id t c es)
  unfolding settle_last
  settle_last-Ends w now t es {c} s3 k6 ht h (inr e) =
      let q : settle_last w now id t c es ≡ (ok c.state, es) = ground (arith, e.0) in
      subst (EndsIn t) (sym q) (c.state, c, refl, e.0, inr e.1, h, refl)
  settle_last-Ends w now t es {c} s3 k6 ht h (inl e) =
      let n : is_terminal c.state ≡ false = ap is_terminal e ∙ cleaning_goes_on in
      let (es', done, found) =
        update_lem id E (w.meanwhile 6) (moved now t) es k6 h
          (moved_lem now t c (ap (λ (s : AllocationState). can_transition_to s t) e ∙ can-end t ht))
          (find-id id es h) in
      let q : settle_last w now id t c es ≡ (ok t, es') = ended c es' h s3 n done in
      subst (EndsIn t) (sym q) (t, _, refl, ht, inl refl, found, refl)
    where
      ended :
          (c : Allocation) (es' : List Entry)
          → find_entry id es ≡ some c
          → w.is_saved 3 ≡ true
          → is_terminal c.state ≡ false
          → update true (w.meanwhile 6) id (moved now t) es ≡ (ok tt, es')
          → settle_last w now id t c es ≡ (ok t, es')
      ended c es' h s3 n done = ground (arith, h, s3, n, done)

  -- The bookkeeping ends the record: it needs the saves of its own two changes.
  settle-Ends :
      (w : Answers) (now : ℕ) (t : AllocationState) (es : List Entry)
      → w.is_saved 2 ≡ true
      → w.is_saved 3 ≡ true
      → KeepsOrEnds id E (w.meanwhile 4)
      → KeepsOrEnds id E (w.meanwhile 5)
      → KeepsOrEnds id E (w.meanwhile 6)
      → is_terminal t ≡ true
      → Found id E es
      → EndsIn t (settle w now id t es)
  unfolding settle get
  settle-Ends w now t es s2 s3 k4 k5 k6 ht (a, h, l) =
      let (es₁, b, done, found, c) = cleaning_lem id E (w.meanwhile 4) now es k4 h l in
      let (b₁, found₁, how) = k5 es₁ b found in
      let c₁ : IsCleaned id E b₁ = elim how [
        | inl q ↦ subst (IsCleaned id E) (sym q) c
        | inr e ↦ inr e
      ] in
      let q : settle w now id t es ≡ settle_last w now id t b₁ (w.meanwhile 5 es₁) =
        ground (arith, s2, done, found₁) in
      subst (EndsIn t) (sym q) (settle_last-Ends w now t (w.meanwhile 5 es₁) s3 k6 ht found₁ c₁)

  conclude-Ends :
      (w : Answers) (now : ℕ) (t : AllocationState) (r : Result (Unit {0}) WorkerError)
      (es : List Entry)
      → w.is_saved 2 ≡ true
      → w.is_saved 3 ≡ true
      → ((k : ℕ) → KeepsOrEnds id E (w.meanwhile k))
      → is_terminal t ≡ true
      → Found id E es
      → EndsIn (if is_ok r then t else AllocationState.failed) (conclude w now id t r es)
  unfolding conclude get
  conclude-Ends w now t (ok u) es s2 s3 k ht f = settle-Ends w now t es s2 s3 (k 4) (k 5) (k 6) ht f
  conclude-Ends w now t (err e) es s2 s3 k ht (a, h, inr x) =
      let q : conclude w now id t (err e) es ≡ (ok a.state, es) = ground (arith, h, x.0) in
      subst (EndsIn AllocationState.failed) (sym q) (a.state, a, refl, x.0, inr x.1, h, refl)
  conclude-Ends w now t (err e) es s2 s3 k ht (a, h, inl n) =
      let blame =
        λ (b : Allocation). with_error now false (codes "cleanup failed: " ++ message e) b in
      let kept =
        update-Found id E (w.is_saved 1) (w.meanwhile 3) (λ b. ok (blame b)) es (k 3) h (inl n) refl
          (with_error-id now (codes "cleanup failed: " ++ message e) a ∙ find-id id es h)
          (inl (
            ap is_terminal (with_error-state now (codes "cleanup failed: " ++ message e) a) ∙ n)) in
      let q : conclude w now id t (err e) es
          ≡ settle w now id AllocationState.failed
              (update (w.is_saved 1) (w.meanwhile 3) id (λ b. ok (blame b)) es).1 =
        ground (arith, h, n) in
      subst (EndsIn AllocationState.failed) (sym q)
        (settle-Ends w now AllocationState.failed _ s2 s3 (k 4) (k 5) (k 6) failed_ends kept)

-- The end of an allocation in terms of its cleanup, with every earlier write lost or not.
pub ensure_terminal-Ends :
    (E : AllocationState → Type 0) (w : Answers) (now : ℕ) (b : CleanupBudget)
    (fallback : Allocation) (t : AllocationState) (entries : List Entry)
    (leaked : List AllocationLeak)
    → w.is_saved 2 ≡ true
    → w.is_saved 3 ≡ true
    → ((k : ℕ) → KeepsOrEnds fallback.id E (w.meanwhile k))
    → is_terminal t ≡ true
    → Found fallback.id E entries
    → EndsIn fallback.id E
        (if is_ok (cleanup_with_retries b w.cleanup).result then t else AllocationState.failed)
        (
          (ensure_terminal w now b fallback t entries leaked).result,
          (ensure_terminal w now b fallback t entries leaked).entries,
        )
unfolding ensure_terminal get before_cleanup
ensure_terminal-Ends E w now b fallback t entries leaked s2 s3 k ht f =
    let id = fallback.id in
    let r = (cleanup_with_retries b w.cleanup).result in
    let seen = before_cleanup w now id entries in
    let goal : AllocationState = if is_ok r then t else AllocationState.failed in
    let (c, found, live) =
      meanwhile-Found id E (w.meanwhile 1) _ (k 1)
        (cleaning-Found id E (w.is_saved 0) (w.meanwhile 0) now entries (k 0) f) in
    elim live [
      | inr x ↦
          subst (EndsIn id E goal) (sym (early c seen found x.0 refl))
            (c.state, c, refl, x.0, inr x.1, found, refl)
      | inl m ↦ subst (EndsIn id E goal) (sym (late c seen found m refl)) (
          conclude-Ends id E w now t r (w.meanwhile 2 seen) s2 s3 k ht
            (meanwhile-Found id E (w.meanwhile 2) seen (k 2) (c, found, inl m)))
    ]
  where
    result_of : Ended → Result AllocationState ManagerError × List Entry
    result_of r = (r.result, r.entries)

    early :
        (c : Allocation) (seen : List Entry)
        → find_entry fallback.id seen ≡ some c
        → is_terminal c.state ≡ true
        → before_cleanup w now fallback.id entries ≡ seen
        → result_of (ensure_terminal w now b fallback t entries leaked) ≡ (ok c.state, seen)
    early c seen found x q = ground (arith, found, x, q)

    late :
        (c : Allocation) (seen : List Entry)
        → find_entry fallback.id seen ≡ some c
        → is_terminal c.state ≡ false
        → before_cleanup w now fallback.id entries ≡ seen
        → result_of (ensure_terminal w now b fallback t entries leaked)
          ≡ conclude w now fallback.id t
              (cleanup_with_retries b w.cleanup).result
              (w.meanwhile 2 seen)
    late c seen found x q = ground (arith, found, x, q)

-- The calls of the first `n` attempts.
abbrev pub attempts_to : ℕ → List Call
attempts_to zero = []
attempts_to (suc n) = attempts_to n ++ (cleanup_called (suc n) ∷ [])

cleanup_calls-append : (n : ℕ) (calls : List Call) → cleanup_calls n calls ≡ calls ++ attempts_to n
unfolding cleanup_calls
cleanup_calls-append zero calls = sym (append-nil calls)
cleanup_calls-append (suc n) calls =
    ap (λ (cs : List Call). cs ++ (cleanup_called (suc n) ∷ [])) (cleanup_calls-append n calls)
    ∙ append_assoc calls (attempts_to n) (cleanup_called (suc n) ∷ [])

-- Whatever the store, the backend and the other tasks do: for a record that is not ended when the
-- teardown reads it, or that cannot be read, the pool is offered the machine of a hot allocation
-- first, and only then is the backend's cleanup called, once at least, at most three times, and once
-- under a shutdown's deadline. A failed cleanup under a deadline is in the report of leaks, and
-- nothing else is added to it. For a record that has ended by then nothing is called, and the entries
-- stay as they were read.
pub ensure_terminal-Cleans :
    (w : Answers) (now : ℕ) (b : CleanupBudget) (fallback : Allocation) (t : AllocationState)
    (entries : List Entry) (leaked : List AllocationLeak)
    → let r = ensure_terminal w now b fallback t entries leaked in
      let current =
        current_or fallback (get fallback.id (before_cleanup w now fallback.id entries)) in
      (is_terminal current.state ≡ false
        → (1 ≤ r.attempts)
          × (r.attempts ≤ (if is_bounded b then 1 else 3))
          × (r.calls ≡ (if is_hot current then pool_offered ∷ [] else []) ++ attempts_to r.attempts)
          × (r.leaked ≡ (
              if not (is_ok (cleanup_once b (w.cleanup r.attempts))) && is_bounded b
              then record_leak current cleanup_failed leaked
              else leaked)))
      × (is_terminal current.state ≡ true
          → (r.attempts ≡ 0)
            × (r.leaked ≡ leaked)
            × (r.calls ≡ [])
            × (r.entries ≡ before_cleanup w now fallback.id entries)
            × (r.result ≡ ok current.state))
unfolding ensure_terminal before_cleanup leaks_after max_attempts offered
ensure_terminal-Cleans w now b fallback t entries leaked =
    let c = cleanup_with_retries-IsRetried b w.cleanup in
    let last = ap is_ok (c.is_last (max_attempts_pos b)) in
    let n = (cleanup_with_retries b w.cleanup).attempts in
    let current =
      current_or fallback (get fallback.id (before_cleanup w now fallback.id entries)) in
    let order = cleanup_calls-append n (offered current []) in
    (
      λ live. ground (arith, live, c.at_most, c.at_least_one (max_attempts_pos b), last, order),
      λ e. ground (arith, e),
    )
