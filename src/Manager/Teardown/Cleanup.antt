-- ===== src/Manager/Teardown/Cleanup.antt =====
-- The attempts of `cleanup_with_retries`.
use flanforge.Base.{
  ℕ, zero, suc, ◌+◌, ◌≤◌, ◌<◌, ◌≡◌, sym, ap, false, arith, is_ok, err, Result-cases, Bool-cases,
  subst, ◌==◌, inl, inr,
}
use flanforge.Manager.Teardown.Budget.{CleanupBudget}
use flanforge.Manager.Teardown.{
  Attempt, WorkerError, Cleaned, cleanup_once, retry, max_attempts, cleanup_with_retries,
}

-- Attempts `from` + 1 to `last` were made, at most `left` of them, and only the last may have
-- succeeded; where it did not, all were used up.
pub record IsRetried (b : CleanupBudget) (cleanup : ℕ → Attempt) (left from : ℕ) (c : Cleaned)
    : Type 0 where
  pub at_most : c.attempts ≤ from + left
  pub at_least_one : 0 < left → from < c.attempts
  pub not_before : from ≤ c.attempts
  pub earlier_failed :
      (k : ℕ) → from < k → k < c.attempts → is_ok (cleanup_once b (cleanup k)) ≡ false
  pub is_last : 0 < left → c.result ≡ cleanup_once b (cleanup c.attempts)
  pub exhausted : is_ok c.result ≡ false → c.attempts ≡ from + left

earlier :
    (b : CleanupBudget) (cleanup : ℕ → Attempt) (from k : ℕ)
    → is_ok (cleanup_once b (cleanup (suc from))) ≡ false
    → (suc from < k → is_ok (cleanup_once b (cleanup k)) ≡ false)
    → from < k
    → is_ok (cleanup_once b (cleanup k)) ≡ false
earlier b cleanup from k s r l = elim (Bool-cases (k == suc from)) [
  | inl same ↦
      let q : suc from ≡ k = ground arith in
      subst (λ (j : ℕ). is_ok (cleanup_once b (cleanup j)) ≡ false) q s
  | inr more ↦ r (ground arith)
]

last_of :
    (b : CleanupBudget) (cleanup : ℕ → Attempt) (left from : ℕ) (x : WorkerError)
    → cleanup_once b (cleanup (suc from)) ≡ err x
    → IsRetried b cleanup left (suc from) (retry b cleanup left (suc from) x)
    → (retry b cleanup left (suc from) x).result
      ≡ cleanup_once b (cleanup (retry b cleanup left (suc from) x).attempts)
unfolding retry
last_of b cleanup zero from x s r = sym s
last_of b cleanup (suc left) from x s r = r.is_last (omega arith)

one_more :
    (b : CleanupBudget) (cleanup : ℕ → Attempt) (left from : ℕ) (x : WorkerError)
    → cleanup_once b (cleanup (suc from)) ≡ err x
    → IsRetried b cleanup left (suc from) (retry b cleanup left (suc from) x)
    → IsRetried b cleanup (suc left) from (retry b cleanup left (suc from) x)
one_more b cleanup left from x s r = record {
  at_most = omega (arith, r.at_most);
  at_least_one = λ h. omega (arith, r.not_before);
  not_before = omega (arith, r.not_before);
  earlier_failed = λ k l h. earlier b cleanup from k (ap is_ok s) (λ m. r.earlier_failed k m h) l;
  is_last = λ h. last_of b cleanup left from x s r;
  exhausted = λ h. omega (arith, r.exhausted h);
}

retry-IsRetried :
    (b : CleanupBudget) (cleanup : ℕ → Attempt) (left from : ℕ) (e : WorkerError)
    → IsRetried b cleanup left from (retry b cleanup left from e)
unfolding retry
retry-IsRetried b cleanup zero from e = record {
  at_most = omega arith;
  at_least_one = λ h. absurd (omega arith);
  not_before = omega arith;
  earlier_failed = λ k l h. absurd (omega arith);
  is_last = λ h. absurd (omega arith);
  exhausted = λ h. omega arith;
}
retry-IsRetried b cleanup (suc left) from e =
    elim (Result-cases (cleanup_once b (cleanup (suc from)))) [
      | inl (u, s) ↦
          rw (s, retry)
            (record {
              at_most = omega arith;
              at_least_one = λ h. omega arith;
              not_before = omega arith;
              earlier_failed = λ k l h. absurd (omega arith);
              is_last = λ h. sym s;
              exhausted = λ h. cc;
            })
      | inr (x, s) ↦
          rw (s, retry)
            (one_more b cleanup left from x s (retry-IsRetried b cleanup left (suc from) x))
    ]

-- A cleanup makes its first attempt whatever happens, at most three attempts without a shutdown
-- and one under its deadline. It stops at the first attempt that succeeds, and its result is that
-- of the last attempt; it fails only when it has used up its attempts.
pub cleanup_with_retries-IsRetried :
    (b : CleanupBudget) (cleanup : ℕ → Attempt)
    → IsRetried b cleanup (max_attempts b) 0 (cleanup_with_retries b cleanup)
unfolding cleanup_with_retries
cleanup_with_retries-IsRetried b cleanup = retry-IsRetried b cleanup (max_attempts b) 0 _

pub max_attempts_pos : (b : CleanupBudget) → 0 < max_attempts b
unfolding max_attempts
max_attempts_pos b = ground arith
