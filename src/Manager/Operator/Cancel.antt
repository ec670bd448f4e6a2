-- ===== src/Manager/Operator/Cancel.antt =====
-- What a cancellation promises its caller.
use flanforge.Base.{
  ℕ, ◌*◌, ◌≡◌, refl, sym, ap, ◌∙◌, true, false, Bool, arith, ok, is_ok, List, [], ◌∷◌, Option, some,
  is_some_and, Bool-cases, subst, inl, inr, ◌⊎◌, if◌then◌else◌,
}
use flanforge.Core.Source.{AllocationId}
use flanforge.Core.Allocation.{Allocation, AllocationState, is_terminal}
use flanforge.Core.Config.{Config}
use flanforge.Manager.Model.{Entry}
use flanforge.Manager.Entries.{find_entry, has_id, get}
use flanforge.Manager.Teardown.{Answers, AllocationLeak, cleanup_with_retries}
use flanforge.Manager.Teardown.Budget.{teardown_budget}
use flanforge.Manager.Teardown.Keeps.{KeepsOrEnds, find-id}
use flanforge.Manager.Teardown.Terminal.{EndsIn, ensure_terminal-Ends}
use flanforge.Manager.Recovery.{profile_or_fallback}
use flanforge.Manager.Operator.{
  signalled, waits, drives, find_full, set_entry, cancel, drive, settle_entry, begin_cancel,
  end_cancel, cancel_teardown, answer, cancel_by_id,
}

-- A change that leaves the allocation in place.
abbrev KeepsAllocation : (Entry → Entry) → Type 0
KeepsAllocation change = (e : Entry) → (change e).allocation ≡ e.allocation

find_full-set :
    (id : AllocationId) (change : Entry → Entry) (es : List Entry) {e : Entry}
    → KeepsAllocation change
    → find_full id es ≡ some e
    → find_full id (set_entry id change es) ≡ some (change e)
unfolding find_full set_entry
find_full-set id change [] k h = cc
find_full-set id change (x ∷ es) {e} k h = elim (Bool-cases (has_id id x)) [
  | inl s ↦ rw s (ground (arith, k x, rw s at h))
  | inr s ↦ rw s (rw s (find_full-set id change es k (rw s at h)))
]

find_entry-set :
    (id : AllocationId) (change : Entry → Entry) (es : List Entry)
    → KeepsAllocation change
    → find_entry id (set_entry id change es) ≡ find_entry id es
unfolding find_entry set_entry
find_entry-set id change [] k = refl
find_entry-set id change (x ∷ es) k = elim (Bool-cases (has_id id x)) [
  | inl s ↦ rw s (ground (arith, k x, s))
  | inr s ↦ rw s (rw s (find_entry-set id change es k))
]

find_entry-full :
    (id : AllocationId) (es : List Entry) {e : Entry}
    → find_full id es ≡ some e
    → find_entry id es ≡ some e.allocation
unfolding find_entry find_full
find_entry-full id [] h = cc
find_entry-full id (x ∷ es) {e} h = elim (Bool-cases (has_id id x)) [
  | inl s ↦ ground (arith, s, h)
  | inr s ↦
      let rest : find_full id es ≡ some e = ground (arith, s, h) in
      ground (arith, s, find_entry-full id es rest)
]

cancelled_ends : is_terminal AllocationState.cancelled ≡ true
unfolding is_terminal
cancelled_ends = refl

-- Whether the token of the entry is cancelled.
abbrev pub is_cancelled_in : AllocationId → List Entry → Bool
is_cancelled_in id es = is_some_and (find_full id es) (λ e. e.is_cancelled)

-- A cancellation of an allocation that goes on cancels its token on every path, and leaves its
-- record. It has signalled the worker of a supervised entry; of an unsupervised one it waits where
-- another cancellation drives the teardown, and drives it itself where none does. A second one that
-- comes next then waits for it, and one that comes after its end drives the teardown anew.
pub begin_cancel-Exclusive :
    (id : AllocationId) (es : List Entry) (e : Entry)
    → find_full id es ≡ some e
    → is_terminal e.allocation.state ≡ false
    → (is_cancelled_in id (begin_cancel id es).1 ≡ true)
      × (find_entry id (begin_cancel id es).1 ≡ some e.allocation)
      × ((begin_cancel id es).0 ≡ drives e.allocation
          → ((begin_cancel id (begin_cancel id es).1).0 ≡ waits e.allocation)
            × ((begin_cancel id (end_cancel id (begin_cancel id es).1)).0 ≡ drives e.allocation))
      × ((((begin_cancel id es).0 ≡ drives e.allocation)
            × (e.is_supervised ≡ false)
            × (e.is_terminalizing ≡ false))
          ⊎ (((begin_cancel id es).0 ≡ waits e.allocation)
              × (e.is_supervised ≡ false)
              × (e.is_terminalizing ≡ true))
          ⊎ (((begin_cancel id es).0 ≡ signalled e.allocation) × (e.is_supervised ≡ true)))
unfolding begin_cancel end_cancel
begin_cancel-Exclusive id es e h n =
    let cancelled = find_full-set id cancel es (λ x. refl) h in
    let driven = find_full-set id drive es (λ x. refl) h in
    let there = find_entry-full id es h in
    let kept = find_entry-set id cancel es (λ x. refl) in
    let kept' = find_entry-set id drive es (λ x. refl) in
    let rested = find_full-set id settle_entry (set_entry id drive es) (λ x. refl) driven in
    elim (Bool-cases e.is_supervised) [
      | inl s ↦ ground (arith, h, n, s, cancelled, there, kept)
      | inr s ↦ elim (Bool-cases e.is_terminalizing) [
        | inl t ↦ ground (arith, h, n, s, t, cancelled, there, kept)
        | inr t ↦ ground (arith, h, n, s, t, driven, there, kept', rested)
      ]
    ]

ended_as :
    (E : AllocationState → Type 0) {s s' t : AllocationState}
    → s ≡ s'
    → (s ≡ t) ⊎ E s
    → (s' ≡ t) ⊎ E s'
ended_as E q (inl e) = inl (sym q ∙ e)
ended_as E q (inr e) = inr (subst E q e)

begin_drives :
    (id : AllocationId) (es : List Entry) (e : Entry)
    → find_full id es ≡ some e
    → is_terminal e.allocation.state ≡ false
    → e.is_supervised ≡ false
    → e.is_terminalizing ≡ false
    → begin_cancel id es ≡ (drives e.allocation, set_entry id drive es)
unfolding begin_cancel
begin_drives id es e h n s t = ground (arith, h, n, s, t)

-- The teardown that the cancellation runs, with the entry marked.
driven-Ends :
    (E : AllocationState → Type 0) (w : Answers) (now : ℕ) (deadline : Option ℕ) (config : Config)
    (id : AllocationId) (es : List Entry) (leaked : List AllocationLeak) (e : Entry)
    → w.is_saved 2 ≡ true
    → w.is_saved 3 ≡ true
    → ((k : ℕ) → KeepsOrEnds id E (w.meanwhile k))
    → find_full id es ≡ some e
    → is_terminal e.allocation.state ≡ false
    → let r = cancel_teardown w now deadline config e.allocation (set_entry id drive es) leaked in
      let budget =
        teardown_budget deadline
          (1000 * (profile_or_fallback config e.allocation).cleanup_timeout_seconds) in
      EndsIn id E
        (if is_ok (cleanup_with_retries budget w.cleanup).result
          then AllocationState.cancelled
          else AllocationState.failed)
        (r.result, r.entries)
unfolding cancel_teardown
driven-Ends E w now deadline config id es leaked e s2 s3 k h n =
    let a = e.allocation in
    let there = find_entry-full id es h in
    let q : a.id ≡ id = find-id id es there in
    let marked = find_entry-set id drive es (λ x. refl) ∙ there in
    let budget =
      teardown_budget deadline (1000 * (profile_or_fallback config a).cleanup_timeout_seconds) in
    let r = cancel_teardown w now deadline config a (set_entry id drive es) leaked in
    let goal : AllocationState =
      if is_ok (cleanup_with_retries budget w.cleanup).result
      then AllocationState.cancelled
      else AllocationState.failed in
    subst (λ (i : AllocationId). EndsIn i E goal (r.result, r.entries)) q
      (ensure_terminal-Ends E w now budget a AllocationState.cancelled (set_entry id drive es)
        leaked s2 s3
        (λ i. subst (λ (j : AllocationId). KeepsOrEnds j E (w.meanwhile i)) (sym q) (k i))
        cancelled_ends
        (
          a,
          subst (λ (j : AllocationId). find_entry j (set_entry id drive es) ≡ some a) (sym q)
              marked,
          inl n,
        ))

-- The cancellation of an allocation that no worker watches and Nobody ends yet returns its ended
-- record, if the two saves after the cleanup succeed and the other tasks keep the record or end it
-- with a state of `E`. The state is `cancelled` if the cleanup succeeded, `failed` if it did not, or
-- one that another task chose.
pub cancel_by_id-Ends :
    (E : AllocationState → Type 0) (w : Answers) (others : List Entry → List Entry) (now : ℕ)
    (deadline : Option ℕ) (config : Config) (id : AllocationId) (es : List Entry)
    (leaked : List AllocationLeak) (e : Entry)
    → w.is_saved 2 ≡ true
    → w.is_saved 3 ≡ true
    → ((k : ℕ) → KeepsOrEnds id E (w.meanwhile k))
    → find_full id es ≡ some e
    → is_terminal e.allocation.state ≡ false
    → e.is_supervised ≡ false
    → e.is_terminalizing ≡ false
    → let r = cancel_by_id w others now deadline config id es leaked in
      let budget =
        teardown_budget deadline
          (1000 * (profile_or_fallback config e.allocation).cleanup_timeout_seconds) in
      (c : Allocation) × (r.result ≡ ok c)
      × (find_entry id r.entries ≡ some c)
      × (is_terminal c.state ≡ true)
      × ((c.state ≡ (
            if is_ok (cleanup_with_retries budget w.cleanup).result
            then AllocationState.cancelled
            else AllocationState.failed))
          ⊎ E c.state)
unfolding cancel_by_id end_cancel answer get
cancel_by_id-Ends E w others now deadline config id es leaked e s2 s3 k h n sup term =
    let (s, c, done, ends, which, found, same) =
      driven-Ends E w now deadline config id es leaked e s2 s3 k h n in
    let begins = begin_drives id es e h n sup term in
    let rested = find_entry-set id settle_entry _ (λ x. refl) ∙ found in
    (
      c,
      ground (arith, begins, done, rested),
      ground (arith, begins, rested),
      ap is_terminal same ∙ ends,
      ended_as E (sym same) which,
    )
