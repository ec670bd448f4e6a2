-- ===== src/Manager/Operator/Examples.antt =====
-- Cancellations of a supervised allocation and of one that no worker watches, and a credential.
use flanforge.Base.{
  ◌*◌, ◌<◌, ◌≡◌, ◌↔◌, ◌⊎◌, refl, inl, true, false, not, ◌==◌, some, none, codes, List, [], ◌∷◌, ok,
  is_ok, if◌then◌else◌, length,
}
use flanforge.Samples.{fresh_allocation, entry_of, host_config}
use flanforge.Core.Allocation.{Allocation, AllocationState, is_terminal}
use flanforge.Manager.Model.{Entry}
use flanforge.Manager.Entries.{find_entry}
use flanforge.Manager.Teardown.{Answers, cleanup_with_retries}
use flanforge.Manager.Teardown.Budget.{teardown_budget}
use flanforge.Manager.Recovery.{profile_or_fallback}
use flanforge.Manager.Operator.{
  drives, waits, signalled, find_full, begin_cancel, end_cancel, cancel_by_id, is_token_match,
}
use flanforge.Manager.Operator.Cancel.{is_cancelled_in, begin_cancel-Exclusive, cancel_by_id-Ends}
use flanforge.Manager.Operator.Token.{is_token_match_iff}

abbrev unwatched : Entry
unwatched = record (entry_of fresh_allocation) { is_supervised = false }

abbrev entries : List Entry
entries = unwatched ∷ []

abbrev answers : Answers
answers = record {
  is_saved = λ k. not (k == 0);
  meanwhile = λ k es. es;
  cleanup = λ k. record { started = 0; duration = 30; outcome = ok tt };
}

abbrev Nobody : AllocationState → Type 0
Nobody s = ⊥

begin_cancel-Exclusive_example :
    (is_cancelled_in 9 (begin_cancel 9 entries).1 ≡ true)
    × (find_entry 9 (begin_cancel 9 entries).1 ≡ some fresh_allocation)
    × ((begin_cancel 9 entries).0 ≡ drives fresh_allocation
        → ((begin_cancel 9 (begin_cancel 9 entries).1).0 ≡ waits fresh_allocation)
          × ((begin_cancel 9 (end_cancel 9 (begin_cancel 9 entries).1)).0
              ≡ drives fresh_allocation))
    × ((((begin_cancel 9 entries).0 ≡ drives fresh_allocation)
          × (unwatched.is_supervised ≡ false)
          × (unwatched.is_terminalizing ≡ false))
        ⊎ (((begin_cancel 9 entries).0 ≡ waits fresh_allocation)
            × (unwatched.is_supervised ≡ false)
            × (unwatched.is_terminalizing ≡ true))
        ⊎ (((begin_cancel 9 entries).0 ≡ signalled fresh_allocation)
            × (unwatched.is_supervised ≡ true)))
unfolding find_full is_terminal
begin_cancel-Exclusive_example = begin_cancel-Exclusive 9 entries unwatched refl refl

cancel_by_id-Ends_example :
    (c : Allocation) × ((cancel_by_id answers (λ es. es) 5 none host_config 9 entries []).result
      ≡ ok c)
    × (find_entry 9 (cancel_by_id answers (λ es. es) 5 none host_config 9 entries []).entries
        ≡ some c)
    × (is_terminal c.state ≡ true)
    × ((c.state ≡ (
          if is_ok
            (cleanup_with_retries
              (teardown_budget none
                (1000 * (profile_or_fallback host_config fresh_allocation).cleanup_timeout_seconds))
              answers.cleanup).result
          then AllocationState.cancelled
          else AllocationState.failed))
        ⊎ Nobody c.state)
unfolding find_full is_terminal
cancel_by_id-Ends_example =
    cancel_by_id-Ends Nobody answers (λ es. es) 5 none host_config 9 entries [] unwatched refl refl
      (λ k es a h. (a, h, inl refl)) refl refl refl refl

is_token_match_iff_example :
    (is_token_match (codes "3f9a") (codes "3f9b") ≡ true)
    ↔ (codes "3f9a" ≡ codes "3f9b") × (0 < length (codes "3f9b"))
is_token_match_iff_example = is_token_match_iff (codes "3f9a") (codes "3f9b")
