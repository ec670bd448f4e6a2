-- ===== src/Manager/Service/Attempts.antt =====
-- The entries that a create leaves: one live allocation for each attempt of a run.
use flanforge.Base.{
  ◌+◌, ◌≤◌, ◌≡◌, refl, sym, ap, ◌∙◌, subst, inl, inr, ◌↔◌, true, none, text_eq_iff, List, [], ◌∷◌,
  length, filter, find, length-filter_mono, arith, Bool-cases, if◌then◌else◌,
}
use flanforge.Core.Source.{AllocationId}
use flanforge.Core.Allocation.{Allocation, AllocationRequest, is_same_attempt}
use flanforge.Core.Claims.{ForgejoClaims}
use flanforge.Core.Config.{Config}
use flanforge.Core.Sizing.{RequestOptions}
use flanforge.Manager.Model.{Entry, allocations}
use flanforge.Manager.Admission.{active_allocations}
use flanforge.Manager.Pool.Drain.{World}
use flanforge.Manager.Entries.{remove_entry, insert_entry}
use flanforge.Manager.Entries.Sort.{Unique}
use flanforge.Manager.Entries.Prune.{Unique-remove, remove-Fresh, prune_terminal_history-Kept}
use flanforge.Manager.Service.{Answers, idempotent, create, entry_of}
use flanforge.Manager.Service.Cases.{create_cases, decide-Admission}

abbrev pub attempts : AllocationRequest → List Entry → List Allocation
attempts r es = filter (λ a. is_same_attempt a.request r) (active_allocations es)

-- The keys are distinct, and each attempt of a run has one live allocation at most.
pub record WellFormed (es : List Entry) : Type 0 where
  pub keys : Unique (allocations es)
  pub one_live : (r : AllocationRequest) → length (attempts r es) ≤ 1

same_attempt_iff :
    (q r : AllocationRequest)
    → (is_same_attempt q r ≡ true)
      ↔ (q.repository ≡ r.repository)
        × (q.run_id ≡ r.run_id)
        × (q.run_attempt ≡ r.run_attempt)
        × (q.profile ≡ r.profile)
unfolding is_same_attempt
same_attempt_iff q r =
    let (to, from) = text_eq_iff q.repository r.repository in
    let (to', from') = text_eq_iff q.profile r.profile in
    (
      λ h. (to (ground arith), ground arith, ground arith, to' (ground arith)),
      λ h. let a = from h.0 in let b = from' h.3 in ground arith,
    )

-- Two requests for the attempt of a third are for one attempt.
pub same_attempt_meet :
    (q r s : AllocationRequest)
    → is_same_attempt q s ≡ true
    → is_same_attempt r s ≡ true
    → is_same_attempt q r ≡ true
same_attempt_meet q r s hq hr =
    let (a, b, c, d) = (same_attempt_iff q s).0 hq in
    let (a', b', c', d') = (same_attempt_iff r s).0 hr in
    (same_attempt_iff q r).1 (a ∙ sym a', b ∙ sym b', c ∙ sym c', d ∙ sym d')

pub same_attempt_refl : (r : AllocationRequest) → is_same_attempt r r ≡ true
same_attempt_refl r = (same_attempt_iff r r).1 (refl, refl, refl, refl)

no_attempt :
    (es : List Entry) (r : AllocationRequest) → idempotent es r ≡ none → length (attempts r es) ≡ 0
unfolding idempotent find filter active_allocations
no_attempt [] r h = refl
no_attempt (e ∷ es) r h = ground (arith, no_attempt es r)

fewer_attempts :
    (j : AllocationId) (es : List Entry) (r : AllocationRequest)
    → length (attempts r (remove_entry j es)) ≤ length (attempts r es)
unfolding remove_entry filter active_allocations
fewer_attempts j [] r = omega arith
fewer_attempts j (e ∷ es) r = ground (arith, fewer_attempts j es r)

pub insert-keys :
    (e : Entry) (es : List Entry)
    → Unique (allocations es)
    → Unique (allocations (insert_entry e es))
unfolding insert_entry
insert-keys e es u = (remove-Fresh e.allocation.id es, Unique-remove e.allocation.id es u)

attempts-insert :
    (e : Entry) (es : List Entry) (r : AllocationRequest)
    → length (attempts r (insert_entry e es))
      ≤ (if is_same_attempt e.allocation.request r then 1 else 0) + length (attempts r es)
unfolding insert_entry active_allocations filter
attempts-insert e es r = ground (arith, fewer_attempts e.allocation.id es r)

insert-one_live :
    (e : Entry) (es : List Entry) (r : AllocationRequest)
    → idempotent es e.allocation.request ≡ none
    → length (attempts r es) ≤ 1
    → length (attempts r (insert_entry e es)) ≤ 1
insert-one_live e es r free one = elim (Bool-cases (is_same_attempt e.allocation.request r)) [
  | inr miss ↦ ground (arith, attempts-insert e es r)
  | inl hit ↦
      let others =
        length-filter_mono (λ (a : Allocation). is_same_attempt a.request r)
          (λ a. is_same_attempt a.request e.allocation.request)
          (λ a h. same_attempt_meet a.request e.allocation.request r h hit)
          (active_allocations es) in
      ground (arith, attempts-insert e es r, no_attempt es e.allocation.request free)
]

-- A create keeps the identifiers distinct and at most one live allocation for each attempt of a run,
-- whatever the host, the stores and the worker answer.
pub create-WellFormed :
    (answers : Answers) (config : Config) (es : List Entry) (world : World)
    (request : AllocationRequest) (options : RequestOptions) (claims : ForgejoClaims)
    → WellFormed es
    → WellFormed (create answers config es world request options claims).entries
create-WellFormed answers config es world request options claims w =
    elim (create_cases answers config es world request options claims) [
      | inl (same, _) ↦ subst WellFormed (sym same) w
      | inr (resolved, decided, a, free, d, left, new) ↦
          let admission = decide-Admission answers config es request options resolved d in
          let e = entry_of decided.allocation in
          let unclaimed : idempotent es decided.allocation.request ≡ none =
            ap (idempotent es) admission.same_request ∙ free in
          let (active, size, unchanged, keys) =
            prune_terminal_history-Kept (insert_entry e es) answers.history_limit
              (insert-keys e es w.keys) in
          subst WellFormed (sym left) (record {
            keys = keys;
            one_live = λ r.
                subst
                  (λ (live : List Allocation).
                    length (filter (λ a. is_same_attempt a.request r) live) ≤ 1)
                  (sym active) (insert-one_live e es r unclaimed (w.one_live r));
          })
    ]
