-- ===== src/Manager/Service/Cases.antt =====
-- How a create ends, and what an admission that decided on a record rests on.
use flanforge.Base.{
  ◌≡◌, refl, sym, ap, ◌∙◌, inl, inr, ◌⊎◌, Bool, true, false, none, some, List, ◌∷◌, ◌++◌, Result,
  ok, err, arith, Bool-cases, Option-cases, Result-cases,
}
use flanforge.Core.Names.{VmName, RunnerLabel, new_runner_label}
use flanforge.Core.Allocation.{
  AllocationRequest, AllocationState, set_hot, set_hot_refused, set_clone_source, new_allocation,
}
use flanforge.Core.Claims.{ForgejoClaims}
use flanforge.Core.Config.{Config}
use flanforge.Core.Hot.{HotGuest}
use flanforge.Core.Sizing.{RequestOptions}
use flanforge.Manager.Model.{Entry, HostMachine, ManagerError}
use flanforge.Manager.Admission.{ensure_sole_producer, ensure_capacity, hot_snapshot}
use flanforge.Manager.Pool.{apply}
use flanforge.Manager.Pool.Drain.{World}
use flanforge.Manager.Entries.{insert_entry, prune_terminal_history}
use flanforge.Manager.Resolve.{vm_name}
use flanforge.Manager.Service.{
  Answers, Resolved, Decided, CreateAllocation, authorize, idempotent, made, decide, commit,
  commit_claim, commit_allocation, admit, prepare_hot, create, entry_of,
}

-- Whether a create made an allocation.
abbrev pub makes_new : Result CreateAllocation ManagerError → Bool
makes_new (ok created) = created.is_new
makes_new (err e) = false

-- How a create ends: the entries stay, or the record that was decided on joins them.
pub create_cases :
    (answers : Answers) (config : Config) (es : List Entry) (world : World)
    (request : AllocationRequest) (options : RequestOptions) (claims : ForgejoClaims)
    → let outcome = create answers config es world request options claims in
      ((outcome.entries ≡ es) × (makes_new outcome.result ≡ false))
      ⊎ ((resolved : Resolved) × (decided : Decided) × (authorize answers config request options
              claims
            ≡ ok resolved)
          × (idempotent es request ≡ none)
          × (decide answers config es request options resolved ≡ ok decided)
          × (outcome.entries
              ≡ prune_terminal_history
                  (insert_entry (entry_of decided.allocation) es)
                  answers.history_limit)
          × (outcome.result ≡ ok (record { allocation = decided.allocation; is_new = true })))
unfolding create admit commit commit_allocation
create_cases answers config es world request options claims =
    elim (Result-cases (authorize answers config request options claims)) [
      | inr (e, a) ↦ inl (rw (create, a) (refl, refl))
      | inl (resolved, a) ↦ elim (Bool-cases answers.is_closing) [
        | inl c ↦ inl (rw (create, a, admit, c) (refl, refl))
        | inr c ↦ elim (Option-cases (idempotent es request)) [
          | inr (existing, i) ↦ inl (rw (create, a, admit, c, i) (refl, refl))
          | inl i ↦ elim (Result-cases (decide answers config es request options resolved)) [
            | inr (e, d) ↦ inl (rw (create, a, admit, c, i, d) (refl, refl))
            | inl (decided, d) ↦
                elim (Result-cases (
                  commit_claim answers decided.claim
                    (prepare_hot answers config request resolved options world).1)) [
                      | inr (e, k) ↦ inl (rw (create, a, admit, c, i, d, commit, k) (refl, refl))
                      | inl (claimed, k) ↦ elim (Bool-cases (answers.is_saved decided.allocation)) [
                        | inr s ↦ inl (
                            rw (create, a, admit, c, i, d, commit, k, commit_allocation, s)
                              (refl, refl))
                        | inl s ↦ inr (
                          resolved,
                          decided,
                          a,
                          i,
                          d,
                          rw (create, a, admit, c, i, d, commit, k, commit_allocation, s) refl,
                          rw (create, a, admit, c, i, d, commit, k, commit_allocation, s) refl,
                        )
                      ]
                    ]
          ]
        ]
      ]
    ]

made-Keeps :
    (answers : Answers) (config : Config) (es : List Entry) (hot : List HotGuest)
    (request : AllocationRequest) (options : RequestOptions) (resolved : Resolved)
    (label : RunnerLabel) (name : VmName)
    → let a = (made answers config es hot request options resolved label name).allocation in
      (a.request ≡ request)
      × (a.state ≡ AllocationState.requested)
      × (a.id ≡ answers.id)
      × (a.vm_name ≡ name)
unfolding made apply set_hot set_hot_refused set_clone_source new_allocation
made-Keeps answers config es hot request options resolved label name = ground arith

pub record Admission (answers : Answers) (config : Config) (es : List Entry)
    (request : AllocationRequest) (resolved : Resolved) (decided : Decided) : Type 0 where
  pub same_request : decided.allocation.request ≡ request
  pub starts : decided.allocation.state ≡ AllocationState.requested
  pub named : vm_name config request ≡ ok decided.allocation.vm_name
  pub produces_alone : ensure_sole_producer es request.profile resolved.mode ≡ ok tt
  pub has_room :
      (machines : List HostMachine) × (hot : List HotGuest) × (answers.machines ≡ some machines)
      × (hot_snapshot answers.hot config ≡ ok hot)
      × (ensure_capacity es config resolved.size machines hot ≡ ok tt)

pub decide-Admission :
    (answers : Answers) (config : Config) (es : List Entry) (request : AllocationRequest)
    (options : RequestOptions) (resolved : Resolved) {decided : Decided}
    → decide answers config es request options resolved ≡ ok decided
    → Admission answers config es request resolved decided
unfolding decide
decide-Admission answers config es request options resolved {decided} h =
    elim (Option-cases answers.machines) [
      | inl e ↦ absurd (ground arith)
      | inr (machines, m) ↦ elim (Result-cases (hot_snapshot answers.hot config)) [
        | inr (x, e) ↦ absurd (ground arith)
        | inl (hot, s) ↦ elim (Result-cases (vm_name config request)) [
          | inr (x, e) ↦ absurd (ground arith)
          | inl (name, n) ↦
              elim (Result-cases (ensure_sole_producer es request.profile resolved.mode)) [
                | inr (x, e) ↦ absurd (ground arith)
                | inl (_, sole) ↦
                    elim (Result-cases (ensure_capacity es config resolved.size machines hot)) [
                      | inr (x, e) ↦ absurd (ground arith)
                      | inl (_, room) ↦
                          elim (Result-cases (
                            new_runner_label
                              (resolved.profile.runner_label ++ (b'-' ∷ answers.label)))) [
                                | inr (x, e) ↦ absurd (ground arith)
                                | inl (label, l) ↦
                                    let built : decided
                                        ≡ made answers config es hot request options resolved label
                                            name =
                                      ground arith in
                                    let (r, t, i, v) =
                                      made-Keeps answers config es hot request options resolved
                                        label name in
                                    record {
                                      same_request =
                                          ap (λ (d : Decided). d.allocation.request) built ∙ r;
                                      starts = ap (λ (d : Decided). d.allocation.state) built ∙ t;
                                      named =
                                          n
                                          ∙ ap ok (
                                              sym (
                                                ap (λ (d : Decided). d.allocation.vm_name) built
                                                ∙ v));
                                      produces_alone = sole;
                                      has_room = (machines, hot, m, s, room);
                                    }
                              ]
                    ]
              ]
        ]
      ]
    ]
