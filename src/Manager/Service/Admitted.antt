-- ===== src/Manager/Service/Admitted.antt =====
-- What stands behind an allocation that a create made.
use flanforge.Base.{
  ℕ, suc, ◌+◌, ◌≤◌, ◌≡◌, sym, ap, ◌∙◌, subst, inl, inr, true, none, some, List, [], ◌∷◌, length,
  filter, ok, arith, ltb, Bool-cases, Option-cases, Result-cases,
}
use flanforge.Core.Source.{GuestSize}
use flanforge.Core.Hot.{HotGuest}
use flanforge.Core.Allocation.{Allocation, AllocationRequest}
use flanforge.Core.Claims.{ForgejoClaims, ensure_authorized}
use flanforge.Core.Claims.Policy.{IsAuthorized, ensure_authorized_iff}
use flanforge.Core.Config.{Config, Profile, get_profile}
use flanforge.Core.Sizing.{RequestOptions, resolve_size, resolve_hot_age}
use flanforge.Manager.Model.{Entry, HostMachine}
use flanforge.Manager.Resolve.{profile, vm_name}
use flanforge.Manager.Admission.{
  active_allocations, ensure_capacity, committed_capacity, hot_capacity, foreign_running, hot_names,
}
use flanforge.Manager.Admission.Bounds.{active-committed}
use flanforge.Manager.Pool.Drain.{World}
use flanforge.Manager.Entries.{insert_entry, remove_entry}
use flanforge.Manager.Entries.Prune.{prune_terminal_history-Kept}
use flanforge.Manager.Service.{Answers, Resolved, authorize, idempotent, create, entry_of}
use flanforge.Manager.Service.Attempts.{WellFormed, insert-keys}
use flanforge.Manager.Service.Cases.{makes_new, create_cases, decide-Admission}

authorize_lem :
    (answers : Answers) (config : Config) (request : AllocationRequest) (options : RequestOptions)
    (claims : ForgejoClaims) {resolved : Resolved}
    → authorize answers config request options claims ≡ ok resolved
    → (get_profile request.profile config.profiles ≡ some resolved.profile)
      × IsAuthorized claims resolved.profile request
unfolding authorize profile
authorize_lem answers config request options claims {resolved} h =
    elim (Option-cases (get_profile request.profile config.profiles)) [
      | inl e ↦ absurd (ground arith)
      | inr (p, e) ↦ elim (Result-cases (ensure_authorized claims p request)) [
        | inr (x, d) ↦ absurd (ground arith)
        | inl (_, d) ↦ elim (Result-cases (resolve_size options p)) [
          | inr (x, s) ↦ absurd (ground arith)
          | inl (size, s) ↦ elim (Result-cases (resolve_hot_age options.hot p)) [
            | inr (x, t) ↦ absurd (ground arith)
            | inl (age, t) ↦
                let same : p ≡ resolved.profile = ground arith in
                (
                  e ∙ ap some same,
                  subst (λ q. IsAuthorized claims q request) same
                      ((ensure_authorized_iff claims p request).0 d),
                )
          ]
        ]
      ]
    ]

capacity_leaves :
    (es : List Entry) (config : Config) (size : GuestSize) (machines : List HostMachine)
    (hot : List HotGuest)
    → ensure_capacity es config size machines hot ≡ ok tt
    → suc (length (active_allocations es)) ≤ config.runtime.max_running_vms
unfolding ensure_capacity
capacity_leaves es config size machines hot h =
    let active = active_allocations es in
    let pool = hot_names hot machines in
    let used =
      foreign_running active machines pool
      + (committed_capacity active config).active
      + (hot_capacity hot active pool).active
      + 1 in
    elim (Bool-cases (ltb config.runtime.max_running_vms used)) [
      | inl e ↦ absurd (ground arith)
      | inr e ↦ ground (arith, active-committed active config)
    ]

active-remove :
    (j : ℕ) (es : List Entry)
    → length (active_allocations (remove_entry j es)) ≤ length (active_allocations es)
unfolding remove_entry filter active_allocations
active-remove j [] = omega arith
active-remove j (e ∷ es) = ground (arith, active-remove j es)

active-insert :
    (e : Entry) (es : List Entry)
    → length (active_allocations (insert_entry e es)) ≤ suc (length (active_allocations es))
unfolding insert_entry active_allocations filter
active-insert e es = ground (arith, active-remove e.allocation.id es)

-- Where the identifiers are distinct and each attempt has one live allocation at most, an
-- allocation that a create made is for the request, under the machine name that the request
-- derives; the profile that the request names is configured and authorizes the signed claims for
-- it; no live allocation was there for its attempt; and the live allocations, this one included,
-- are no more than the machines that may run.
pub create-Admitted :
    (answers : Answers) (config : Config) (es : List Entry) (world : World)
    (request : AllocationRequest) (options : RequestOptions) (claims : ForgejoClaims)
    {a : Allocation}
    → WellFormed es
    → (create answers config es world request options claims).result
      ≡ ok (record { allocation = a; is_new = true })
    → (a.request ≡ request)
      × (vm_name config request ≡ ok a.vm_name)
      × ((p : Profile) × (get_profile request.profile config.profiles ≡ some p)
          × IsAuthorized claims p request)
      × (idempotent es request ≡ none)
      × (length (active_allocations (create answers config es world request options claims).entries)
          ≤ config.runtime.max_running_vms)
create-Admitted answers config es world request options claims {a} w h =
    elim (create_cases answers config es world request options claims) [
      | inl (_, old) ↦
          let new : makes_new (create answers config es world request options claims).result
              ≡ true =
            ap makes_new h in
          absurd (ground arith)
      | inr (resolved, decided, auth, free, d, left, new) ↦
          let admission = decide-Admission answers config es request options resolved d in
          let (found, allowed) = authorize_lem answers config request options claims auth in
          let e = entry_of decided.allocation in
          let made : decided.allocation ≡ a = ground arith in
          let (machines, hot, _, _, room) = admission.has_room in
          let space = capacity_leaves es config resolved.size machines hot room in
          let (active, size, unchanged, keys) =
            prune_terminal_history-Kept (insert_entry e es) answers.history_limit
              (insert-keys e es w.keys) in
          (
            ap (λ (b : Allocation). b.request) (sym made) ∙ admission.same_request,
            admission.named ∙ ap (λ (b : Allocation). ok b.vm_name) made,
            (resolved.profile, found, allowed),
            free,
            rw (left, active) (omega (arith, active-insert e es)),
          )
    ]
