-- ===== src/Manager/Service/Runs.antt =====
-- The entries over any sequence of creates and updates. One task drives an entry at a time, so that
-- an update reads and writes it in one step.
use flanforge.Base.{
  ℕ, suc, ◌≤◌, ◌≡◌, ◌≢◌, refl, sym, ap, ◌∙◌, subst, inl, inr, ◌⊎◌, Bool, true, Option, some, Text,
  List, [], ◌∷◌, length, filter, Result, ok, arith, Bool-cases, Option-cases, Result-cases,
}
use flanforge.Core.Source.{AllocationId, CloneSource, RetentionOutcome}
use flanforge.Core.Allocation.{
  Allocation, AllocationRequest, AllocationState, is_terminal, is_same_attempt, transition,
  can_transition_to, set_runner_id, set_vm_created, set_source, set_clone_source, set_retention,
  set_error, set_capacity_busy,
}
use flanforge.Core.Claims.{ForgejoClaims}
use flanforge.Core.Config.{Config}
use flanforge.Core.Sizing.{RequestOptions}
use flanforge.Manager.Model.{Entry, ManagerError, allocations}
use flanforge.Manager.Admission.{active_allocations}
use flanforge.Manager.Pool.Drain.{World}
use flanforge.Manager.Entries.{
  has_id, find_entry, get, replace, update, store_back, moved, with_error,
}
use flanforge.Manager.Entries.Sort.{Unique, Fresh}
use flanforge.Manager.Service.{Answers, create}
use flanforge.Manager.Service.Attempts.{WellFormed, create-WellFormed}
use flanforge.Manager.Service.Cases.{create_cases}
use flanforge.Manager.Service.Admitted.{create-Admitted}

abbrev infallible : (Allocation → Allocation) → Allocation → Result Allocation ManagerError
infallible f a = ok (f a)

-- The changes that the methods of the state make.
pub data Change : (Allocation → Result Allocation ManagerError) → Type 0 where
  to_state : (now : ℕ) (state : AllocationState) → Change (moved now state)
  runner : (now runner_id : ℕ) → Change (infallible (set_runner_id now runner_id))
  vm_made : (now : ℕ) → Change (infallible (set_vm_created now))
  source : (now : ℕ) (s : CloneSource) → Change (infallible (set_source now s))
  clone_source :
      (now : ℕ) (s : CloneSource) (g : Option ℕ) → Change (infallible (set_clone_source now s g))
  retention : (now : ℕ) (o : RetentionOutcome) → Change (infallible (set_retention now o))
  failure : (now : ℕ) (full : Bool) (m : Text) → Change (infallible (with_error now full m))

-- One step under the entries lock, where no configuration lets more than `limit` machines run.
pub data Step (limit : ℕ) (es : List Entry) : List Entry → Type 0 where
  creates :
      (answers : Answers) (config : Config) (world : World) (request : AllocationRequest)
      (options : RequestOptions) (claims : ForgejoClaims)
      → config.runtime.max_running_vms ≤ limit
      → Step limit es (create answers config es world request options claims).entries
  updates :
      (is_saved : Bool) (id : AllocationId) {change : Allocation → Result Allocation ManagerError}
      → Change change
      → Step limit es (update is_saved (λ entries. entries) id change es).1

pub data Run (limit : ℕ) (es : List Entry) : List Entry → Type 0 where
  start : Run limit es es
  next : {fs gs : List Entry} → Run limit es fs → Step limit fs gs → Run limit es gs

-- What a change leaves of a record, and that it does not revive one.
abbrev Follows : Allocation → Allocation → Type 0
Follows a b =
    (b.id ≡ a.id)
    × (b.request ≡ a.request)
    × (is_terminal a.state ≡ true → is_terminal b.state ≡ true)

ended_stays :
    (s t : AllocationState)
    → can_transition_to s t ≡ true
    → is_terminal s ≡ true
    → is_terminal t ≡ true
unfolding can_transition_to is_terminal
ended_stays s t h e = ground arith

Change-Follows :
    {change : Allocation → Result Allocation ManagerError}
    → Change change
    → (a : Allocation) {b : Allocation} → change a ≡ ok b
    → Follows a b
unfolding moved transition set_runner_id set_vm_created set_source set_clone_source set_retention
    with_error set_error set_capacity_busy
Change-Follows (Change.to_state now state) a h =
    elim (Bool-cases (can_transition_to a.state state)) [
      | inl e ↦ (ground arith, ground arith, λ t. ground (arith, ended_stays a.state state e t))
      | inr e ↦ absurd (ground arith)
    ]
Change-Follows (Change.runner now runner_id) a h = ground arith
Change-Follows (Change.vm_made now) a h = ground arith
Change-Follows (Change.source now s) a h = ground arith
Change-Follows (Change.clone_source now s g) a h = ground arith
Change-Follows (Change.retention now o) a h = ground arith
Change-Follows (Change.failure now full m) a h = ground arith

-- The entry under the key, replaced by what follows it.
module _ (id : AllocationId) (a b : Allocation) (f : Follows a b) where
  has_own_id : (es : List Entry) → find_entry id es ≡ some a → a.id ≡ id
  unfolding find_entry
  has_own_id [] h = absurd (ground arith)
  has_own_id (e ∷ es) h = elim (Bool-cases (has_id id e)) [
    | inl m ↦
        let same : e.allocation ≡ a = ground arith in
        let hit : e.allocation.id ≡ id = ground arith in
        ap (λ (x : Allocation). x.id) (sym same) ∙ hit
    | inr m ↦ has_own_id es (ground arith)
  ]

  replace-count :
      (p : Allocation → Bool)
      → p b ≡ p a
      → (es : List Entry) → find_entry id es ≡ some a
      → length (filter p (active_allocations (replace id b es)))
        ≤ length (filter p (active_allocations es))
  unfolding find_entry replace active_allocations filter
  replace-count p same [] h = omega arith
  replace-count p same (e ∷ es) h = elim (Bool-cases (has_id id e)) [
    | inl m ↦
        let old : e.allocation ≡ a = ground arith in
        let ends : is_terminal e.allocation.state ≡ true → is_terminal b.state ≡ true =
          λ t. f.2 (ap (λ (x : Allocation). is_terminal x.state) (sym old) ∙ t) in
        let tested : p b ≡ p e.allocation = same ∙ ap p (sym old) in ground arith
    | inr m ↦ ground (arith, replace-count p same es)
  ]

  replace-Fresh :
      (j : AllocationId) (es : List Entry)
      → find_entry id es ≡ some a
      → Fresh j (allocations es)
      → Fresh j (allocations (replace id b es))
  unfolding find_entry replace
  replace-Fresh j [] h u = tt
  replace-Fresh j (e ∷ es) h (n, u) = elim (Bool-cases (has_id id e)) [
    | inl m ↦
        let old : e.allocation ≡ a = ground arith in
        let apart : b.id ≢ j = λ q. n (ap (λ (x : Allocation). x.id) old ∙ sym f.0 ∙ q) in
        rw m (apart, u)
    | inr m ↦ rw m (n, replace-Fresh j es (ground arith) u)
  ]

  replace-Unique :
      (es : List Entry)
      → find_entry id es ≡ some a
      → Unique (allocations es)
      → Unique (allocations (replace id b es))
  unfolding find_entry replace
  replace-Unique [] h u = tt
  replace-Unique (e ∷ es) h (n, u) = elim (Bool-cases (has_id id e)) [
    | inl m ↦
        let old : e.allocation ≡ a = ground arith in
        let same : e.allocation.id ≡ b.id = ap (λ (x : Allocation). x.id) old ∙ sym f.0 in
        rw m (subst (λ k. Fresh k (allocations es)) same n, u)
    | inr m ↦
        rw m (replace-Fresh e.allocation.id es (ground arith) n, replace-Unique es (ground arith) u)
  ]

length-filter-true : (xs : List Allocation) → length (filter (λ a. true) xs) ≡ length xs
unfolding filter
length-filter-true [] = refl
length-filter-true (x ∷ xs) = ap suc (length-filter-true xs)

stored :
    (id : AllocationId) (a b : Allocation) (es : List Entry)
    → find_entry id es ≡ some a
    → (store_back id b es).1 ≡ replace id b es
stored id a b es e = rw (store_back, e) refl

update_cases :
    (is_saved : Bool) (id : AllocationId) (change : Allocation → Result Allocation ManagerError)
    (es : List Entry)
    → let after = (update is_saved (λ entries. entries) id change es).1 in
      (after ≡ es)
      ⊎ ((a : Allocation) × (b : Allocation) × (find_entry id es ≡ some a)
          × (change a ≡ ok b)
          × (after ≡ replace id b es))
unfolding update get
update_cases is_saved id change es = elim (Option-cases (find_entry id es)) [
  | inl e ↦ inl (rw (update, e) refl)
  | inr (a, e) ↦ elim (Result-cases (change a)) [
    | inr (x, c) ↦ inl (rw (update, e, c) refl)
    | inl (b, c) ↦ elim (Bool-cases is_saved) [
      | inr s ↦ inl (rw (update, e, c, s) refl)
      | inl s ↦ inr (a, b, e, c, rw (update, e, c, s) (stored id a b es e))
    ]
  ]
]

-- What holds of the entries between any two steps.
abbrev pub Safe : ℕ → List Entry → Type 0
Safe limit es = WellFormed es × (length (active_allocations es) ≤ limit)

replace-Safe :
    (limit : ℕ) (id : AllocationId) (a b : Allocation) (es : List Entry)
    → Follows a b
    → find_entry id es ≡ some a
    → Safe limit es
    → Safe limit (replace id b es)
replace-Safe limit id a b es f h (w, few) =
    let live = replace-count id a b f (λ x. true) refl es h in
    (
      record {
        keys = replace-Unique id a b f es h w.keys;
        one_live = λ r.
            let count =
              replace-count id a b f (λ x. is_same_attempt x.request r)
                (ap (λ q. is_same_attempt q r) f.1) es h in
            omega (arith, w.one_live r);
      },
      omega (
        arith,
        length-filter-true (active_allocations es),
        length-filter-true (active_allocations (replace id b es)),
      ),
    )

step-Safe : {limit : ℕ} {es fs : List Entry} → Step limit es fs → Safe limit es → Safe limit fs
step-Safe {limit} {es} (Step.creates answers config world request options claims bound) (w, few) = (
  create-WellFormed answers config es world request options claims w,
  elim (create_cases answers config es world request options claims) [
    | inl (same, old) ↦ rw same few
    | inr (resolved, decided, auth, free, d, left, new) ↦
        let (_, _, _, _, live) =
          create-Admitted answers config es world request options claims w new in
        omega arith
  ],
)
step-Safe {limit} {es} (Step.updates is_saved id {change} c) safe =
    elim (update_cases is_saved id change es) [
      | inl same ↦ subst (Safe limit) (sym same) safe
      | inr (a, b, found, changed, after) ↦
          subst (Safe limit) (sym after)
            (replace-Safe limit id a b es (Change-Follows c a changed) found safe)
    ]

-- Over any sequence of creates and updates, an attempt of a run never has two live allocations, the
-- identifiers stay distinct, and no more allocations live than a limit that the configurations of
-- the creates stay within, if all of this held at the start.
pub Run-Safe : {limit : ℕ} {es fs : List Entry} → Run limit es fs → Safe limit es → Safe limit fs
Run-Safe Run.start safe = safe
Run-Safe (Run.next r s) safe = step-Safe s (Run-Safe r safe)
