-- ===== src/Manager/Recovery/Start.antt =====
-- The allocations' part of a start, from the durable records to the resident entries.
use flanforge.Base.{
  ℕ, ◌≡◌, ◌≢◌, refl, sym, ap, ◌∙◌, false, not, Bool, ◌==◌, arith, ok, is_some, List, [], ◌∷◌,
  Option, none, some, Bool-cases, subst, inl, inr, In, In-cons, not-In_nil, In-filter, filter-In,
  filter,
}
use flanforge.Core.Source.{AllocationId}
use flanforge.Core.Allocation.{Allocation, AllocationState, is_terminal}
use flanforge.Core.Config.{Config}
use flanforge.Manager.Model.{Entry}
use flanforge.Manager.Entries.{find_entry}
use flanforge.Manager.Entries.Sort.{Fresh, Unique, Fresh-filter, Unique-filter}
use flanforge.Manager.Entries.Prune.{Fresh-In}
use flanforge.Manager.Teardown.{Answers}
use flanforge.Manager.Recovery.Ends.{HasEnded, HasEnded-kept, Good, all-IsKept, all-End}
use flanforge.Manager.Recovery.{
  recovered_entry, ensure_entries_loaded, Recovered, recover_all, interrupted, recover,
}

none_found : (j : AllocationId) → find_entry j [] ≡ none
unfolding find_entry
none_found j = refl

find-own : (a : Allocation) (es : List Entry) → find_entry a.id (recovered_entry a ∷ es) ≡ some a
unfolding find_entry
find-own a es = ground arith

find-past :
    (a : Allocation) (j : AllocationId) (es : List Entry)
    → a.id ≢ j
    → find_entry j (recovered_entry a ∷ es) ≡ find_entry j es
unfolding find_entry
find-past a j es n = ground arith

-- A later record does not hide an earlier one.
find-later :
    (a : Allocation) (j : AllocationId) (es : List Entry) {x : Allocation}
    → find_entry a.id es ≡ none
    → find_entry j es ≡ some x
    → find_entry j (recovered_entry a ∷ es) ≡ some x
find-later a j es f h = elim (Bool-cases (a.id == j)) [
  | inl e ↦ absurd (hidden (ground arith))
  | inr e ↦ find-past a j es (ground arith) ∙ h
]
  where
    hidden : a.id ≡ j → ⊥
    hidden q = ground (arith, f, h, ap (λ (i : AllocationId). find_entry i es) q)

-- The load of records with distinct identifiers succeeds, and each is found as it was.
loaded :
    (l : List Allocation) (es : List Entry)
    → Unique l
    → ((a : Allocation) → In a l → find_entry a.id es ≡ none)
    → ((ensure_entries_loaded l es).0 ≡ ok tt)
      × ((j : AllocationId) (x : Allocation)
          → find_entry j es ≡ some x
          → find_entry j (ensure_entries_loaded l es).1 ≡ some x)
      × ((a : Allocation) → In a l → find_entry a.id (ensure_entries_loaded l es).1 ≡ some a)
unfolding ensure_entries_loaded
loaded [] es u f = (refl, λ j x h. h, λ a i. absurd (not-In_nil a i))
loaded (a ∷ l) es (fresh, u) f =
    let free = f a (In.here refl) in
    let more = recovered_entry a ∷ es in
    let (fine, kept, found) =
      loaded l more u
        (λ b i. find-past a b.id es (λ q. Fresh-In a.id l fresh i (sym q)) ∙ f b (In.there i)) in
    let opened : is_some (find_entry a.id es) ≡ false = ap is_some free in
    rw opened (
      fine,
      λ j x h. kept j x (find-later a j es free h),
      λ b i. elim (In-cons i) [
        | inl same ↦
            subst (λ (y : Allocation). find_entry y.id (ensure_entries_loaded l more).1 ≡ some y)
              same (kept a.id a (find-own a es))
        | inr j ↦ found b j
      ],
    )

-- A record that the filter drops shares its identifier with none that it keeps.
Fresh-dropped :
    (p : Allocation → Bool) (l : List Allocation) {a : Allocation}
    → Unique l
    → In a l
    → p a ≡ false
    → Fresh a.id (filter p l)
unfolding filter
Fresh-dropped p [] u i e = tt
Fresh-dropped p (x ∷ l) {a} (fresh, u) i e = elim (In-cons i) [
  | inl same ↦
      rw (ap p same ∙ e)
        (subst (λ (y : Allocation). Fresh y.id (filter p l)) same (Fresh-filter p x.id l fresh))
  | inr j ↦ elim (Bool-cases (p x)) [
    | inl k ↦ rw k (λ q. Fresh-In x.id l fresh j (sym q), Fresh-dropped p l u j e)
    | inr k ↦ rw k (Fresh-dropped p l u j e)
  ]
]

-- A start on durable records with distinct identifiers loads them all and leaves none unreconciled,
-- and every one of them has ended by then, if the two saves that follow each cleanup succeed and
-- the other tasks keep the records or end them with a state of `E`. No cleanup needs to succeed, and
-- no profile to be configured still.
pub recover-Ends :
    (E : AllocationState → Type 0) (answers : AllocationId → Answers) (now : ℕ)
    (deadline : Option ℕ) (config : Config) (allocations : List Allocation)
    → Good E answers
    → Unique allocations
    → (r : Recovered) × (recover answers now deadline config allocations ≡ ok r)
      × (r.unreconciled ≡ 0)
      × ((a : Allocation) → In a allocations → HasEnded a.id r.entries)
unfolding recover
recover-Ends E answers now deadline config allocations good u =
    let (fine, kept, found) = loaded allocations [] u (λ a i. none_found a.id) in
    let entries = (ensure_entries_loaded allocations []).1 in
    let going = λ (a : Allocation). not (is_terminal a.state) in
    let start : Recovered = record { entries = entries; leaked = []; unreconciled = 0 } in
    let (count, ended) =
      all-End E answers now deadline config (interrupted allocations) start good
        (Unique-filter going allocations u)
        (λ a i.
          let (j, live) = In-filter going allocations i in
          (a, found a j, inl (ground (arith, live)))) in
    (
      recover_all answers now deadline config (interrupted allocations) start,
      rw (recover, fine) refl,
      count,
      λ a i. elim (Bool-cases (is_terminal a.state)) [
        | inr e ↦ ended a (filter-In going allocations i (ground (arith, e)))
        | inl e ↦
            HasEnded-kept E a.id entries _
              (all-IsKept E a.id answers now deadline config (interrupted allocations) start good
                (Fresh-dropped going allocations u i (ground (arith, e))))
              (a, found a i, e)
      ],
    )
