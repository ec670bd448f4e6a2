-- ===== src/Manager/Admission/Producers.antt =====
-- `ensure_sole_producer` of admission/capacity.rs: the live regenerations of a profile.
use flanforge.Base.{
  ◌≡◌, refl, ◌≤◌, inl, inr, true, none, text_eq_iff, List, [], ◌∷◌, length, filter, find, ok, arith,
  Bool-cases, Option-cases,
}
use flanforge.Core.Names.{ProfileName}
use flanforge.Core.Source.{AllocationMode}
use flanforge.Core.Allocation.{Allocation, is_regenerate}
use flanforge.Manager.Model.{Entry, allocations}
use flanforge.Manager.Admission.{produces, ensure_sole_producer}

-- The live regenerations of a profile.
abbrev pub producers : ProfileName → List Entry → List Allocation
producers profile entries = filter (produces profile) (allocations entries)

no_producers :
    (p : ProfileName) (xs : List Allocation)
    → find (produces p) xs ≡ none
    → filter (produces p) xs ≡ []
unfolding find filter
no_producers p [] h = refl
no_producers p (a ∷ xs) h = elim (Bool-cases (produces p a)) [
  | inl e ↦ absurd (ground arith)
  | inr e ↦ rw e (no_producers p xs (rw e at h))
]

admitted :
    (es : List Entry) (p : ProfileName) (m : AllocationMode)
    → ensure_sole_producer es p m ≡ ok tt
    → is_regenerate m ≡ true
    → find (produces p) (allocations es) ≡ none
unfolding ensure_sole_producer
admitted es p m h r = elim (Option-cases (find (produces p) (allocations es))) [
  | inl e ↦ e
  | inr (a, e) ↦ absurd (ground arith)
]

-- An entry that the producer test admitted keeps every profile at one live regeneration at most.
pub sole_producer_kept :
    (es : List Entry) (e : Entry)
    → ensure_sole_producer es e.allocation.request.profile e.allocation.mode ≡ ok tt
    → ((q : ProfileName) → length (producers q es) ≤ 1)
    → (q : ProfileName) → length (producers q (e ∷ es)) ≤ 1
unfolding filter
sole_producer_kept es e h before q = elim (Bool-cases (produces q e.allocation)) [
  | inr other ↦ rw other (before q)
  | inl hit ↦
      let same : e.allocation.request.profile ≡ q =
        (text_eq_iff e.allocation.request.profile q).0 (ground arith) in
      let found = admitted es e.allocation.request.profile e.allocation.mode h (ground arith) in
      let empty : producers q es ≡ [] = no_producers q (allocations es) (rw same at found) in
      rw (hit, empty) (omega arith)
]
