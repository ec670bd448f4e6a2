-- ===== src/Manager/Recovery/Ends.antt =====
-- A start ends every interrupted allocation.
use flanforge.Base.{
  ℕ, ◌≡◌, ◌≢◌, refl, sym, ap, ◌∙◌, true, false, ok, is_ok, List, [], ◌∷◌, Option, some, subst, inl,
  inr, In, In-cons, not-In_nil,
}
use flanforge.Core.Source.{AllocationId}
use flanforge.Core.Allocation.{Allocation, AllocationState, is_terminal, set_error}
use flanforge.Core.Config.{Config}
use flanforge.Manager.Model.{Entry}
use flanforge.Manager.Entries.{find_entry, with_error}
use flanforge.Manager.Entries.Sort.{Fresh, Unique}
use flanforge.Manager.Entries.Prune.{Fresh-In}
use flanforge.Manager.Teardown.{Answers, AllocationLeak}
use flanforge.Manager.Teardown.Keeps.{KeepsOrEnds, IsLive, Found, update-Found, find-id}
use flanforge.Manager.Teardown.Terminal.{ensure_terminal-Ends}
use flanforge.Manager.Recovery.Kept.{
  IsKept, IsKept-refl, IsKept-trans, with_error-KeepsId, update-IsKept,
}
use flanforge.Manager.Recovery.Frames.{ensure_terminal-IsKept}
use flanforge.Manager.Recovery.{restarted, recover_allocation, Recovered, recover_one, recover_all}

-- The record of `id` is there and ended.
abbrev pub HasEnded : AllocationId → List Entry → Type 0
HasEnded id es = (c : Allocation) × (find_entry id es ≡ some c) × (is_terminal c.state ≡ true)

with_error-state : (now : ℕ) (x : Allocation) → (with_error now false restarted x).state ≡ x.state
unfolding with_error set_error
with_error-state now x = refl

failed_ends : is_terminal AllocationState.failed ≡ true
unfolding is_terminal
failed_ends = refl

module _ (E : AllocationState → Type 0) where
  Found-kept :
      (j : AllocationId) (es es' : List Entry) → IsKept j E es es' → Found j E es → Found j E es'
  Found-kept j es es' k (a, h, live) =
      let (b, found, how) = k a h in
      elim how [ inl q ↦ (b, found, subst (IsLive j E) (sym q) live) | inr e ↦ (b, found, inr e) ]

  pub HasEnded-kept :
      (j : AllocationId) (es es' : List Entry) → IsKept j E es es' → HasEnded j es → HasEnded j es'
  HasEnded-kept j es es' k (a, h, t) =
      let (b, found, how) = k a h in
      elim how [
        | inl q ↦ (b, found, ap (λ (x : Allocation). is_terminal x.state) q ∙ t)
        | inr e ↦ (b, found, e.0)
      ]

  -- One allocation's recovery: it reports success, and its record has ended.
  recovered-Ends :
      (w : Answers) (now : ℕ) (deadline : Option ℕ) (config : Config) (a : Allocation)
      (es : List Entry) (leaked : List AllocationLeak)
      → w.is_saved 2 ≡ true
      → w.is_saved 3 ≡ true
      → ((i : ℕ) → KeepsOrEnds a.id E (w.meanwhile i))
      → Found a.id E es
      → let r = recover_allocation w now deadline config a es leaked in
        (is_ok r.result ≡ true) × HasEnded a.id r.entries
  unfolding recover_allocation
  recovered-Ends w now deadline config a es leaked s2 s3 k (x, h, live) =
      let blamed =
        update-Found a.id E (w.is_saved 7) (w.meanwhile 7)
          (λ b. ok (with_error now false restarted b)) es (k 7) h live refl
          (with_error-KeepsId now false restarted x _ refl ∙ find-id a.id es h)
          (blamed-IsLive now x live) in
      let (s, c, done, ends, which, found, same) =
        ensure_terminal-Ends E w now _ a AllocationState.failed _ leaked s2 s3 k failed_ends
          blamed in
      (ap is_ok done, (c, found, ap is_terminal same ∙ ends))
    where
      blamed-IsLive :
          (now : ℕ) (x : Allocation)
          → IsLive a.id E x
          → IsLive a.id E (with_error now false restarted x)
      blamed-IsLive now x (inl n) = inl (ap is_terminal (with_error-state now x) ∙ n)
      blamed-IsLive now x (inr (t, e)) =
          inr
            (ap is_terminal (with_error-state now x) ∙ t, subst E (sym (with_error-state now x)) e)

  recovered-IsKept :
      (j : AllocationId) (w : Answers) (now : ℕ) (deadline : Option ℕ) (config : Config)
      (a : Allocation) (es : List Entry) (leaked : List AllocationLeak)
      → j ≢ a.id
      → ((i : ℕ) → KeepsOrEnds j E (w.meanwhile i))
      → IsKept j E es (recover_allocation w now deadline config a es leaked).entries
  unfolding recover_allocation
  recovered-IsKept j w now deadline config a es leaked n k =
      IsKept-trans j E es _ _
        (update-IsKept a.id j n E (w.is_saved 7) (w.meanwhile 7)
          (λ b. ok (with_error now false restarted b)) es (k 7)
          (λ x y h. with_error-KeepsId now false restarted x y h))
        (ensure_terminal-IsKept j E w now _ a AllocationState.failed _ leaked n k)

  -- The pass over a list of records with distinct identifiers.
  abbrev pub Good : (AllocationId → Answers) → Type 0
  Good answers =
      (i : AllocationId)
      → ((answers i).is_saved 2 ≡ true)
        × ((answers i).is_saved 3 ≡ true)
        × ((j : AllocationId) (k : ℕ) → KeepsOrEnds j E ((answers i).meanwhile k))

  pub all-IsKept :
      (j : AllocationId) (answers : AllocationId → Answers) (now : ℕ) (deadline : Option ℕ)
      (config : Config) (xs : List Allocation) (r : Recovered)
      → Good answers
      → Fresh j xs
      → IsKept j E r.entries (recover_all answers now deadline config xs r).entries
  unfolding recover_all recover_one
  all-IsKept j answers now deadline config [] r good f = IsKept-refl j E r.entries
  all-IsKept j answers now deadline config (a ∷ xs) r good (n, f) =
      IsKept-trans j E r.entries _ _
        (recovered-IsKept j (answers a.id) now deadline config a r.entries r.leaked (λ q. n (sym q))
          ((good a.id).2 j))
        (all-IsKept j answers now deadline config xs
          (recover_one (answers a.id) now deadline config a r) good f)

  pub all-End :
      (answers : AllocationId → Answers) (now : ℕ) (deadline : Option ℕ) (config : Config)
      (xs : List Allocation) (r : Recovered)
      → Good answers
      → Unique xs
      → ((a : Allocation) → In a xs → Found a.id E r.entries)
      → ((recover_all answers now deadline config xs r).unreconciled ≡ r.unreconciled)
        × ((a : Allocation)
            → In a xs
            → HasEnded a.id (recover_all answers now deadline config xs r).entries)
  unfolding recover_all recover_one
  all-End answers now deadline config [] r good u f = (refl, λ a i. absurd (not-In_nil a i))
  all-End answers now deadline config (a ∷ xs) r good (fresh, u) f =
      let w = answers a.id in
      let (s2, s3, k) = good a.id in
      let (fine, ended) =
        recovered-Ends w now deadline config a r.entries r.leaked s2 s3 (k a.id)
          (f a (In.here refl)) in
      let r' = recover_one w now deadline config a r in
      let f' : (b : Allocation) → In b xs → Found b.id E r'.entries = λ b i.
        Found-kept b.id r.entries r'.entries
          (recovered-IsKept b.id w now deadline config a r.entries r.leaked
            (Fresh-In a.id xs fresh i) (k b.id))
          (f b (In.there i)) in
      let (count, rest) = all-End answers now deadline config xs r' good u f' in
      (
        count ∙ counted w a r fine,
        λ b i. elim (In-cons i) [
          | inl same ↦
              subst
                (λ (x : Allocation).
                  HasEnded x.id (recover_all answers now deadline config xs r').entries)
                same
                (HasEnded-kept a.id r'.entries _
                  (all-IsKept a.id answers now deadline config xs r' good fresh) ended)
          | inr j ↦ rest b j
        ],
      )
    where
      counted :
          (w : Answers) (a : Allocation) (r : Recovered)
          → is_ok (recover_allocation w now deadline config a r.entries r.leaked).result ≡ true
          → (recover_one w now deadline config a r).unreconciled ≡ r.unreconciled
      counted w a r fine = rw fine refl
