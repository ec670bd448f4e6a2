-- ===== src/Manager/Reaper/Deletions.antt =====
-- The loop over a sweep's plan: what it asks of the backend and what it reports.
use flanforge.Base.{
  ℕ, suc, ◌+◌, ◌≡◌, refl, ap, ◌∙◌, Bool, true, false, Bool-cases, ◌⊎◌, inl, inr, if◌then◌else◌, sym,
  Option, none, some, Text, In, In-cons, not-In_nil, List, [], ◌∷◌, length, Result, ok, arith,
  subst,
}
use flanforge.Manager.Model.{ManagerError}
use flanforge.Manager.Reaper.{ReapCandidate, ReapInputs}
use flanforge.Manager.Reaper.Reap.{ReapRequest, reap, reap_all, sweep_deletions, is_reaped, noted}
use flanforge.Manager.Reaper.Fresh.{IsFresh, reap-IsFresh, reap-answered}

-- What the loop notes of one deletion.
In-noted :
    (k : ℕ) (asked : Option ReapRequest) (rs : List (ℕ × ReapRequest)) {j : ℕ} {r : ReapRequest}
    → In (j, r) (noted k asked rs)
    → ((asked ≡ some r) × (k ≡ j)) ⊎ In (j, r) rs
In-noted k none rs i = inr i
In-noted k (some q) rs i = elim (In-cons i) [
  | inl e ↦ inl (ap (λ (x : ℕ × ReapRequest). some x.1) e, ap (λ (x : ℕ × ReapRequest). x.0) e)
  | inr h ↦ inr h
]

noted-In :
    (k : ℕ) (asked : Option ReapRequest) (rs : List (ℕ × ReapRequest)) {x : ℕ × ReapRequest}
    → In x rs
    → In x (noted k asked rs)
noted-In k none rs i = i
noted-In k (some q) rs i = In.there i

noted-asked :
    (k : ℕ) {asked : Option ReapRequest} (rs : List (ℕ × ReapRequest)) {r : ReapRequest}
    → asked ≡ some r
    → In (k, r) (noted k asked rs)
noted-asked k rs {r} e = rw e (In.here refl)

wider :
    {i : ReapInputs} {cs ds : List ReapCandidate} {r : ReapRequest}
    → ((c : ReapCandidate) → In c cs → In c ds)
    → IsFresh i cs r
    → IsFresh i ds r
wider more f = record {
  of = f.of;
  chosen = more f.of f.chosen;
  again = f.again;
  fresh = f.fresh;
  same_name = f.same_name;
  name_is = f.name_is;
  right_is = f.right_is;
  same_right = f.same_right;
  unclaimed = f.unclaimed;
}

only : {c d : ReapCandidate} → In d (c ∷ []) → c ≡ d
only i = elim (In-cons i) [ inl e ↦ e | inr j ↦ absurd (not-In_nil _ j) ]

module _ (deadline : Option ℕ) (delete_vm : ReapRequest → Result (Unit {0}) ManagerError) where
  -- Of the loop that starts with the read `k`, which is over the end `cs` of the plan.
  all-IsFresh :
      (reads : ℕ → Result ReapInputs ManagerError) (k : ℕ) (cs : List ReapCandidate) (j : ℕ)
      (r : ReapRequest)
      → In (j, r) (reap_all deadline reads delete_vm k cs).requests
      → (i : ReapInputs) × (reads j ≡ ok i) × IsFresh i cs r
  unfolding reap_all
  all-IsFresh reads k [] j r i = absurd (not-In_nil _ i)
  all-IsFresh reads k (c ∷ cs) j r i =
      elim (In-noted k (reap deadline (reads k) delete_vm c).0 _ i) [
        | inl (q, at) ↦
            let (now, p, f) = reap-IsFresh deadline delete_vm (reads k) c q in
            (now, subst (λ (x : ℕ). reads x ≡ ok now) at p, wider (λ d m. In.here (only m)) f)
        | inr h ↦
            let (now, p, f) = all-IsFresh reads (suc k) cs j r h in
            (now, p, wider (λ d m. In.there m) f)
      ]

  all-length :
      (reads : ℕ → Result ReapInputs ManagerError) (k : ℕ) (cs : List ReapCandidate)
      → let s = reap_all deadline reads delete_vm k cs in
        length s.deleted + length s.skipped ≡ length cs
  unfolding reap_all
  all-length reads k [] = refl
  all-length reads k (c ∷ cs) = ground (arith, all-length reads (suc k) cs)

  all-answered :
      (reads : ℕ → Result ReapInputs ManagerError) (k : ℕ) (cs : List ReapCandidate) (n : Text)
      → In n (reap_all deadline reads delete_vm k cs).deleted
      → (j : ℕ) × (r : ReapRequest) × In (j, r) (reap_all deadline reads delete_vm k cs).requests
        × (r.name ≡ n)
        × (delete_vm r ≡ ok tt)
  unfolding reap_all
  all-answered reads k [] n i = absurd (not-In_nil _ i)
  all-answered reads k (c ∷ cs) n i =
      let asked = (reap deadline (reads k) delete_vm c).0 in
      let rest = reap_all deadline reads delete_vm (suc k) cs in
      elim (Bool-cases (is_reaped (reap deadline (reads k) delete_vm c).1)) [
        | inl e ↦ elim (In-cons (dropped e)) [
          | inl q ↦
              let (r, sent, d) = reap-answered deadline delete_vm (reads k) c e in
              let (now, p, f) = reap-IsFresh deadline delete_vm (reads k) c sent in
              (
                k,
                r,
                noted-asked k rest.requests sent,
                f.name_is ∙ ap (λ (x : ReapCandidate). x.name) (sym (only f.chosen)) ∙ q,
                d,
              )
          | inr h ↦
              let (j, r, m, same, d) = all-answered reads (suc k) cs n h in
              (j, r, noted-In k asked rest.requests m, same, d)
        ]
        | inr e ↦
            let (j, r, m, same, d) = all-answered reads (suc k) cs n (skips e) in
            (j, r, noted-In k asked rest.requests m, same, d)
      ]
    where
      noted_names :
          (b : Bool)
          → is_reaped (reap deadline (reads k) delete_vm c).1 ≡ b
          → (reap_all deadline reads delete_vm k (c ∷ cs)).deleted ≡ (
              if b
              then c.name ∷ (reap_all deadline reads delete_vm (suc k) cs).deleted
              else (reap_all deadline reads delete_vm (suc k) cs).deleted)
      noted_names b e = ground (arith, e)

      dropped :
          is_reaped (reap deadline (reads k) delete_vm c).1 ≡ true
          → In n (c.name ∷ (reap_all deadline reads delete_vm (suc k) cs).deleted)
      dropped e = subst (In n) (noted_names true e) i

      skips :
          is_reaped (reap deadline (reads k) delete_vm c).1 ≡ false
          → In n (reap_all deadline reads delete_vm (suc k) cs).deleted
      skips e = subst (In n) (noted_names false e) i

-- A sweep asks the backend only for candidates of its plan, each of which a plan on what the stores
-- and the host then say holds too, by the same right: in what was read at that moment no live
-- allocation was created under the name, no pool record that holds a machine has it, and no profile
-- names it as its template. A name that it reports as deleted is that of a request that the backend
-- granted, it reports as many names, deleted or skipped, as the plan has candidates, and a dry run
-- asks for nothing.
pub sweep_deletions-IsFresh :
    (is_dry_run : Bool) (deadline : Option ℕ) (reads : ℕ → Result ReapInputs ManagerError)
    (delete_vm : ReapRequest → Result (Unit {0}) ManagerError) (planned : List ReapCandidate)
    → let s = sweep_deletions is_dry_run deadline reads delete_vm planned in
      ((j : ℕ) (r : ReapRequest)
        → In (j, r) s.requests
        → (i : ReapInputs) × (reads j ≡ ok i) × IsFresh i planned r)
      × ((n : Text)
          → In n s.deleted
          → (j : ℕ) × (r : ReapRequest) × In (j, r) s.requests
            × (r.name ≡ n)
            × (delete_vm r ≡ ok tt))
      × (length s.deleted + length s.skipped ≡ (if is_dry_run then 0 else length planned))
      × (is_dry_run ≡ true → s.requests ≡ [])
unfolding sweep_deletions
sweep_deletions-IsFresh true deadline reads delete_vm planned =
    (λ j r i. absurd (not-In_nil _ i), λ n i. absurd (not-In_nil _ i), refl, λ e. refl)
sweep_deletions-IsFresh false deadline reads delete_vm planned = (
  all-IsFresh deadline delete_vm reads 0 planned,
  all-answered deadline delete_vm reads 0 planned,
  all-length deadline delete_vm reads 0 planned,
  λ e. cc,
)
