-- ===== src/Manager/Reaper/Fresh.antt =====
-- A sweep's deletions rest on the moment of each.
use flanforge.Base.{
  ℕ, ◌≡◌, ◌≢◌, refl, ap, ◌∙◌, Bool, true, false, Bool-cases, Result-cases, inl, inr, any, some_inj,
  sym, Option, some, Text, text_eq_iff, In, List, [], ◌∷◌, Result, ok, arith, subst,
}
use flanforge.Core.Names.{VmName, new_vm_name, identifier, ProfileName}
use flanforge.Core.Hot.{HotGuest, is_holding_machine}
use flanforge.Core.Allocation.{Allocation, is_terminal}
use flanforge.Core.Config.{Profile}
use flanforge.Manager.Model.{ManagerError}
use flanforge.Manager.Reaper.{
  ReapAuthorization, by_record, by_staging, by_image, by_prefix, ReapCandidate, ReapInputs,
  plan_sweep,
}
use flanforge.Manager.Reaper.Sweep.{plan_sweep_spares}
use flanforge.Manager.Reaper.Reap.{ReapRequest, right_eq, request, is_planned, reap, is_reaped}

right_eq_sound : (a b : ReapAuthorization) → right_eq a b ≡ true → a ≡ b
right_eq_sound (by_record a) (by_record b) h = ap by_record (ground (arith, h))
right_eq_sound (by_staging p) (by_staging q) h = ap by_staging ((text_eq_iff p q).0 h)
right_eq_sound (by_image p) (by_image q) h = ap by_image ((text_eq_iff p q).0 h)
right_eq_sound by_prefix by_prefix h = refl
right_eq_sound (by_record a) (by_staging q) h = cc
right_eq_sound (by_record a) (by_image q) h = cc
right_eq_sound (by_record a) by_prefix h = cc
right_eq_sound (by_staging p) (by_record b) h = cc
right_eq_sound (by_staging p) (by_image q) h = cc
right_eq_sound (by_staging p) by_prefix h = cc
right_eq_sound (by_image p) (by_record b) h = cc
right_eq_sound (by_image p) (by_staging q) h = cc
right_eq_sound (by_image p) by_prefix h = cc
right_eq_sound by_prefix (by_record b) h = cc
right_eq_sound by_prefix (by_staging q) h = cc
right_eq_sound by_prefix (by_image q) h = cc

any-In :
    (f : ReapCandidate → Bool) (cs : List ReapCandidate)
    → any f cs ≡ true
    → (c : ReapCandidate) × In c cs × (f c ≡ true)
unfolding any
any-In f [] h = cc
any-In f (c ∷ cs) h = elim (Bool-cases (f c)) [
  | inl e ↦ (c, In.here refl, e)
  | inr e ↦ let (d, i, q) = any-In f cs (ground (arith, e, h)) in (d, In.there i, q)
]

-- No live allocation was created under the name, no pool record that holds a machine has it, and no
-- profile names it as its template, as `i` has them.
pub record IsUnclaimed (i : ReapInputs) (name : Text) : Type 0 where
  pub no_allocation :
      (a : Allocation) → In a i.allocations → is_terminal a.state ≡ false → a.vm_name ≢ name
  pub no_pool_machine :
      (g : HotGuest) → In g i.hot → is_holding_machine g.state ≡ true → g.vm_name ≢ name
  pub no_template : (e : ProfileName × Profile) → In e i.config.profiles → e.1.template ≢ name

-- The request is for a candidate that the plan on `i` holds too, by the same right.
pub record IsFresh (i : ReapInputs) (planned : List ReapCandidate) (r : ReapRequest) : Type 0 where
  pub of : ReapCandidate
  pub chosen : In of planned
  pub again : ReapCandidate
  pub fresh : In again (plan_sweep i)
  pub same_name : again.name ≡ of.name
  pub name_is : r.name ≡ of.name
  pub right_is : r.authorization ≡ of.authorization
  pub same_right : again.authorization ≡ of.authorization
  pub unclaimed : IsUnclaimed i r.name

spares-IsUnclaimed :
    (i : ReapInputs) {c : ReapCandidate} → In c (plan_sweep i) → IsUnclaimed i c.name
spares-IsUnclaimed i p =
    let (live, regenerated, pool, images) = plan_sweep_spares i p in
    record { no_allocation = live; no_pool_machine = pool; no_template = λ e j. (images e j).0 }

vm_name_same : (t : Text) {n : VmName} → new_vm_name t ≡ ok n → n ≡ t
unfolding new_vm_name identifier
vm_name_same t h = ground (arith, h)

asked-IsFresh :
    (deadline : Option ℕ) (i : ReapInputs) (c : ReapCandidate) (n : VmName) {r : ReapRequest}
    → n ≡ c.name
    → request deadline i n c.authorization ≡ r
    → is_planned i c ≡ true
    → IsFresh i (c ∷ []) r
unfolding request
asked-IsFresh deadline i c n {r} q made m =
    let (d, j, both) = any-In _ (plan_sweep i) m in
    let d_name : d.name ≡ c.name = (text_eq_iff d.name c.name).0 (ground (arith, both)) in
    let r_name : r.name ≡ c.name = ap (λ (x : ReapRequest). x.name) (sym made) ∙ q in
    record {
      of = c;
      chosen = In.here refl;
      again = d;
      fresh = j;
      same_name = d_name;
      name_is = r_name;
      right_is = ap (λ (x : ReapRequest). x.authorization) (sym made);
      same_right = right_eq_sound d.authorization c.authorization (ground (arith, both));
      unclaimed = subst (IsUnclaimed i) (d_name ∙ sym r_name) (spares-IsUnclaimed i j);
    }

module _ (deadline : Option ℕ) (delete_vm : ReapRequest → Result (Unit {0}) ManagerError) where
  pub reap-IsFresh :
      (reads : Result ReapInputs ManagerError) (c : ReapCandidate) {r : ReapRequest}
      → (reap deadline reads delete_vm c).0 ≡ some r
      → (i : ReapInputs) × (reads ≡ ok i) × IsFresh i (c ∷ []) r
  unfolding reap
  reap-IsFresh reads c {r} h = elim (Result-cases (new_vm_name c.name)) [
    | inr (e, q) ↦ ground (arith, h, q)
    | inl (n, q) ↦ elim (Result-cases reads) [
      | inr (e, p) ↦ ground (arith, h, q, p)
      | inl (i, p) ↦ elim (Bool-cases (is_planned i c)) [
        | inr m ↦ ground (arith, h, q, p, m)
        | inl m ↦
            let made : some (request deadline i n c.authorization) ≡ some r =
              ground (arith, h, q, p, m) in
            (i, p, asked-IsFresh deadline i c n (vm_name_same c.name q) (some_inj made) m)
      ]
    ]
  ]

  pub reap-answered :
      (reads : Result ReapInputs ManagerError) (c : ReapCandidate)
      → is_reaped (reap deadline reads delete_vm c).1 ≡ true
      → (r : ReapRequest) × ((reap deadline reads delete_vm c).0 ≡ some r) × (delete_vm r ≡ ok tt)
  unfolding reap
  reap-answered reads c h = elim (Result-cases (new_vm_name c.name)) [
    | inr (e, q) ↦ ground (arith, h, q)
    | inl (n, q) ↦ elim (Result-cases reads) [
      | inr (e, p) ↦ ground (arith, h, q, p)
      | inl (i, p) ↦ elim (Bool-cases (is_planned i c)) [
        | inr m ↦ ground (arith, h, q, p, m)
        | inl m ↦
            let r = request deadline i n c.authorization in
            elim (Result-cases (delete_vm r)) [
              | inr (e, d) ↦ ground (arith, h, q, p, m, d)
              | inl (tt, d) ↦ (r, ground (arith, q, p, m), d)
            ]
      ]
    ]
  ]
