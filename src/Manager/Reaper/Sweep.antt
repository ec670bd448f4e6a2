-- ===== src/Manager/Reaper/Sweep.antt =====
-- Which machines a sweep spares and which it takes.
use flanforge.Base.{
  ◌≡◌, refl, ◌≢◌, ◌≤◌, inl, inr, true, false, not, Option, some, Text, text_eq, text_eq_iff, List,
  [], ◌∷◌, ◌++◌, In, filter, filter_map, map, contains, arith, Bool-cases, Option-cases, In-filter,
  filter-In, In-cons, some_inj, ltb, ◌∙◌, ap, subst, not-In_nil,
}
use flanforge.Core.Names.{ProfileName, VmName}
use flanforge.Core.Hot.{HotGuest, is_holding_machine}
use flanforge.Core.Allocation.{Allocation, is_terminal, is_regenerate}
use flanforge.Core.Config.{Profile, get_profile}
use flanforge.Manager.Model.{HostMachine}
use flanforge.Manager.Reaper.{
  ReapCandidate, ReapInputs, candidate, plan_sweep, protected_names, protected_by, protected_by_all,
  reserved_image_names, reserved_of, derived_names, authorization_of, min_age_seconds,
}

contains-append :
    (xs ys : List Text) (n : Text)
    → contains (xs ++ ys) n ≡ false
    → (contains xs n ≡ false) × (contains ys n ≡ false)
unfolding contains
contains-append [] ys n h = (refl, h)
contains-append (x ∷ xs) ys n h = ground (arith, contains-append xs ys n)

contains-In : {x n : Text} (xs : List Text) → In x xs → contains xs n ≡ false → x ≢ n
unfolding contains
contains-In xs (In.here {b} {xs = ys} same) h e =
    let hit : text_eq b _ ≡ true = (text_eq_iff b _).1 (same ∙ e) in absurd (ground arith)
contains-In xs (In.there {b} {xs = ys} i) h e = contains-In ys i (ground arith) e

In-map :
    {x : HotGuest} (xs : List HotGuest)
    → In x xs
    → In x.vm_name (map (λ (g : HotGuest). g.vm_name) xs)
In-map xs (In.here same) = In.here (ap (λ (g : HotGuest). g.vm_name) same)
In-map xs (In.there {xs = ys} i) = In.there (In-map ys i)

In-filter_map :
    (f : HostMachine → Option ReapCandidate) (xs : List HostMachine) {c : ReapCandidate}
    → In c (filter_map f xs)
    → (m : HostMachine) × In m xs × (f m ≡ some c)
unfolding filter_map
In-filter_map f [] i = absurd (not-In_nil _ i)
In-filter_map f (x ∷ xs) i = elim (Option-cases (f x)) [
  | inl e ↦ let (m, j, q) = In-filter_map f xs (rw (filter_map, e) at i) in (m, In.there j, q)
  | inr (y, e) ↦ elim (In-cons (rw (filter_map, e) at i)) [
    | inl same ↦ (x, In.here refl, e ∙ ap some same)
    | inr j ↦ let (m, k, q) = In-filter_map f xs j in (m, In.there k, q)
  ]
]

filter_map-In :
    (f : HostMachine → Option ReapCandidate) (xs : List HostMachine) {c : ReapCandidate}
    {m : HostMachine}
    → In m xs
    → f m ≡ some c
    → In c (filter_map f xs)
unfolding filter_map
filter_map-In f [] i e = elim i [ ]
filter_map-In f (x ∷ xs) (In.here same) e = rw (filter_map, ap f same ∙ e) (In.here refl)
filter_map-In f (x ∷ xs) (In.there i) e = elim (Option-cases (f x)) [
  | inl q ↦ rw (filter_map, q) (filter_map-In f xs i e)
  | inr (y, q) ↦ rw (filter_map, q) (In.there (filter_map-In f xs i e))
]

-- What the candidate keeps of its machine, and where its right comes from.
candidate-facts :
    (inputs : ReapInputs) (m : HostMachine) {c : ReapCandidate}
    → candidate inputs m ≡ some c
    → (m.name ≡ c.name)
      × (m.age_seconds ≡ some c.age_seconds)
      × (min_age_seconds ≤ c.age_seconds)
      × (authorization_of inputs c.name c.age_seconds ≡ some c.authorization)
unfolding candidate
candidate-facts inputs m {c} h = elim (Option-cases m.age_seconds) [
  | inl e ↦ absurd (ground arith)
  | inr (age, e) ↦ elim (Bool-cases (ltb age min_age_seconds)) [
    | inl young ↦ absurd (ground arith)
    | inr old ↦ elim (Option-cases (authorization_of inputs m.name age)) [
      | inl none_given ↦ absurd (ground arith)
      | inr (right, given) ↦
          let made = some_inj (rw (e, old, given) at h) in
          (
            ap (λ (d : ReapCandidate). d.name) made,
            e ∙ ap (λ (d : ReapCandidate). some d.age_seconds) made,
            subst (λ (d : ReapCandidate). min_age_seconds ≤ d.age_seconds) made (ground arith),
            subst
                (λ (d : ReapCandidate).
                  authorization_of inputs d.name d.age_seconds ≡ some d.authorization)
                made given,
          )
    ]
  ]
]

pub swept :
    (inputs : ReapInputs) {c : ReapCandidate}
    → In c (plan_sweep inputs)
    → (m : HostMachine) × In m inputs.machines
      × (contains (protected_names inputs) c.name ≡ false)
      × (m.name ≡ c.name)
      × (m.age_seconds ≡ some c.age_seconds)
      × (min_age_seconds ≤ c.age_seconds)
      × (authorization_of inputs c.name c.age_seconds ≡ some c.authorization)
unfolding plan_sweep
swept inputs {c} i =
    let protected = protected_names inputs in
    let (m, kept, made) =
      In-filter_map (candidate inputs)
        (filter (λ (m : HostMachine). not (contains protected m.name)) inputs.machines) i in
    let (listed, free) =
      In-filter (λ (m : HostMachine). not (contains protected m.name)) inputs.machines kept in
    let (name, age, old, right) = candidate-facts inputs m made in
    (m, listed, rw (← name) (ground arith), name, age, old, right)

protected_by_all-In :
    {a : Allocation} (inputs : ReapInputs) (xs : List Allocation) (n : Text)
    → In a xs
    → contains (protected_by_all inputs.config xs) n ≡ false
    → contains (protected_by inputs.config a) n ≡ false
unfolding protected_by_all
protected_by_all-In inputs xs n (In.here {b} {xs = ys} same) h =
    subst (λ a. contains (protected_by inputs.config a) n ≡ false) same
      (contains-append (protected_by inputs.config b) (protected_by_all inputs.config ys) n h).0
protected_by_all-In inputs xs n (In.there {b} {xs = ys} i) h =
    protected_by_all-In inputs ys n i
      (contains-append (protected_by inputs.config b) (protected_by_all inputs.config ys) n h).1

reserved-In :
    {entry : ProfileName × Profile} (xs : List (ProfileName × Profile)) (n : Text)
    → In entry xs
    → contains (reserved_image_names xs) n ≡ false
    → contains (reserved_of entry.1) n ≡ false
unfolding reserved_image_names
reserved-In xs n (In.here {b} {xs = ys} same) h =
    subst (λ (e : ProfileName × Profile). contains (reserved_of e.1) n ≡ false) same
      (contains-append (reserved_of b.1) (reserved_image_names ys) n h).0
reserved-In xs n (In.there {b} {xs = ys} i) h =
    reserved-In ys n i (contains-append (reserved_of b.1) (reserved_image_names ys) n h).1

protected_by-live :
    (inputs : ReapInputs) (a : Allocation) (n : Text)
    → is_terminal a.state ≡ false
    → contains (protected_by inputs.config a) n ≡ false
    → a.vm_name ≢ n
unfolding protected_by
protected_by-live inputs a n live h e = contains-In _ (In.here refl) (rw live at h) e

protected_by-derived :
    (inputs : ReapInputs) (a : Allocation) (n : Text)
    → is_terminal a.state ≡ false
    → is_regenerate a.mode ≡ true
    → contains (protected_by inputs.config a) n ≡ false
    → {p : Profile} {warm : VmName} {image : Text}
    → get_profile a.request.profile inputs.config.profiles ≡ some p
    → p.warm_template ≡ some warm
    → In image (derived_names warm)
    → image ≢ n
unfolding protected_by
protected_by-derived inputs a n live regenerates h found named i =
    contains-In _ (In.there i) (rw (live, regenerates, found, named) at h)

reserved_of-template :
    (p : Profile) (n : Text)
    → contains (reserved_of p) n ≡ false
    → (p.template ≢ n) × ((warm : VmName) → p.warm_template ≡ some warm → warm ≢ n)
unfolding reserved_of
reserved_of-template p n h =
    (contains-In _ (In.here refl) h, λ warm e. contains-In _ (In.there (In.here refl)) (rw e at h))

-- A plan never has the machine name that a live allocation was created under, the image names that
-- derive from the warm template of a profile which a live allocation regenerates, the machine of a
-- pool record among those that were read that holds one, or a template that a profile names.
pub plan_sweep_spares :
    (inputs : ReapInputs) {c : ReapCandidate}
    → In c (plan_sweep inputs)
    → ((a : Allocation)
        → In a inputs.allocations
        → is_terminal a.state ≡ false
        → a.vm_name ≢ c.name)
      × ((a : Allocation) (p : Profile) (warm : VmName) (image : Text)
          → In a inputs.allocations
          → is_terminal a.state ≡ false
          → is_regenerate a.mode ≡ true
          → get_profile a.request.profile inputs.config.profiles ≡ some p
          → p.warm_template ≡ some warm
          → In image (derived_names warm)
          → image ≢ c.name)
      × ((g : HotGuest) → In g inputs.hot → is_holding_machine g.state ≡ true → g.vm_name ≢ c.name)
      × ((entry : ProfileName × Profile)
          → In entry inputs.config.profiles
          → (entry.1.template ≢ c.name)
            × ((warm : VmName) → entry.1.warm_template ≡ some warm → warm ≢ c.name))
unfolding protected_names
plan_sweep_spares inputs {c} i =
    let (_, _, free, _, _, _, _) = swept inputs i in
    let held =
      map (λ (g : HotGuest). g.vm_name)
        (filter (λ (g : HotGuest). is_holding_machine g.state) inputs.hot) in
    let reserved = reserved_image_names inputs.config.profiles in
    let (live, others) =
      contains-append (protected_by_all inputs.config inputs.allocations) (held ++ reserved) c.name
        free in
    let (pool, images) = contains-append held reserved c.name others in
    (
      λ a j l.
          protected_by-live inputs a c.name l
            (protected_by_all-In inputs inputs.allocations c.name j live),
      λ a p warm image j l regenerates.
          protected_by-derived inputs a c.name l regenerates
            (protected_by_all-In inputs inputs.allocations c.name j live),
      λ g j l.
          contains-In held
            (In-map _ (filter-In (λ (g : HotGuest). is_holding_machine g.state) inputs.hot j l))
            pool,
      λ entry j. reserved_of-template entry.1 c.name (reserved-In _ c.name j images),
    )
