-- ===== src/Manager/Warm/Table.antt =====
-- The selection table of `warm_source` as a condition on the answers.
use flanforge.Base.{
  ◌≡◌, refl, ◌∙◌, sym, ap, inl, inr, ◌⊎◌, true, false, not, Option, none, some, List, text_eq_iff,
  ok, arith, Option-cases, Result-cases, Bool-cases,
}
use flanforge.Core.Source.{
  BaseFingerprint, AllocationMode, FallbackReason, WarmImageState, WarmImageRecord,
  is_fingerprint_match,
}
use flanforge.Core.Names.{VmName}
use flanforge.Core.Config.{Profile}
use flanforge.Manager.Model.{HostMachine}
use flanforge.Manager.Warm.{
  SourceSelection, WarmAvailability, WarmAnswers, selected, warm_source, resolve_source,
  from_template, is_promoted, check_availability, is_warm,
}

-- The image that the store records is the profile's, promoted, ready on the host and built from the
-- base that the host has now.
pub record IsUsable (a : WarmAnswers) (p : Profile) (image : WarmImageRecord) : Type 0 where
  pub declared : p.warm_template ≡ some image.warm_template
  pub supported : a.is_warm_supported ≡ true
  pub trusted : a.is_quarantined ≡ false
  pub recorded : a.image ≡ some (some image)
  pub finished : image.state ≡ WarmImageState.promoted
  pub is_ready :
      (machines : List HostMachine) × (a.listing ≡ some machines)
      × (a.warm_availability image machines ≡ some WarmAvailability.ready)
  pub same_base : a.base_fingerprint ≡ some image.base_fingerprint

IsUsable-selected :
    (a : WarmAnswers) (p : Profile) (image : WarmImageRecord)
    → IsUsable a p image
    → warm_source a p ≡ ok (selected image.warm_template image)
unfolding warm_source is_fingerprint_match
IsUsable-selected a p image u =
    let (machines, listed, available) = u.is_ready in
    let name = (text_eq_iff image.warm_template image.warm_template).1 refl in
    let base = (text_eq_iff image.base_fingerprint image.base_fingerprint).1 refl in
    let done : is_promoted image.state ≡ true = ap is_promoted u.finished in
    let found : a.image ≡ some (some image) = u.recorded in
    ground (arith, u.declared, u.supported, u.trusted, u.same_base, found)

promoted_of : (s : WarmImageState) → not (is_promoted s) ≡ false → s ≡ WarmImageState.promoted
promoted_of WarmImageState.promoted h = refl
promoted_of WarmImageState.staging h = absurd (ground arith)

ready_of :
    (o : Option WarmAvailability) → check_availability o ≡ ok tt → o ≡ some WarmAvailability.ready
ready_of (some WarmAvailability.ready) h = refl
ready_of (some WarmAvailability.busy_image) h = absurd (ground arith)
ready_of (some WarmAvailability.absent_image) h = absurd (ground arith)
ready_of none h = absurd (ground arith)

fingerprint_of :
    (x y : BaseFingerprint) → not (is_fingerprint_match (some x) (some y)) ≡ false → x ≡ y
unfolding is_fingerprint_match
fingerprint_of x y h = (text_eq_iff x y).0 (ground arith)

-- Once the four answers are known, the rest are tests.
answers-IsUsable :
    (a : WarmAnswers) (p : Profile) {s : SourceSelection} {warm : VmName}
    {machines : List HostMachine} {image : WarmImageRecord} {current : BaseFingerprint}
    → p.warm_template ≡ some warm
    → a.listing ≡ some machines
    → a.image ≡ some (some image)
    → a.base_fingerprint ≡ some current
    → warm_source a p ≡ ok s
    → IsUsable a p image × (s ≡ selected warm image) × (image.warm_template ≡ warm)
unfolding warm_source
answers-IsUsable a p {s} {warm} {machines} {image} {current} declared listed recorded now h =
    let name : image.warm_template ≡ warm = (text_eq_iff _ _).0 (ground arith) in
    let base : image.base_fingerprint ≡ current = fingerprint_of _ _ (ground arith) in
    (
      record {
        declared = declared ∙ ap some (sym name);
        supported = ground arith;
        trusted = ground arith;
        recorded = recorded;
        finished = promoted_of image.state (ground arith);
        is_ready = (machines, listed, ready_of (a.warm_availability image machines) (ground arith));
        same_base = now ∙ ap some (sym base);
      },
      ground arith,
      name,
    )

selected-IsUsable :
    (a : WarmAnswers) (p : Profile) {s : SourceSelection}
    → warm_source a p ≡ ok s
    → (image : WarmImageRecord) × IsUsable a p image × (s ≡ selected image.warm_template image)
unfolding warm_source
selected-IsUsable a p {s} h = elim (Option-cases p.warm_template) [
  | inl e ↦ absurd (ground arith)
  | inr (warm, declared) ↦ elim (Option-cases a.listing) [
    | inl e ↦ absurd (ground arith)
    | inr (machines, listed) ↦ elim (Option-cases a.image) [
      | inl e ↦ absurd (ground arith)
      | inr (found, loaded) ↦ elim (Option-cases found) [
        | inl e ↦ absurd (ground arith)
        | inr (image, e) ↦ elim (Option-cases a.base_fingerprint) [
          | inl n ↦ absurd (ground arith)
          | inr (current, now) ↦
              let (usable, same, name) =
                answers-IsUsable a p declared listed (loaded ∙ ap some e) now h in
              (image, usable, same ∙ ap (λ w. selected w image) (sym name))
        ]
      ]
    ]
  ]
]

warm_of : (m : AllocationMode) → not (is_warm m) ≡ false → m ≡ AllocationMode.warm
warm_of AllocationMode.warm h = refl
warm_of AllocationMode.cold h = absurd (ground arith)
warm_of AllocationMode.regenerate h = absurd (ground arith)

abbrev pub HasWarm : WarmAnswers → Profile → AllocationMode → Type 0
HasWarm a p m = (m ≡ AllocationMode.warm) × (image : WarmImageRecord) × IsUsable a p image

-- A warm run with a usable image boots from that image and carries its base and its generation; any
-- other run boots from the profile's own template, of no generation.
pub resolve_source_lem :
    (a : WarmAnswers) (p : Profile) (m : AllocationMode)
    → ((w : HasWarm a p m) × (resolve_source a p m ≡ selected w.1.warm_template w.1))
      ⊎ ((¬ HasWarm a p m)
          × (reason : Option FallbackReason) × (resolve_source a p m ≡ from_template a p reason))
unfolding resolve_source
resolve_source_lem a p m = elim (Bool-cases (not (is_warm m))) [
  | inl e ↦
      inr (
        λ w. let cold : is_warm m ≡ true = ap is_warm w.0 in absurd (ground arith),
        none,
        rw e refl,
      )
  | inr e ↦ elim (Result-cases (warm_source a p)) [
    | inl (s, o) ↦
        let (image, usable, same) = selected-IsUsable a p o in
        inl ((warm_of m e, image, usable), rw (e, o) same)
    | inr (reason, o) ↦ inr (
      λ w. let hit = IsUsable-selected a p w.1 w.2 in absurd (ground arith),
      some reason,
      rw (e, o) refl,
    )
  ]
]
