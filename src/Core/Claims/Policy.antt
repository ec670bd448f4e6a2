-- ===== src/Core/Claims/Policy.antt =====
-- `ensure_authorized` against the policy that it stands for.
use flanforge.Base.{
  ◌≡◌, ◌<◌, inl, inr, ◌↔◌, Bool, true, false, not, ◌&&◌, some, Text, ◌∷◌, ◌++◌, In, contains, codes,
  text_eq, text_eq_iff, parse, u32_max, u64_max, ok, arith, Option-cases,
}
use flanforge.Core.Names.{owner}
use flanforge.Core.Allocation.{AllocationRequest}
use flanforge.Core.Config.{Profile}
use flanforge.Core.Claims.{
  ForgejoClaims, is_valid_claims, is_valid_request, is_allowed, workflow_prefix, validate_boolean,
  parse_bool, expected_subject, is_number, is_workflow_allowed, ensure_authorized,
}
use flanforge.Core.Claims.Matching.{
  Allowed, Without, contains_iff, is_allowed_iff, is_number_iff, workflow_passes_to,
  workflow_passes_from, protected_iff,
}

-- The policy, as the profile states it.
pub record IsAuthorized (c : ForgejoClaims) (p : Profile) (r : AllocationRequest) : Type 0 where
  pub claims_valid : is_valid_claims c ≡ true
  pub request_valid : is_valid_request r ≡ true
  pub repository_requested : c.repository ≡ r.repository
  pub repository_configured : c.repository ≡ p.repository
  pub owner_signed : c.repository_owner ≡ owner r.repository
  pub run_signed : parse u64_max c.run_id ≡ some r.run_id
  pub attempt_signed : parse u32_max c.run_attempt ≡ some r.run_attempt
  pub run_positive : 0 < r.run_id
  pub attempt_positive : 0 < r.run_attempt
  pub workflow_allowed :
      (path : Text) × (c.workflow_ref ≡ workflow_prefix c ++ (path ++ (b'@' ∷ c.git_ref)))
      × Without b'@' path
      × Allowed p.allowed_workflows path
  pub event_allowed : In c.event_name p.allowed_events
  pub ref_allowed : Allowed p.allowed_refs c.git_ref
  pub ref_is_protected : p.require_protected_ref ≡ true → c.ref_protected ≡ codes "true"
  pub subject_signed : c.sub ≡ expected_subject c

valid_boolean :
    (c : ForgejoClaims) → is_valid_claims c ≡ true → validate_boolean c.ref_protected ≡ true
unfolding is_valid_claims
valid_boolean c h = ground arith

-- The tests of the code, as it makes them.
abbrev Tests : ForgejoClaims → Profile → AllocationRequest → Type 0
Tests c p r =
    (is_valid_claims c ≡ true)
    × (is_valid_request r ≡ true)
    × (text_eq c.repository r.repository ≡ true)
    × (text_eq c.repository p.repository ≡ true)
    × (text_eq c.repository_owner (owner r.repository) ≡ true)
    × (is_number u64_max c.run_id r.run_id ≡ true)
    × (is_number u32_max c.run_attempt r.run_attempt ≡ true)
    × (0 < r.run_id)
    × (0 < r.run_attempt)
    × (is_workflow_allowed c p ≡ true)
    × (contains p.allowed_events c.event_name ≡ true)
    × (is_allowed p.allowed_refs c.git_ref ≡ true)
    × ((b : Bool) × (parse_bool c.ref_protected ≡ some b)
        × ((p.require_protected_ref && not b) ≡ false))
    × (text_eq c.sub (expected_subject c) ≡ true)

accepted_runs :
    (c : ForgejoClaims) (p : Profile) (r : AllocationRequest)
    → ensure_authorized c p r ≡ ok tt
    → Tests c p r
unfolding ensure_authorized
accepted_runs c p r h = elim (Option-cases (parse_bool c.ref_protected)) [
  | inl e ↦ absurd (ground arith)
  | inr (b, e) ↦ (
    ground arith,
    ground arith,
    ground arith,
    ground arith,
    ground arith,
    ground arith,
    ground arith,
    ground arith,
    ground arith,
    ground arith,
    ground arith,
    ground arith,
    (b, e, ground arith),
    ground arith,
  )
]

accepts_all :
    (c : ForgejoClaims) (p : Profile) (r : AllocationRequest)
    → Tests c p r
    → ensure_authorized c p r ≡ ok tt
unfolding ensure_authorized
accepts_all c p r (v, q, a, b, o, n, m, x, y, w, e, g, (z, d, f), u) = ground arith

-- A run is authorized exactly when its claims and its request are well formed, the claims name the
-- repository that is requested and configured and its owner, they sign the requested run and
-- attempt, the workflow is a file of the repository that an allowed pattern matches at the signed
-- ref, the event is listed, an allowed pattern matches the ref, the ref is protected where the
-- profile requires it, and the subject is the one that these claims imply.
pub ensure_authorized_iff :
    (c : ForgejoClaims) (p : Profile) (r : AllocationRequest)
    → (ensure_authorized c p r ≡ ok tt) ↔ IsAuthorized c p r
ensure_authorized_iff c p r = (
  λ h.
      let (v, q, a, b, o, n, m, x, y, w, e, g, prot, u) = accepted_runs c p r h in
      record {
        claims_valid = v;
        request_valid = q;
        repository_requested = (text_eq_iff _ _).0 a;
        repository_configured = (text_eq_iff _ _).0 b;
        owner_signed = (text_eq_iff _ _).0 o;
        run_signed = (is_number_iff u64_max c.run_id r.run_id).0 n;
        attempt_signed = (is_number_iff u32_max c.run_attempt r.run_attempt).0 m;
        run_positive = x;
        attempt_positive = y;
        workflow_allowed = workflow_passes_to c p w;
        event_allowed = (contains_iff _ _).0 e;
        ref_allowed = (is_allowed_iff _ _).0 g;
        ref_is_protected = (protected_iff c p.require_protected_ref (valid_boolean c v)).0 prot;
        subject_signed = (text_eq_iff _ _).0 u;
      },
  λ i.
      let (path, whole, free, allowed) = i.workflow_allowed in
      accepts_all c p r (
        i.claims_valid,
        i.request_valid,
        (text_eq_iff _ _).1 i.repository_requested,
        (text_eq_iff _ _).1 i.repository_configured,
        (text_eq_iff _ _).1 i.owner_signed,
        (is_number_iff u64_max c.run_id r.run_id).1 i.run_signed,
        (is_number_iff u32_max c.run_attempt r.run_attempt).1 i.attempt_signed,
        i.run_positive,
        i.attempt_positive,
        workflow_passes_from c p path whole free allowed,
        (contains_iff _ _).1 i.event_allowed,
        (is_allowed_iff _ _).1 i.ref_allowed,
        (protected_iff c p.require_protected_ref (valid_boolean c i.claims_valid)).1
            i.ref_is_protected,
        (text_eq_iff _ _).1 i.subject_signed,
      ),
)
