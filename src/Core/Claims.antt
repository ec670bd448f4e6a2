-- ===== src/Core/Claims.antt =====
-- crates/flanforge-core/src/claims/forgejo.rs: the signed claims of a run, and the policy that they
-- have to meet. `length` of the validator crate counts characters.
use flanforge.Base.{
  ℕ, Bool, true, false, not, ◌&&◌, ◌||◌, ◌==◌, Option, none, some, Text, [], ◌∷◌, ◌++◌, List, codes,
  text_eq, length, ltb, leb, all, any, split_once, starts_with, strip_prefix, strip_suffix,
  contains, is_ok, is_some_and, is_none_or, is_ascii_alphanumeric, is_ascii_digit, is_ascii_control,
  is_ascii_hexdigit, char_count, parse, u32_max, u64_max, if◌then◌else◌, Result, ok, err, refuse_if,
  ◌>>◌, ◌>>=◌, ok_or,
}
use flanforge.Utils.Glob.{is_glob_match}
use flanforge.Utils.Refs.{is_safe_git_ref}
use flanforge.Core.Names.{
  is_name_byte, starts_alphanumeric, new_repository_name, new_profile_name, owner,
}
use flanforge.Core.Allocation.{AllocationRequest}
use flanforge.Core.Config.{Profile}
pub mod Matching
pub mod Policy
pub mod Normal
pub mod Examples

pub record ForgejoClaims : Type 0 where
  pub actor : Text
  pub aud : Text
  pub event_name : Text
  pub exp : ℕ
  pub iat : ℕ
  pub iss : Text
  pub nbf : ℕ
  pub git_ref : Text
  pub ref_protected : Text
  pub ref_type : Text
  pub repository : Text
  pub repository_owner : Text
  pub run_attempt : Text
  pub run_id : Text
  pub run_number : Text
  pub sha : Text
  pub sub : Text
  pub workflow : Text
  pub workflow_ref : Text

pub data AuthorizationError : Type 0 where
  wrong_repository run_identity wrong_workflow wrong_event wrong_git_ref : AuthorizationError
  protected_ref subject malformed_claims : AuthorizationError

-- `length(min, max)`
abbrev pub has_length : ℕ → ℕ → Text → Bool
has_length low high value = leb low (char_count value) && leb (char_count value) high

unfoldable pub validate_text : Text → Bool
validate_text value = all (λ byte. not (is_ascii_control byte)) value

unfoldable pub validate_token : Text → Bool
validate_token value = all (λ byte. is_ascii_alphanumeric byte || byte == b'_') value

unfoldable pub validate_name : Text → Bool
validate_name value = starts_alphanumeric value && all is_name_byte value

unfoldable pub validate_boolean : Text → Bool
validate_boolean value = text_eq value (codes "true") || text_eq value (codes "false")

unfoldable pub validate_repository : Text → Bool
validate_repository value = is_ok (new_repository_name value)

unfoldable pub validate_positive_decimal : Text → Bool
validate_positive_decimal value =
    not (length value == 0)
    && leb (length value) 20
    && all is_ascii_digit value
    && is_some_and (parse u64_max value) (λ number. ltb 0 number)

unfoldable pub validate_sha : Text → Bool
validate_sha value = (length value == 40 || length value == 64) && all is_ascii_hexdigit value

-- The derived `validate` of `ForgejoClaims`: every field is checked.
unfoldable pub is_valid_claims : ForgejoClaims → Bool
is_valid_claims c =
    has_length 1 100 c.actor
    && validate_text c.actor
    && has_length 1 256 c.aud
    && validate_text c.aud
    && has_length 1 64 c.event_name
    && validate_token c.event_name
    && leb 1 c.exp
    && leb 1 c.iat
    && has_length 1 2048 c.iss
    && validate_text c.iss
    && leb 1 c.nbf
    && is_safe_git_ref c.git_ref
    && validate_boolean c.ref_protected
    && leb (char_count c.ref_type) 32
    && validate_token c.ref_type
    && validate_repository c.repository
    && has_length 1 100 c.repository_owner
    && validate_name c.repository_owner
    && validate_positive_decimal c.run_attempt
    && validate_positive_decimal c.run_id
    && validate_positive_decimal c.run_number
    && validate_sha c.sha
    && has_length 1 512 c.sub
    && validate_text c.sub
    && has_length 1 128 c.workflow
    && validate_text c.workflow
    && has_length 1 512 c.workflow_ref
    && validate_text c.workflow_ref

-- The derived `validate` of `AllocationRequest`, its identifiers checked again.
unfoldable pub is_valid_request : AllocationRequest → Bool
is_valid_request r =
    is_ok (new_profile_name r.profile)
    && is_ok (new_repository_name r.repository)
    && leb 1 r.run_id
    && leb 1 r.run_attempt

-- Whether any pattern of an allowlist matches the value in full.
unfoldable pub is_allowed : List Text → Text → Bool
is_allowed patterns value = any (λ pattern. is_glob_match pattern value) patterns

abbrev pub workflow_prefix : ForgejoClaims → Text
workflow_prefix c = c.repository ++ codes "/.forgejo/workflows/"

-- The workflow's file and its ref, where the claim has the shape of one.
unfoldable pub workflow_identity : ForgejoClaims → Option (Text × Text)
workflow_identity c = elim (strip_prefix c.workflow_ref (workflow_prefix c)) [
  | none ↦ none
  | some rest ↦ split_once b'@' rest
]

unfoldable pub workflow_file : ForgejoClaims → Option Text
unfolding workflow_identity
workflow_file c = elim (workflow_identity c) [ none ↦ none | some (path, git_ref) ↦ some path ]

-- `str::parse::<bool>`
unfoldable pub parse_bool : Text → Option Bool
parse_bool value =
    if text_eq value (codes "true")
    then some true
    else if text_eq value (codes "false")
    then some false
    else none

unfoldable pub is_ref_protected : ForgejoClaims → Bool
unfolding parse_bool
is_ref_protected c = is_some_and (parse_bool c.ref_protected) (λ b. b)

abbrev pub expected_subject : ForgejoClaims → Text
expected_subject c =
    if text_eq c.event_name (codes "pull_request")
    then codes "repo:" ++ (c.repository ++ codes ":pull_request")
    else codes "repo:" ++ (c.repository ++ (codes ":ref:" ++ c.git_ref))

abbrev pub is_number : ℕ → Text → ℕ → Bool
is_number bound value n = is_some_and (parse bound value) (λ m. m == n)

abbrev pub is_workflow_allowed : ForgejoClaims → Profile → Bool
is_workflow_allowed c profile = is_some_and (workflow_identity c) (λ (found : Text × Text).
    is_allowed profile.allowed_workflows found.0 && text_eq found.1 c.git_ref)

unfoldable pub ensure_authorized :
    ForgejoClaims → Profile → AllocationRequest → Result (Unit {0}) AuthorizationError
ensure_authorized c profile request = do
  refuse_if (not (is_valid_claims c)) malformed_claims
  refuse_if (not (is_valid_request request)) malformed_claims
  refuse_if
      (not (text_eq c.repository request.repository)
        || not (text_eq c.repository profile.repository)
        || not (text_eq c.repository_owner (owner request.repository)))
      wrong_repository
  refuse_if
      (not (is_number u64_max c.run_id request.run_id)
        || not (is_number u32_max c.run_attempt request.run_attempt)
        || request.run_id == 0
        || request.run_attempt == 0)
      run_identity
  refuse_if (not (is_workflow_allowed c profile)) wrong_workflow
  refuse_if (not (contains profile.allowed_events c.event_name)) wrong_event
  refuse_if (not (is_allowed profile.allowed_refs c.git_ref)) wrong_git_ref
  is_protected ← ok_or (parse_bool c.ref_protected) malformed_claims
  refuse_if (profile.require_protected_ref && not is_protected) protected_ref
  refuse_if (not (text_eq c.sub (expected_subject c))) subject
  ok tt

-- `normalized`: the suffixes that embed the short ref are rewritten with it.
abbrev pub resuffix : Text → Text → Text → Text
resuffix value short full = elim (strip_suffix value short) [
  | none ↦ value
  | some stem ↦ stem ++ full
]

unfoldable pub normalized : ForgejoClaims → ForgejoClaims
normalized c =
    if length c.git_ref == 0 || starts_with c.git_ref (codes "refs/")
    then c
    else let full = codes "refs/heads/" ++ c.git_ref in
      record c {
        sub = resuffix c.sub (codes ":ref:" ++ c.git_ref) (codes ":ref:" ++ full);
        workflow_ref = resuffix c.workflow_ref (b'@' ∷ c.git_ref) (b'@' ∷ full);
        git_ref = full;
      }
