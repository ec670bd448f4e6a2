-- ===== src/Core/Claims/Examples.antt =====
-- The policy at concrete claims: a push that the sample profile allows, and what it refuses.
use flanforge.Base.{◌≡◌, refl, ◌↔◌, codes, ◌++◌, ◌∷◌, []}
use flanforge.Base.{ok, err, Text, true}
use flanforge.Samples.{ios_profile, fresh_allocation, push}
use flanforge.Core.Claims.{
  ForgejoClaims, AuthorizationError, ensure_authorized, normalized, workflow_file, is_ref_protected,
}
use flanforge.Core.Claims.Policy.{IsAuthorized, ensure_authorized_iff}

-- A scheduled run, whose claims carry the short ref.
abbrev scheduled : ForgejoClaims
scheduled = record push {
  git_ref = codes "main";
  sub = codes "repo:acme/app:ref:main";
  workflow_ref = codes "acme/app/.forgejo/workflows/ci.yml@main";
}

accepts_push : ensure_authorized push ios_profile fresh_allocation.request ≡ ok tt
unfolding ensure_authorized flanforge.Core.Claims.is_valid_claims flanforge.Base.char_count
    flanforge.Core.Claims.validate_text flanforge.Base.all flanforge.Core.Claims.validate_token
    flanforge.Utils.Refs.is_safe_git_ref flanforge.Utils.Refs.is_safe_ref_shape
    flanforge.Base.strip_prefix flanforge.Base.ends_with_byte flanforge.Base.contains_text
    flanforge.Base.split flanforge.Utils.Refs.is_safe_ref_segment flanforge.Base.strip_suffix
    flanforge.Base.text_eq flanforge.Core.Claims.validate_boolean
    flanforge.Core.Claims.validate_repository flanforge.Core.Names.new_repository_name
    flanforge.Base.parse flanforge.Base.any flanforge.Base.contains flanforge.Base.split_once
    flanforge.Core.Claims.is_allowed flanforge.Core.Claims.is_valid_request
    flanforge.Core.Claims.parse_bool flanforge.Core.Claims.validate_name
    flanforge.Core.Claims.validate_positive_decimal flanforge.Core.Claims.validate_sha
    flanforge.Core.Claims.workflow_identity flanforge.Core.Names.new_profile_name
    flanforge.Core.Names.owner flanforge.Core.Names.starts_alphanumeric
    flanforge.Utils.Glob.is_glob_match
accepts_push = refl

accepts_scheduled :
    ensure_authorized (normalized scheduled) ios_profile fresh_allocation.request ≡ ok tt
unfolding ensure_authorized normalized flanforge.Core.Claims.is_valid_claims
    flanforge.Base.char_count flanforge.Core.Claims.validate_text flanforge.Base.all
    flanforge.Core.Claims.validate_token flanforge.Utils.Refs.is_safe_git_ref
    flanforge.Utils.Refs.is_safe_ref_shape flanforge.Base.strip_prefix flanforge.Base.ends_with_byte
    flanforge.Base.contains_text flanforge.Base.split flanforge.Utils.Refs.is_safe_ref_segment
    flanforge.Base.strip_suffix flanforge.Base.text_eq flanforge.Core.Claims.validate_boolean
    flanforge.Core.Claims.validate_repository flanforge.Core.Names.new_repository_name
    flanforge.Base.parse flanforge.Base.any flanforge.Base.contains flanforge.Base.split_once
    flanforge.Core.Claims.is_allowed flanforge.Core.Claims.is_valid_request
    flanforge.Core.Claims.parse_bool flanforge.Core.Claims.validate_name
    flanforge.Core.Claims.validate_positive_decimal flanforge.Core.Claims.validate_sha
    flanforge.Core.Claims.workflow_identity flanforge.Core.Names.new_profile_name
    flanforge.Core.Names.owner flanforge.Core.Names.starts_alphanumeric
    flanforge.Utils.Glob.is_glob_match
accepts_scheduled = refl

refuses_other_ref :
    ensure_authorized
      (record push { git_ref = codes "refs/tags/v1" })
      ios_profile
      fresh_allocation.request
    ≡ err AuthorizationError.wrong_workflow
unfolding ensure_authorized flanforge.Core.Claims.is_valid_claims flanforge.Base.char_count
    flanforge.Core.Claims.validate_text flanforge.Base.all flanforge.Core.Claims.validate_token
    flanforge.Utils.Refs.is_safe_git_ref flanforge.Utils.Refs.is_safe_ref_shape
    flanforge.Base.strip_prefix flanforge.Base.ends_with_byte flanforge.Base.contains_text
    flanforge.Base.split flanforge.Utils.Refs.is_safe_ref_segment flanforge.Base.strip_suffix
    flanforge.Base.text_eq flanforge.Core.Claims.validate_boolean
    flanforge.Core.Claims.validate_repository flanforge.Core.Names.new_repository_name
    flanforge.Base.parse flanforge.Base.any flanforge.Base.contains flanforge.Base.split_once
    flanforge.Core.Claims.is_allowed flanforge.Core.Claims.is_valid_request
    flanforge.Core.Claims.parse_bool flanforge.Core.Claims.validate_name
    flanforge.Core.Claims.validate_positive_decimal flanforge.Core.Claims.validate_sha
    flanforge.Core.Claims.workflow_identity flanforge.Core.Names.new_profile_name
    flanforge.Core.Names.owner flanforge.Core.Names.starts_alphanumeric
    flanforge.Utils.Glob.is_glob_match
refuses_other_ref = refl

ensure_authorized_iff_example :
    (ensure_authorized push ios_profile fresh_allocation.request ≡ ok tt)
    ↔ IsAuthorized push ios_profile fresh_allocation.request
ensure_authorized_iff_example = ensure_authorized_iff push ios_profile fresh_allocation.request
