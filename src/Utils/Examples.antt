-- ===== src/Utils/Examples.antt =====
-- Refs, URIs and bounded texts at concrete values.
use flanforge.Base.{
  ◌≡◌, refl, ◌↔◌, ◌≤◌, ℕ, true, false, codes, [], ◌∷◌, ◌++◌, length, take, starts_with, Text,
}
use flanforge.Utils.Refs.{is_safe_git_ref, is_safe_git_ref_pattern}
use flanforge.Utils.Uri.{is_supported_libvirt_uri}
use flanforge.Utils.Bounded.{bounded_text}

main_is_safe : is_safe_git_ref (codes "refs/heads/main") ≡ true
unfolding is_safe_git_ref flanforge.Utils.Refs.is_safe_ref_shape flanforge.Base.strip_prefix
    flanforge.Base.ends_with_byte flanforge.Base.contains_text flanforge.Base.all
    flanforge.Base.split flanforge.Utils.Refs.is_safe_ref_segment flanforge.Base.strip_suffix
    flanforge.Base.text_eq
main_is_safe = refl

star_is_no_ref : is_safe_git_ref (codes "refs/heads/*") ≡ false
unfolding is_safe_git_ref flanforge.Utils.Refs.is_safe_ref_shape flanforge.Base.strip_prefix
    flanforge.Base.ends_with_byte flanforge.Base.contains_text flanforge.Base.all
star_is_no_ref = refl

lock_is_unsafe : is_safe_git_ref (codes "refs/heads/x.LOCK") ≡ false
unfolding is_safe_git_ref flanforge.Utils.Refs.is_safe_ref_shape flanforge.Base.strip_prefix
    flanforge.Base.ends_with_byte flanforge.Base.contains_text flanforge.Base.all
    flanforge.Base.split flanforge.Utils.Refs.is_safe_ref_segment flanforge.Base.strip_suffix
    flanforge.Base.text_eq
lock_is_unsafe = refl

ssh_is_supported : is_supported_libvirt_uri (codes "qemu+ssh://ci@host:22/system") false ≡ true
unfolding is_supported_libvirt_uri flanforge.Base.contains_byte flanforge.Base.all
    flanforge.Utils.Uri.split_once_text flanforge.Base.strip_prefix flanforge.Base.text_eq
    flanforge.Base.split_once flanforge.Utils.Uri.is_libvirt_authority
    flanforge.Utils.Uri.rsplit_once flanforge.Base.parse flanforge.Base.ends_with_byte
    flanforge.Base.contains_text
ssh_is_supported = refl

tcp_with_consent : is_supported_libvirt_uri (codes "qemu+tcp://host/system") true ≡ true
unfolding is_supported_libvirt_uri flanforge.Base.contains_byte flanforge.Base.all
    flanforge.Utils.Uri.split_once_text flanforge.Base.strip_prefix flanforge.Base.text_eq
    flanforge.Base.split_once flanforge.Utils.Uri.is_libvirt_authority
    flanforge.Utils.Uri.rsplit_once flanforge.Base.ends_with_byte flanforge.Base.contains_text
tcp_with_consent = refl

-- An `é` of two bytes across the bound.
cuts_before_character : bounded_text (b'a' ∷ 195 ∷ 169 ∷ b'b' ∷ []) 2 ≡ b'a' ∷ []
unfolding bounded_text
cuts_before_character = refl
