-- ===== src/Utils/Uri/Transport.antt =====
-- Which transports a libvirt URI may name.
use flanforge.Base.{
  ◌≡◌, refl, ap, ◌∙◌, sym, Bool, true, false, Option, none, some, Text, codes, ◌++◌, starts_with,
  strip_prefix, strip_prefix_sound, arith, Option-cases, inl, inr,
}
use flanforge.Utils.Uri.{
  split_once_text, transport_of, is_supported_transport, is_supported_libvirt_uri,
}

clear_text : (rest : Text) → is_supported_libvirt_uri (codes "qemu+tcp://" ++ rest) false ≡ false
unfolding is_supported_libvirt_uri split_once_text strip_prefix transport_of is_supported_transport
    flanforge.Base.text_eq
clear_text rest = ground arith

-- Without the operator's consent no clear-text transport is supported, whatever follows it.
pub is_supported_libvirt_uri-Encrypted :
    (uri : Text)
    → is_supported_libvirt_uri uri false ≡ true
    → starts_with uri (codes "qemu+tcp://") ≡ false
is_supported_libvirt_uri-Encrypted uri h =
    elim (Option-cases (strip_prefix uri (codes "qemu+tcp://"))) [
      | inl e ↦ rw (starts_with, e) refl
      | inr (rest, e) ↦
          let same = strip_prefix_sound uri (codes "qemu+tcp://") e in
          let no : is_supported_libvirt_uri uri false ≡ false = rw same (clear_text rest) in
          absurd (ground arith)
    ]
