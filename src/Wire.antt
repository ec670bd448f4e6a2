-- ===== src/Wire.antt =====
-- crates/flanforge-libvirt-wire: the documents that the libvirt backend keeps beside its volumes.
pub mod Pointer
pub mod Warm
pub mod Examples
