-- ===== src/Manager.antt =====
-- crates/flanforge-manager: what the daemon decides, from a create to the end of the daemon.
pub mod Model
pub mod Admission
pub mod Pool
pub mod Reaper
pub mod Resolve
pub mod Warm
pub mod Entries
pub mod Service
pub mod Teardown
pub mod Recovery
pub mod Operator
