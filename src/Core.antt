-- ===== src/Core.antt =====
-- crates/flanforge-core: the records, the state machines and the policy that have no I/O.
pub mod Names
pub mod Source
pub mod Hot
pub mod Allocation
pub mod Config
pub mod Sizing
pub mod Claims
