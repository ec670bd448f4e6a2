-- ===== src/Utils.antt =====
-- crates/flanforge-utils: the pure helpers that the policy rests on.
pub mod Glob
pub mod Refs
pub mod Uri
pub mod Bounded
pub mod Examples
