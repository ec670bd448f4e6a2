-- ===== src/Core/Allocation.antt =====
-- crates/flanforge-core/src/allocation/{state,model}.rs: the allocation's lifecycle and record.
mod State
mod Model
pub mod Lifecycle
pub mod Evidence
pub mod Examples
unfoldable pub use State.*
unfoldable pub use Model.*
