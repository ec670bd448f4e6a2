-- ===== src/Core/Config.antt =====
-- crates/flanforge-core/src/config: the tables that the policy and the manager read. `Config` keeps
-- the fields that the modelled code reads.
mod Model
mod Reload
pub mod Validate
pub mod Limits
pub mod Advice
unfoldable pub use Model.*
unfoldable pub use Reload.*
