-- ===== src/Manager/Service.antt =====
-- crates/flanforge-manager/src/service.rs: a create and a read by signed claims. The answers of the
-- host, of the stores and of the worker, the fresh identifier and time, and what the eviction and
-- the yield before the admission read are the parameter `Answers`. The tasks that a create starts
-- are left out.
mod Decide
mod Commit
pub mod Prepared
pub mod Cases
pub mod Attempts
pub mod Admitted
pub mod Runs
pub mod Advised
pub mod Examples
unfoldable pub use Decide.*
unfoldable pub use Commit.*
