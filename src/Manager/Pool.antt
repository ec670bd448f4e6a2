-- ===== src/Manager/Pool.antt =====
-- crates/flanforge-manager/src/hot: the pool of retained machines.
mod Select
mod Claim
pub mod Drain
pub mod Bounds
pub mod Recycle
pub mod Yield
pub mod Choice
pub mod Exclusion
pub mod Examples
unfoldable pub use Select.*
unfoldable pub use Claim.*
