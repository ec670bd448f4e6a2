-- ===== src/Core/Hot.antt =====
-- crates/flanforge-core/src/hot: the pool machine's lanes, state machine and durable record.
mod Lane
mod State
mod Record
pub mod Laws
unfoldable pub use Lane.*
unfoldable pub use State.*
unfoldable pub use Record.*
