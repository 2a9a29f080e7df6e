-- ===== src/Locks.antt =====
-- crates/patwari-server/src/service.rs: the lock stripes and the order in which they are taken.
mod Stripes
pub mod Order
pub mod Waiting
unfoldable pub use Stripes.*
