-- ===== src/Config.antt =====
-- crates/patwari-server/src/config.rs: the bounded settings of the service, their validation, and
-- their reading from environment values. A `Duration` is its number of nanoseconds; a path is its
-- bytes. The socket address is a parameter: its parser is the standard library's.
mod Bounds
mod Parse
pub mod Validate
pub mod Values
unfoldable pub use Bounds.*
unfoldable pub use Parse.*
