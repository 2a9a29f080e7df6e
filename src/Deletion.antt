-- ===== src/Deletion.antt =====
-- crates/patwari-server/src/deletion.rs: the deletion of snapshots, and the collection of the
-- blobs that no live snapshot refers to.
pub mod Archive
pub mod Confirm
pub mod Safety
pub mod Progress
pub mod Delete
pub mod Idempotent
pub mod Collect
