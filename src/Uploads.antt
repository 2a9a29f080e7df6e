-- ===== src/Uploads.antt =====
-- crates/patwari-server/src/ingestion.rs: an upload from its creation to its end, by its tables
-- and the files of its chunks.
pub mod World
pub mod Layout
pub mod Reuse
pub mod Session
pub mod NewRow
pub mod Create
pub mod Terminal
pub mod Request
pub mod Record
pub mod Transfer
pub mod Counting
pub mod Completeness
pub mod Invariant
pub mod Keeps
pub mod Leads
pub mod Sound
pub mod Ended
pub mod Bitmap
pub mod Ordered
pub mod Status
