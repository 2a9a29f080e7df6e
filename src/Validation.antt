-- ===== src/Validation.antt =====
-- crates/patwari-server/src/validation.rs: what a request may say, and the canonical manifest.
pub mod Fields
pub mod LogicalPath
pub mod Manifest
