-- ===== src/Validation/Manifest.antt =====
-- `normalize_manifest`, `normalize_artifact`, `normalize_capture` and `manifest_totals`. The RFC
-- 3339 parser and formatter and the MIME parser are third-party code: they are parameters.
mod Defs
mod Sort
pub mod Artifacts
pub mod Loop
pub mod Order
pub mod Paths
pub mod Canonical
unfoldable pub use Defs.*
unfoldable pub use Sort.*
