-- ===== src/Tests.antt =====
-- The theorems applied to concrete inputs, and runs of the definitions.
mod Arriving
mod Chunking
mod Settings
mod Hex
mod Collection
mod Deleting
mod Locking
mod Naming
mod Paging
mod Uploading
mod Manifests
mod Gate
mod Reporting
mod Completing
mod Committing
