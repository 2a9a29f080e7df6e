-- ===== src/Contract/Names/Kind.antt =====
-- The categories of the findings and their stored names (crates/patwari-server/src/contract.rs).
use patwari.Prelude.{Option, Text, [], bytes, ◌∷◌}
use patwari.Contract.Names.{match_str}

pub data IntegrityFindingKind : Type 0 where
  manifest_missing manifest_unparseable manifest_hash_mismatch snapshot_projection_drift
        database_integrity_failure artifact_blob_reference_missing blob_metadata_invalid
        blob_file_missing blob_file_non_regular blob_file_size_mismatch blob_file_hash_mismatch
        artifact_original_mismatch unexpected_blob_file blob_orphan blob_grace_candidate
        blob_gc_eligible_candidate blob_stale_candidate tombstoned_snapshot transient_change :
      IntegrityFindingKind

unfoldable pub as_str : IntegrityFindingKind → Text
as_str manifest_missing = bytes "manifest_missing"
as_str manifest_unparseable = bytes "manifest_unparseable"
as_str manifest_hash_mismatch = bytes "manifest_hash_mismatch"
as_str snapshot_projection_drift = bytes "snapshot_projection_drift"
as_str database_integrity_failure = bytes "database_integrity_failure"
as_str artifact_blob_reference_missing = bytes "artifact_blob_reference_missing"
as_str blob_metadata_invalid = bytes "blob_metadata_invalid"
as_str blob_file_missing = bytes "blob_file_missing"
as_str blob_file_non_regular = bytes "blob_file_non_regular"
as_str blob_file_size_mismatch = bytes "blob_file_size_mismatch"
as_str blob_file_hash_mismatch = bytes "blob_file_hash_mismatch"
as_str artifact_original_mismatch = bytes "artifact_original_mismatch"
as_str unexpected_blob_file = bytes "unexpected_blob_file"
as_str blob_orphan = bytes "blob_orphan"
as_str blob_grace_candidate = bytes "blob_grace_candidate"
as_str blob_gc_eligible_candidate = bytes "blob_gc_eligible_candidate"
as_str blob_stale_candidate = bytes "blob_stale_candidate"
as_str tombstoned_snapshot = bytes "tombstoned_snapshot"
as_str transient_change = bytes "transient_change"

unfoldable pub parse : Text → Option IntegrityFindingKind
parse value = match_str value (
    (bytes "manifest_missing", manifest_missing)
    ∷ (bytes "manifest_unparseable", manifest_unparseable)
    ∷ (bytes "manifest_hash_mismatch", manifest_hash_mismatch)
    ∷ (bytes "snapshot_projection_drift", snapshot_projection_drift)
    ∷ (bytes "database_integrity_failure", database_integrity_failure)
    ∷ (bytes "artifact_blob_reference_missing", artifact_blob_reference_missing)
    ∷ (bytes "blob_metadata_invalid", blob_metadata_invalid)
    ∷ (bytes "blob_file_missing", blob_file_missing)
    ∷ (bytes "blob_file_non_regular", blob_file_non_regular)
    ∷ (bytes "blob_file_size_mismatch", blob_file_size_mismatch)
    ∷ (bytes "blob_file_hash_mismatch", blob_file_hash_mismatch)
    ∷ (bytes "artifact_original_mismatch", artifact_original_mismatch)
    ∷ (bytes "unexpected_blob_file", unexpected_blob_file)
    ∷ (bytes "blob_orphan", blob_orphan)
    ∷ (bytes "blob_grace_candidate", blob_grace_candidate)
    ∷ (bytes "blob_gc_eligible_candidate", blob_gc_eligible_candidate)
    ∷ (bytes "blob_stale_candidate", blob_stale_candidate)
    ∷ (bytes "tombstoned_snapshot", tombstoned_snapshot)
    ∷ (bytes "transient_change", transient_change)
    ∷ [])
