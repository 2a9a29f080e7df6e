-- ===== src/Uploads/NewRow.antt =====
-- The row that `persist_upload` inserts (crates/patwari-server/src/ingestion.rs).
use patwari.Prelude.{
  ◌>>=◌, ApiResult, List, Text, [], all, err, if◌then◌else◌, internal, length, none, ok, ℕ, ◌==◌,
  ◌∷◌,
}
use patwari.Chunks.{to_sqlite_i64}
use patwari.Contract.{Manifest}
use patwari.Uploads.Layout.{UploadLayout}
use patwari.Uploads.Reuse.{Creation}
use patwari.Uploads.World.{ActiveUploadRow, UploadState, artifact_uploaded, created}
use patwari.Validation.Fields.{capture_id}

abbrev pub initial_status : List ℕ → UploadState
initial_status counts = if all (λ c. c == 0) counts then artifact_uploaded else created

-- The numbers of the new row, which must fit their columns.
unfoldable pub upload_row :
    Creation → Text → Text → Text → Text → Manifest → UploadLayout → ApiResult ActiveUploadRow
unfolding to_sqlite_i64
upload_row creation session_id client_id capture_id manifest_sha256 manifest layout =
    elim (manifest.artifacts) [
      | [] ↦ err internal
      | artifact ∷ _ ↦ elim layout.chunk_counts [
        | [] ↦ err internal
        | count ∷ _ ↦ do
          chunk_size ← to_sqlite_i64 creation.chunk_size_bytes
          chunks ← to_sqlite_i64 count
          stored ← to_sqlite_i64 artifact.stored_size_bytes
          original ← to_sqlite_i64 artifact.original_size_bytes
          artifact_count ← to_sqlite_i64 (length manifest.artifacts)
          total_stored ← to_sqlite_i64 layout.total_stored_bytes
          total_original ← to_sqlite_i64 layout.total_original_bytes
          ok (record {
            id = creation.upload_id;
            owner_namespace = creation.owner_namespace;
            session_id = session_id;
            client_id = client_id;
            capture_id = capture_id;
            manifest_sha256 = manifest_sha256;
            status = initial_status layout.chunk_counts;
            snapshot_id = none;
            created_at = creation.now;
            completed_at = none;
            chunk_size_bytes = chunk_size;
            chunk_count = chunks;
            declared_stored_size_bytes = stored;
            declared_original_size_bytes = original;
            expires_at = creation.expires_at;
            artifact_count = artifact_count;
            total_stored_size_bytes = total_stored;
            total_original_size_bytes = total_original;
          })
      ]
    ]
