-- ===== src/Completion/Layout.antt =====
-- `accepted_chunk_layout`: the recorded chunks of an artifact, if they cover it
-- (crates/patwari-server/src/ingestion.rs).
use patwari.Prelude.{
  ◌>>=◌, ◌>>◌, ApiError, ApiResult, List, Text, [], conflict, err, int_eq, internal, length, not,
  ok, ok_or, reject_if, to_u64, ℕ, ℤ, ◌+◌, ◌==◌, ◌∷◌,
}
use patwari.Chunks.{UploadArtifactRow, expected_chunk_length, to_sqlite_i64}
use patwari.Digest.{digest_document_value}
use patwari.Uploads.Ordered.{artifact_chunks}
use patwari.Uploads.World.{ChunkRow, Database}
use patwari.Validation.Fields.{validate_digest}

abbrev pub or_else {ℓ} : {A : Type ℓ} → ApiResult A → ApiError → ApiResult A
or_else (ok a) e = ok a
or_else (err x) e = err e

-- The loop over the rows from an index on.
unfoldable pub check_layout : ℤ → UploadArtifactRow → ℕ → List ChunkRow → ApiResult (Unit {0})
unfolding expected_chunk_length to_sqlite_i64 validate_digest digest_document_value
check_layout chunk_size artifact expected_index [] = ok tt
check_layout chunk_size artifact expected_index (row ∷ rows) =
    ok_or (to_u64 row.chunk_index) internal >>= λ actual_index.
    reject_if (not (actual_index == expected_index))
      (conflict "artifact_incomplete" "accepted chunks contain a gap or overlap")
    >> expected_chunk_length chunk_size artifact actual_index
    >>= λ expected_length. to_sqlite_i64 expected_length >>= λ column.
        reject_if (not (int_eq row.byte_length column)) (
          conflict "chunk_layout_invalid"
            "accepted chunk length does not match the negotiated layout")
        >> or_else (validate_digest (digest_document_value row.sha256)) (
            conflict "chunk_layout_invalid"
              "accepted chunk checksum does not match the negotiated layout")
        >> check_layout chunk_size artifact (expected_index + 1) rows

-- `upload.chunk_size_bytes` is the only column of the upload that is read.
unfoldable pub accepted_chunk_layout :
    Text → UploadArtifactRow → ℤ → Database → ApiResult (List ChunkRow)
unfolding check_layout artifact_chunks
accepted_chunk_layout upload_id artifact chunk_size database =
    let rows = artifact_chunks upload_id artifact.artifact_index database in
    ok_or (to_u64 artifact.chunk_count) internal >>= λ expected_count.
    reject_if (not (length rows == expected_count))
      (conflict "artifact_incomplete" "all negotiated chunks must be accepted before completion")
    >> check_layout chunk_size artifact 0 rows
    >> ok rows
