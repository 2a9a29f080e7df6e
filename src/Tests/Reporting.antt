-- ===== src/Tests/Reporting.antt =====
-- The status of the upload of Tests/Uploading (crates/patwari-server/src/ingestion.rs).
use patwari.Prelude.{All, [], bytes, none, ok, pos, refl, true, ◌↔◌, ◌∷◌, ◌≡◌}
use patwari.Chunks.{UploadArtifactRow}
use patwari.Contract.{identity}
use patwari.Digest.{digest_document_value, hex_digest}
use patwari.Uploads.Record.{upload_is_complete}
use patwari.Uploads.Status.Agrees.{upload_artifact_statuses_complete}
use patwari.Uploads.Status.Missing.{IsReported, upload_artifact_status-IsReported}
use patwari.Uploads.Status.{UploadArtifactStatus, upload_artifact_status, upload_artifact_statuses}
use patwari.Tests.Uploading.{after_creation, created-IsSound, has_artifact}

abbrev row : UploadArtifactRow
row = record {
  artifact_index = pos 0;
  logical_path = bytes "log.txt";
  media_type = none;
  original_size_bytes = pos 10;
  original_sha256 = bytes "aa";
  stored_size_bytes = pos 10;
  stored_sha256 = bytes "aa";
  compression = bytes "identity";
  chunk_count = pos 3;
}

abbrev status : UploadArtifactStatus
status = record {
  artifact_index = 0;
  logical_path = bytes "log.txt";
  media_type = none;
  original_size_bytes = 10;
  original_sha256 = bytes "sha256:aa";
  stored_size_bytes = 10;
  stored_sha256 = bytes "sha256:aa";
  compression = identity;
  chunk_count = 3;
  accepted_chunk_bitmap = bytes "00";
  missing_chunk_indexes = 0 ∷ 1 ∷ 2 ∷ [];
}

reported : upload_artifact_status (bytes "u1") row after_creation.database ≡ ok status
unfolding upload_artifact_status after_creation hex_digest digest_document_value
reported = refl

upload_artifact_status-IsReported_example :
    IsReported (bytes "u1") row after_creation.database status
upload_artifact_status-IsReported_example =
    upload_artifact_status-IsReported (bytes "u1") row after_creation.database reported

statuses_reported : upload_artifact_statuses (bytes "u1") after_creation.database ≡ ok (status ∷ [])
unfolding upload_artifact_statuses after_creation hex_digest digest_document_value
statuses_reported = refl

upload_artifact_statuses_complete_example :
    (upload_is_complete (bytes "u1") after_creation.database ≡ ok true)
    ↔ All (λ s. s.missing_chunk_indexes ≡ []) (status ∷ [])
upload_artifact_statuses_complete_example =
    upload_artifact_statuses_complete (bytes "u1") after_creation.database {statuses = status ∷ []}
      created-IsSound.columns created-IsSound.unique has_artifact statuses_reported
