-- ===== src/Uploads/Status.antt =====
-- What a client is told of an upload: `get_upload_status`, `active_upload_status_response`,
-- `audit_upload_response`, `upload_artifact_statuses` and `upload_artifact_status`
-- (crates/patwari-server/src/ingestion.rs).
pub mod Missing
pub mod Keeping
pub mod Agrees
use patwari.Prelude.{
  ◌>>=◌ as ◌>>=?◌, ApiResult, List, Option, Text, [], conflict, err, false, filter, first,
  if◌then◌else◌, internal, invalid, leb, ltb, none, not, ok, ok_or, some, suc, to_u64, true,
  u32_bound, zero, ℕ, ℤ, ◌+◌, ◌/◌, ◌∷◌,
}
use patwari.Chunks.{UploadArtifactRow}
use patwari.Contract.{Compression}
use patwari.Digest.{digest_document_value, hex_digest, parse_compression}
use patwari.Uploads.Bitmap.{empty_bitmap, is_marked, mark}
use patwari.Uploads.Ordered.{artifact_chunks}
use patwari.Uploads.Record.{get_upload_artifacts}
use patwari.Uploads.Terminal.{
  audit_upload_response, get_active_upload, is_expired, terminalize_upload_locked,
}
use patwari.Uploads.World.{
  ActiveUploadRow, AuditRow, ChunkRow, Database, Handler, TerminalReason, UploadExternal,
  UploadState, completed, expired, gets, lift, state_eq, ◌>>=◌, ◌>>◌,
}

pub record UploadArtifactStatus : Type 0 where
  pub artifact_index : ℕ
  pub logical_path : Text
  pub media_type : Option Text
  pub original_size_bytes : ℕ
  pub original_sha256 : Text
  pub stored_size_bytes : ℕ
  pub stored_sha256 : Text
  pub compression : Compression
  pub chunk_count : ℕ
  pub accepted_chunk_bitmap : Text
  pub missing_chunk_indexes : List ℕ

-- `contract::UploadStatus`
pub data UploadStatus : Type 0 where
  active : UploadState → UploadStatus
  terminal : TerminalReason → UploadStatus

-- The response without its URLs, which are texts around the upload's identifier.
pub record UploadStatusResponse : Type 0 where
  pub upload_id : Text
  pub capture_id : Text
  pub session_id : Text
  pub status : UploadStatus
  pub manifest_sha256 : Option Text
  pub chunk_size_bytes : ℕ
  pub artifacts : List UploadArtifactStatus

-- `(first..first + n)`
unfoldable pub indexes_from : ℕ → ℕ → List ℕ
indexes_from first zero = []
indexes_from first (suc n) = first ∷ indexes_from (first + 1) n

-- The loop over the recorded chunks.
unfoldable pub mark_chunks : ℕ → List ChunkRow → List ℕ → ApiResult (List ℕ)
unfolding mark
mark_chunks chunk_count [] bitmap = ok bitmap
mark_chunks chunk_count (row ∷ rows) bitmap = elim (to_u64 row.chunk_index) [
  | none ↦ err internal
  | some index ↦ elim (leb chunk_count index) [
    | true ↦ err (
        conflict "chunk_layout_invalid" "accepted chunk records do not match the negotiated layout")
    | false ↦ mark_chunks chunk_count rows (mark index bitmap)
  ]
]

unfoldable pub to_u32 : ℤ → Option ℕ
to_u32 (ℤ.pos n) = if ltb n u32_bound then some n else none
to_u32 (ℤ.negsuc n) = none

unfoldable pub upload_artifact_status :
    Text → UploadArtifactRow → Database → ApiResult UploadArtifactStatus
unfolding mark_chunks artifact_chunks empty_bitmap is_marked indexes_from to_u32 hex_digest
    digest_document_value parse_compression
upload_artifact_status upload_id artifact database =
    ok_or (to_u32 artifact.artifact_index) internal >>=? λ artifact_index.
    ok_or (to_u64 artifact.chunk_count) internal >>=? λ chunk_count.
    mark_chunks chunk_count (artifact_chunks upload_id artifact.artifact_index database)
      (empty_bitmap ((chunk_count + 7) / 8))
    >>=? λ bitmap. ok_or (to_u64 artifact.original_size_bytes) internal >>=? λ original_size.
        ok_or (to_u64 artifact.stored_size_bytes) internal >>=? λ stored_size.
        ok_or (parse_compression artifact.compression) internal >>=? λ compression. ok (record {
          artifact_index = artifact_index;
          logical_path = artifact.logical_path;
          media_type = artifact.media_type;
          original_size_bytes = original_size;
          original_sha256 = digest_document_value artifact.original_sha256;
          stored_size_bytes = stored_size;
          stored_sha256 = digest_document_value artifact.stored_sha256;
          compression = compression;
          chunk_count = chunk_count;
          accepted_chunk_bitmap = hex_digest bitmap;
          missing_chunk_indexes =
              filter (λ i. not (is_marked bitmap i)) (indexes_from 0 chunk_count);
        })

unfoldable pub artifact_statuses :
    Text → List UploadArtifactRow → Database → ApiResult (List UploadArtifactStatus)
unfolding upload_artifact_status
artifact_statuses upload_id [] database = ok []
artifact_statuses upload_id (row ∷ rows) database =
    upload_artifact_status upload_id row database >>=? λ status.
    artifact_statuses upload_id rows database >>=? λ statuses. ok (status ∷ statuses)

unfoldable pub upload_artifact_statuses : Text → Database → ApiResult (List UploadArtifactStatus)
unfolding artifact_statuses get_upload_artifacts
upload_artifact_statuses upload_id database =
    artifact_statuses upload_id (get_upload_artifacts upload_id database) database

unfoldable pub active_upload_status_response :
    ActiveUploadRow → Database → ApiResult UploadStatusResponse
unfolding upload_artifact_statuses digest_document_value
active_upload_status_response upload database =
    upload_artifact_statuses upload.id database >>=? λ artifacts.
    ok_or (to_u64 upload.chunk_size_bytes) internal >>=? λ chunk_size. ok (record {
      upload_id = upload.id;
      capture_id = upload.capture_id;
      session_id = upload.session_id;
      status = active upload.status;
      manifest_sha256 = some (digest_document_value upload.manifest_sha256);
      chunk_size_bytes = chunk_size;
      artifacts = artifacts;
    })

-- What `audit_upload_response` makes of the audit row: no paths and no chunks.
unfoldable pub terminal_response : AuditRow → ApiResult UploadStatusResponse
terminal_response audit = ok_or (to_u64 audit.chunk_size_bytes) internal >>=? λ chunk_size.
    ok (record {
      upload_id = audit.upload_id;
      capture_id = audit.capture_id;
      session_id = audit.session_id;
      status = terminal audit.terminal_reason;
      manifest_sha256 = none;
      chunk_size_bytes = chunk_size;
      artifacts = [];
    })

module _ (ext : UploadExternal) where
  unfoldable pub audit_status : Text → Handler UploadStatusResponse
  unfolding audit_upload_response terminal_response
  audit_status upload_id =
      audit_upload_response ext upload_id >>= λ audit. lift (terminal_response audit)

  unfoldable pub active_status :
      ActiveUploadRow → ext.Time → ext.Time → Handler UploadStatusResponse
  unfolding is_expired terminalize_upload_locked audit_status active_upload_status_response
  active_status upload now terminal_at =
      lift (if state_eq upload.status completed then ok false else is_expired ext upload now)
      >>= λ is_over.
          if is_over
          then terminalize_upload_locked ext upload expired terminal_at >> audit_status upload.id
          else gets (λ w. active_upload_status_response upload w.database) >>= λ response.
              lift response

  unfoldable pub found_status :
      Text → Option ActiveUploadRow → ext.Time → ext.Time → Handler UploadStatusResponse
  unfolding active_status audit_status
  found_status id none now terminal_at = audit_status id
  found_status id (some upload) now terminal_at = active_status upload now terminal_at

  unfoldable pub get_upload_status : Text → ext.Time → ext.Time → Handler UploadStatusResponse
  unfolding found_status get_active_upload
  get_upload_status upload_id now terminal_at =
      lift (ok_or (ext.parse_uuid upload_id) (invalid "upload identifier is not a UUID")) >>= λ id.
      gets (λ w. get_active_upload id w.database) >>= λ found. found_status id found now terminal_at
