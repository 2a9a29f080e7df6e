-- ===== src/Uploads/Transfer.antt =====
-- `put_artifact_chunk` (crates/patwari-server/src/ingestion.rs): how a chunk of an upload arrives.
use patwari.Prelude.{
  ApiResult, Bool, List, Option, Text, conflict, err, if◌then◌else◌, int_eq, internal, invalid,
  none, not, ok, ok_or, pos, reject_if, some, storage_error, to_u64, ℕ, ◌==◌, ◌||◌,
}
use patwari.Chunks.{UploadArtifactRow, expected_chunk_length, to_sqlite_i64}
use patwari.Config.{parse_u64}
use patwari.Digest.{digest_document_value, digest_storage_value}
use patwari.Uploads.Record.{
  chunk_conflict, differs, get_chunk, get_upload_artifact, persist_chunk_record,
  refresh_upload_status,
}
use patwari.Uploads.Request.{
  ChunkRequest, Frame, Headers, parse_artifact_index, parse_chunk_headers, store_chunk_file,
  validate_octet_stream, verify_stored_file,
}
use patwari.Uploads.Terminal.{require_active_upload}
use patwari.Uploads.World.{
  ActiveUploadRow, ChunkRow, Handler, UploadExternal, completed, gets, lift, state_eq, ◌>>=◌, ◌>>◌,
}

-- The upload's only chunk, from a client that sends no chunk headers.
unfoldable pub legacy_single_chunk_request :
    ActiveUploadRow → UploadArtifactRow → ℕ → ℕ → ApiResult ChunkRequest
unfolding digest_document_value
legacy_single_chunk_request upload artifact artifact_index chunk_index =
    if not (int_eq upload.artifact_count (pos 1))
      || not (artifact_index == 0)
      || not (int_eq artifact.chunk_count (pos 1))
      || not (chunk_index == 0)
    then err (invalid "chunk checksum and length headers are required")
    else elim (to_u64 artifact.stored_size_bytes) [
      | none ↦ err internal
      | some size ↦
          ok (record { byte_length = size; sha256 = digest_document_value artifact.stored_sha256 })
    ]

module _ (ext : UploadExternal) where
  abbrev pub request_chunk :
      Option ChunkRequest → ActiveUploadRow → UploadArtifactRow → ℕ → ℕ → ApiResult ChunkRequest
  request_chunk (some request) upload artifact artifact_index chunk_index = ok request
  request_chunk none upload artifact artifact_index chunk_index =
      legacy_single_chunk_request upload artifact artifact_index chunk_index

  -- A chunk that is not recorded yet. `removed` says whether the removal of the temporary file
  -- succeeds: when it fails after the row is committed, the handler ends before the status follows.
  unfoldable pub accept_chunk :
      ActiveUploadRow
      → UploadArtifactRow
      → ℕ
      → ℕ
      → ChunkRequest
      → List Frame
      → Bool
      → ext.Time
      → Handler (Unit {0})
  unfolding expected_chunk_length store_chunk_file persist_chunk_record refresh_upload_status
  accept_chunk upload artifact artifact_index chunk_index request body removed accepted_at =
      lift (expected_chunk_length upload.chunk_size_bytes artifact chunk_index) >>= λ expected.
      lift (
        reject_if (not (request.byte_length == expected))
          (invalid "chunk length does not match the negotiated chunk layout"))
      >> store_chunk_file ext upload.id artifact_index chunk_index body request
      >> lift (ok_or (ext.format_time accepted_at) internal)
      >>= λ now.
          persist_chunk_record upload artifact_index chunk_index request.byte_length request.sha256
            now
          >> lift (reject_if (not removed) storage_error)
          >> refresh_upload_status upload.id

  -- A chunk that is recorded: the same request is confirmed, another is refused.
  unfoldable pub repeat_chunk : Text → ℕ → ℕ → ChunkRow → ChunkRequest → Handler (Unit {0})
  unfolding to_sqlite_i64 digest_storage_value verify_stored_file
  repeat_chunk upload_id artifact_index chunk_index existing request =
      lift (to_sqlite_i64 request.byte_length) >>= λ size.
      lift (reject_if (differs existing size (digest_storage_value request.sha256)) chunk_conflict)
      >> verify_stored_file ext upload_id artifact_index chunk_index request

  -- The handler after its path and content type are read.
  unfoldable pub put_chunk :
      Text → ℕ → ℕ → Headers → List Frame → Bool → ext.Time → ext.Time → Handler (Unit {0})
  unfolding require_active_upload get_upload_artifact parse_chunk_headers get_chunk repeat_chunk
      accept_chunk
  put_chunk upload_id artifact_index chunk_index headers body removed now later =
      require_active_upload ext upload_id now later >>= λ upload.
      lift (
        reject_if (state_eq upload.status completed)
          (conflict "upload_completed" "completed uploads do not accept artifact bytes"))
      >> gets (λ w. get_upload_artifact upload_id artifact_index w.database)
      >>= λ found.
          lift (ok_or found (invalid "artifact index is outside the negotiated artifact range"))
          >>= λ artifact. lift (parse_chunk_headers ext headers) >>= λ parsed.
              lift (request_chunk parsed upload artifact.1 artifact_index chunk_index)
              >>= λ request. lift (to_sqlite_i64 chunk_index) >>= λ column.
                  gets (λ w. get_chunk upload_id artifact_index column w.database) >>= λ existing.
                  elim existing [
                    | some row ↦ repeat_chunk upload_id artifact_index chunk_index row request
                    | none ↦
                        accept_chunk upload artifact.1 artifact_index chunk_index request body
                          removed later
                  ]

  unfoldable pub put_artifact_chunk :
      Text → Text → Text → Headers → List Frame → Bool → ext.Time → ext.Time → Handler (Unit {0})
  unfolding put_chunk parse_artifact_index parse_u64 validate_octet_stream
  put_artifact_chunk upload_id artifact_index chunk_index headers body removed now later =
      lift (ok_or (ext.parse_uuid upload_id) (invalid "upload identifier is not a UUID")) >>= λ id.
      lift (parse_artifact_index artifact_index) >>= λ artifact.
      lift (ok_or (parse_u64 chunk_index) (invalid "chunk index is not a non-negative integer"))
      >>= λ chunk.
          lift (validate_octet_stream ext headers)
          >> put_chunk id artifact chunk headers body removed now later
