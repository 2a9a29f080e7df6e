-- ===== src/Uploads/Sound/Arrival.antt =====
-- The arrival of a chunk keeps the state sound (crates/patwari-server/src/ingestion.rs).
use patwari.Prelude.{Bool, List, Option-cases, Result-cases, Text, inl, inr, ℕ}
use patwari.Chunks.{UploadArtifactRow}
use patwari.Uploads.Keeps.{
  Keeps, Keeps->>=, Keeps-gets, Keeps-lift, Keeps-option, Keeps-transaction,
}
use patwari.Uploads.Record.{persist_chunk_record, refresh_upload_status}
use patwari.Uploads.Request.{
  ChunkRequest, Frame, Headers, chunk_file, link_chunk_file, store_chunk_file, verify_content,
  verify_stored_file,
}
use patwari.Uploads.Sound.Ending.{require_active_upload-Keeps}
use patwari.Uploads.Sound.Rows.{insertion-Keeps, refresh-IsSound}
use patwari.Uploads.Sound.{IsSound}
use patwari.Uploads.Transfer.{accept_chunk, put_artifact_chunk, put_chunk, repeat_chunk}
use patwari.Uploads.World.{ActiveUploadRow, ChunkRow, UploadExternal, modify_files}

pub persist_chunk_record-Keeps :
    (upload : ActiveUploadRow) (artifact chunk size : ℕ) (sha256 at : Text)
    → Keeps IsSound (persist_chunk_record upload artifact chunk size sha256 at)
unfolding persist_chunk_record
persist_chunk_record-Keeps upload artifact chunk size sha256 at =
    Keeps-transaction (insertion-Keeps upload artifact chunk size sha256 at)

refresh_upload_status-Keeps : (id : Text) → Keeps IsSound (refresh_upload_status id)
refresh_upload_status-Keeps id = record { run = λ w s. refresh-IsSound id w s }

module _ (ext : UploadExternal) where
  link_chunk_file-Keeps :
      (id : Text) (artifact chunk : ℕ) (content : Text) (expected : ChunkRequest)
      → Keeps IsSound (link_chunk_file ext id artifact chunk content expected)
  unfolding link_chunk_file modify_files
  link_chunk_file-Keeps id artifact chunk content expected = record {
    run = λ w s. elim (Option-cases (chunk_file ext id artifact chunk w)) [
      | inl n ↦ rw (n, link_chunk_file) s
      | inr (file, f) ↦ elim (Result-cases (verify_content ext file.content expected)) [
        | inl (e, v) ↦ rw (f, link_chunk_file) (rw v s)
        | inr (u, v) ↦ rw (f, link_chunk_file) (rw v s)
      ]
    ];
  }

  pub store_chunk_file-Keeps :
      (id : Text) (artifact chunk : ℕ) (body : List Frame) (expected : ChunkRequest)
      → Keeps IsSound (store_chunk_file ext id artifact chunk body expected)
  unfolding store_chunk_file
  store_chunk_file-Keeps id artifact chunk body expected =
      Keeps-lift (λ content _. link_chunk_file-Keeps id artifact chunk content expected)

  verify_stored_file-Keeps :
      (id : Text) (artifact chunk : ℕ) (expected : ChunkRequest)
      → Keeps IsSound (verify_stored_file ext id artifact chunk expected)
  unfolding verify_stored_file
  verify_stored_file-Keeps id artifact chunk expected = record {
    run = λ w s. elim (Option-cases (chunk_file ext id artifact chunk w)) [
      | inl n ↦ rw (n, verify_stored_file) s
      | inr (file, f) ↦ rw (f, verify_stored_file) s
    ];
  }

  accept_chunk-Keeps :
      (upload : ActiveUploadRow) (artifact : UploadArtifactRow) (artifact_index chunk_index : ℕ)
      (request : ChunkRequest) (body : List Frame) (removed : Bool) (at : ext.Time)
      → Keeps IsSound
          (accept_chunk ext upload artifact artifact_index chunk_index request body removed at)
  unfolding accept_chunk
  accept_chunk-Keeps upload artifact artifact_index chunk_index request body removed at =
      Keeps-lift (λ _ _. Keeps-lift (λ _ _.
        Keeps->>= (store_chunk_file-Keeps upload.id artifact_index chunk_index body request) (λ _.
          Keeps-lift (λ now _.
            Keeps->>=
              (persist_chunk_record-Keeps upload artifact_index chunk_index request.byte_length
                request.sha256 now)
              (λ _. Keeps-lift (λ _ _. refresh_upload_status-Keeps upload.id))))))

  repeat_chunk-Keeps :
      (id : Text) (artifact_index chunk_index : ℕ) (existing : ChunkRow) (request : ChunkRequest)
      → Keeps IsSound (repeat_chunk ext id artifact_index chunk_index existing request)
  unfolding repeat_chunk
  repeat_chunk-Keeps id artifact_index chunk_index existing request =
      Keeps-lift
        (λ _ _. Keeps-lift (λ _ _. verify_stored_file-Keeps id artifact_index chunk_index request))

  put_chunk-Keeps :
      (id : Text) (artifact_index chunk_index : ℕ) (headers : Headers) (body : List Frame)
      (removed : Bool) (now later : ext.Time)
      → Keeps IsSound (put_chunk ext id artifact_index chunk_index headers body removed now later)
  unfolding put_chunk
  put_chunk-Keeps id artifact_index chunk_index headers body removed now later =
      Keeps->>= (require_active_upload-Keeps ext id now later) (λ upload. Keeps-lift (λ _ _.
        Keeps-gets _ (λ _. Keeps-lift (λ artifact _. Keeps-lift (λ _ _. Keeps-lift (λ request _.
          Keeps-lift (λ _ _. Keeps-gets _ (λ existing.
            Keeps-option existing
              (accept_chunk-Keeps upload artifact.1 artifact_index chunk_index request body removed
                later)
              (λ row. repeat_chunk-Keeps id artifact_index chunk_index row request)))))))))

  pub put_artifact_chunk-Keeps :
      (id artifact_index chunk_index : Text) (headers : Headers) (body : List Frame)
      (removed : Bool) (now later : ext.Time)
      → Keeps IsSound
          (put_artifact_chunk ext id artifact_index chunk_index headers body removed now later)
  unfolding put_artifact_chunk
  put_artifact_chunk-Keeps id artifact_index chunk_index headers body removed now later =
      Keeps-lift (λ id' _. Keeps-lift (λ a _.
        Keeps-lift
          (λ c _. Keeps-lift (λ _ _. put_chunk-Keeps id' a c headers body removed now later))))
