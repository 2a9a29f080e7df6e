-- ===== src/Uploads/Ended.antt =====
-- What `terminalize_upload_locked` does to the upload it ends, and to the others
-- (crates/patwari-server/src/ingestion.rs).
use patwari.Prelude.{All, Text, any, none, text_eq, true, ◌≡◌, ◌≢◌}
use patwari.Uploads.Terminal.{get_active_upload}
use patwari.Uploads.World.{World}

-- Nothing of an upload is left but its audit row, and the other uploads are as they were.
pub record IsEnded (id : Text) (before after : World) : Type 0 where
  pub no_upload : get_active_upload id after.database ≡ none
  pub no_artifact : All (λ a. a.0 ≢ id) after.database.upload_artifacts
  pub no_chunk : All (λ c. c.upload_id ≢ id) after.database.upload_chunks
  pub no_manifest : All (λ m. m.upload_id ≢ id) after.database.manifests
  pub no_file : All (λ f. f.upload_id ≢ id) after.chunk_files
  pub audited : any (λ a. text_eq a.upload_id id) after.database.upload_audits ≡ true
  pub others :
      (other : Text)
      → other ≢ id
      → get_active_upload other after.database ≡ get_active_upload other before.database
