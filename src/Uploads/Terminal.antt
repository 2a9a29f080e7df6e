-- ===== src/Uploads/Terminal.antt =====
-- How an upload ends without a snapshot: `get_active_upload`, `is_expired`,
-- `terminalize_upload_locked`, `abandon_upload`, `expire_uploads_at`, `require_active_upload` and
-- `audit_upload_response` (crates/patwari-server/src/ingestion.rs). The clock is read more than
-- once in a handler; the arguments `now` and `terminal_at` are the times that it shows.
use patwari.Prelude.{
  ApiResult, Bool, List, Option, String, Text, [], any, conflict, database_error, err, false,
  filter, if◌then◌else◌, internal, invalid, map, none, not, not_found, ok, ok_or, reject_if, some,
  text_eq, text_leb, ℕ, ◌&&◌, ◌++◌, ◌+◌, ◌∷◌,
}
use patwari.Uploads.World.{
  ActiveUploadRow, AuditRow, ChunkFile, Database, Handler, TerminalReason, UploadExternal,
  UploadState, abandoned, completed, expired, find, gets, lift, modify_database, modify_files,
  state_eq, transaction, ◌>>=◌, ◌>>◌,
}

unfoldable pub get_active_upload : Text → Database → Option ActiveUploadRow
get_active_upload upload_id database = find (λ u. text_eq u.id upload_id) database.uploads

abbrev pub error_code : TerminalReason → String
error_code abandoned = "upload_abandoned"
error_code expired = "upload_expired"

module _ (ext : UploadExternal) where
  unfoldable pub is_expired : ActiveUploadRow → ext.Time → ApiResult Bool
  is_expired upload now = elim (ok_or (ext.parse_time upload.expires_at) database_error) [
    | ok expires_at ↦ ok (ext.time_leb expires_at now)
    | err e ↦ err e
  ]

-- The row that `terminalize_upload_locked` inserts.
abbrev pub audit_of : ActiveUploadRow → TerminalReason → Text → AuditRow
audit_of upload reason terminal_at = record {
  upload_id = upload.id;
  owner_namespace = upload.owner_namespace;
  client_id = upload.client_id;
  capture_id = upload.capture_id;
  session_id = upload.session_id;
  declared_original_size_bytes = upload.declared_original_size_bytes;
  declared_stored_size_bytes = upload.declared_stored_size_bytes;
  chunk_size_bytes = upload.chunk_size_bytes;
  chunk_count = upload.chunk_count;
  created_at = upload.created_at;
  terminal_at = terminal_at;
  terminal_reason = reason;
  error_code = error_code reason;
  artifact_count = upload.artifact_count;
  total_original_size_bytes = upload.total_original_size_bytes;
  total_stored_size_bytes = upload.total_stored_size_bytes;
  manifest_sha256 = some upload.manifest_sha256;
}

-- `INSERT .. ON CONFLICT(upload_id) DO NOTHING`
unfoldable pub insert_audit : AuditRow → List AuditRow → List AuditRow
insert_audit row audits =
    if any (λ a. text_eq a.upload_id row.upload_id) audits then audits else audits ++ (row ∷ [])

-- The deletions of an upload's rows; those of `upload_artifacts` follow by ON DELETE CASCADE.
unfoldable pub delete_upload : Text → Database → Database
delete_upload id database = record {
  clients = database.clients;
  sessions = database.sessions;
  uploads = filter (λ u. not (text_eq u.id id)) database.uploads;
  upload_artifacts = filter (λ a. not (text_eq a.0 id)) database.upload_artifacts;
  upload_chunks = filter (λ c. not (text_eq c.upload_id id)) database.upload_chunks;
  manifests = filter (λ m. not (text_eq m.upload_id id)) database.manifests;
  upload_audits = database.upload_audits;
}

unfoldable pub set_audits : List AuditRow → Database → Database
set_audits audits database = record {
  clients = database.clients;
  sessions = database.sessions;
  uploads = database.uploads;
  upload_artifacts = database.upload_artifacts;
  upload_chunks = database.upload_chunks;
  manifests = database.manifests;
  upload_audits = audits;
}

unfoldable pub remove_upload_dir : Text → List ChunkFile → List ChunkFile
remove_upload_dir id files = filter (λ f. not (text_eq f.upload_id id)) files

module _ (ext : UploadExternal) where
  -- The part of the transaction after the upload's row was found in a state.
  unfoldable pub terminalize_found :
      ActiveUploadRow → TerminalReason → Text → UploadState → Handler (Unit {0})
  unfolding insert_audit delete_upload set_audits remove_upload_dir
  terminalize_found upload reason terminal_at status =
      transaction (
        lift (
          reject_if (state_eq status completed)
            (conflict "upload_completed" "completed uploads cannot be abandoned"))
        >> modify_database (λ d.
          delete_upload upload.id
            (set_audits (insert_audit (audit_of upload reason terminal_at) d.upload_audits) d)))
      >> modify_files (remove_upload_dir upload.id)

  unfoldable pub terminalize_upload_locked :
      ActiveUploadRow → TerminalReason → ext.Time → Handler (Unit {0})
  unfolding terminalize_found get_active_upload
  terminalize_upload_locked upload reason terminal_at =
      lift (ok_or (ext.format_time terminal_at) internal) >>= λ terminal_text.
      gets (λ w. get_active_upload upload.id w.database) >>= λ current. elim current [
        | none ↦ lift (ok tt)
        | some row ↦ terminalize_found upload reason terminal_text row.status
      ]

  unfoldable pub require_active_upload : Text → ext.Time → ext.Time → Handler ActiveUploadRow
  unfolding get_active_upload is_expired terminalize_upload_locked
  require_active_upload upload_id now terminal_at =
      gets (λ w. get_active_upload upload_id w.database) >>= λ found.
      lift (ok_or found (not_found "upload_not_found" "upload was not found")) >>= λ upload.
      lift (if state_eq upload.status completed then ok false else is_expired ext upload now)
      >>= λ is_over.
          if is_over
          then terminalize_upload_locked upload expired terminal_at
            >> lift (
                err (
                  conflict "upload_expired" "upload expired before this request could be accepted"))
          else lift (ok upload)

  -- The body of `audit_upload_response`: the audit row that is reported.
  unfoldable pub audit_upload_response : Text → Handler AuditRow
  audit_upload_response upload_id =
      gets (λ w. find (λ a. text_eq a.upload_id upload_id) w.database.upload_audits) >>= λ audit.
      lift (ok_or audit (not_found "upload_not_found" "upload was not found"))

  unfoldable pub abandon_active : ActiveUploadRow → ext.Time → ext.Time → Handler (Unit {0})
  unfolding is_expired terminalize_upload_locked
  abandon_active upload now terminal_at =
      lift (
        reject_if (state_eq upload.status completed)
          (conflict "upload_completed" "completed uploads cannot be abandoned"))
      >> lift (is_expired ext upload now)
      >>= λ is_over.
          terminalize_upload_locked upload (if is_over then expired else abandoned) terminal_at

  unfoldable pub abandon_upload : Text → ext.Time → ext.Time → Handler AuditRow
  unfolding abandon_active audit_upload_response get_active_upload
  abandon_upload upload_id now terminal_at =
      lift (ok_or (ext.parse_uuid upload_id) (invalid "upload identifier is not a UUID")) >>= λ id.
      gets (λ w. get_active_upload id w.database) >>= λ found.
      elim found [ none ↦ lift (ok tt) | some upload ↦ abandon_active upload now terminal_at ]
      >> audit_upload_response id

  -- The body of the loop of `expire_uploads_at` for one candidate: how many uploads it ended. Its
  -- errors, which the source joins to one `MaintenanceError`, are those of the step that failed.
  unfoldable pub expire_candidate : Text → ext.Time → ext.Time → Handler ℕ
  unfolding is_expired terminalize_upload_locked get_active_upload
  expire_candidate upload_id now terminal_at =
      gets (λ w. get_active_upload upload_id w.database) >>= λ found. elim found [
        | none ↦ lift (ok 0)
        | some upload ↦
            lift (if state_eq upload.status completed then ok false else is_expired ext upload now)
            >>= λ is_over.
                if is_over
                then terminalize_upload_locked upload expired terminal_at >> lift (ok 1)
                else lift (ok 0)
      ]

  unfoldable pub expire_candidates : List Text → ext.Time → ext.Time → Handler ℕ
  unfolding expire_candidate
  expire_candidates [] now terminal_at = lift (ok 0)
  expire_candidates (id ∷ ids) now terminal_at = expire_candidate id now terminal_at >>= λ ended.
      expire_candidates ids now terminal_at >>= λ rest. lift (ok (ended + rest))

  -- The candidates are selected by the text of their time.
  unfoldable pub expiry_candidates : Text → Database → List Text
  unfolding text_leb
  expiry_candidates now_text database =
      map (λ u. u.id)
        (filter (λ u. not (state_eq u.status completed) && text_leb u.expires_at now_text)
          database.uploads)

  unfoldable pub expire_uploads_at : ext.Time → ext.Time → Handler ℕ
  unfolding expiry_candidates expire_candidates
  expire_uploads_at now terminal_at = lift (ok_or (ext.format_time now) internal) >>= λ now_text.
      gets (λ w. expiry_candidates now_text w.database) >>= λ candidates.
      expire_candidates candidates now terminal_at
