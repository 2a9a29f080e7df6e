-- ===== src/Uploads/Sound/Ending.antt =====
-- Ending an upload keeps the state sound (crates/patwari-server/src/ingestion.rs).
use patwari.Prelude.{
  Bool, Bool-cases, List, Text, [], any-filter, ap, arith, filter, filter-All, inl, inr, map, not,
  sym, text_eq, text_eq_iff, ◌∷◌, ◌≢◌,
}
use patwari.Uploads.Invariant.{UniqueChunks}
use patwari.Uploads.Keeps.{
  Keeps, Keeps->>=, Keeps-files, Keeps-gets, Keeps-if, Keeps-lift, Keeps-modify, Keeps-option,
  Keeps-pure, Keeps-transaction,
}
use patwari.Uploads.Record.{get_upload_artifacts, has_chunk_key}
use patwari.Uploads.Sound.{
  IsSound, StatusHolds, StatusHolds-grows, any-key_filter, get_upload_artifacts-filter,
}
use patwari.Uploads.Terminal.{
  abandon_active, abandon_upload, audit_upload_response, delete_upload, expire_candidate,
  expire_candidates, expire_uploads_at, require_active_upload, set_audits, terminalize_found,
  terminalize_upload_locked,
}
use patwari.Uploads.World.{
  ActiveUploadRow, AuditRow, ChunkRow, Database, TerminalReason, UploadExternal, UploadState,
  expired,
}

filter-UniqueChunks :
    (p : ChunkRow → Bool) (rows : List ChunkRow) → UniqueChunks rows → UniqueChunks (filter p rows)
filter-UniqueChunks p [] u = tt
filter-UniqueChunks p (c ∷ rows) u = elim (Bool-cases (p c)) [
  | inl t ↦ rw t (
    any-filter (has_chunk_key c.upload_id c.artifact_index c.chunk_index) p rows u.0,
    filter-UniqueChunks p rows u.1,
  )
  | inr f ↦ rw f (filter-UniqueChunks p rows u.1)
]

delete_upload-StatusHolds :
    (id : Text) (audits : List AuditRow) (d : Database) (u : ActiveUploadRow)
    → u.id ≢ id
    → StatusHolds d u
    → StatusHolds (delete_upload id (set_audits audits d)) u
unfolding delete_upload set_audits get_upload_artifacts
delete_upload-StatusHolds id audits d u n =
    StatusHolds-grows d (delete_upload id (set_audits audits d)) u
      (ap (map (λ a. a.1)) (sym (get_upload_artifacts-filter u.id id d.upload_artifacts n)))
      (λ artifact i. any-key_filter u.id artifact i id d.upload_chunks n)

delete_upload-IsSound :
    (id : Text) (audits : List AuditRow) (d : Database)
    → IsSound d
    → IsSound (delete_upload id (set_audits audits d))
unfolding delete_upload set_audits
delete_upload-IsSound id audits d s = record {
  columns =
      filter-All _ _ (λ c. not (text_eq c.upload_id id)) d.upload_chunks (λ _ _ h. h) s.columns;
  unique = filter-UniqueChunks (λ c. not (text_eq c.upload_id id)) d.upload_chunks s.unique;
  statuses =
      filter-All (StatusHolds d) (StatusHolds (delete_upload id (set_audits audits d)))
        (λ u. not (text_eq u.id id)) d.uploads
        (λ u t h.
          delete_upload-StatusHolds id audits d u (λ e. ground (arith, t, text_eq_iff u.id id)) h)
        s.statuses;
}

module _ (ext : UploadExternal) where
  terminalize_found-Keeps :
      (upload : ActiveUploadRow) (reason : TerminalReason) (text : Text) (status : UploadState)
      → Keeps IsSound (terminalize_found ext upload reason text status)
  unfolding terminalize_found
  terminalize_found-Keeps upload reason text status =
      Keeps->>=
        (Keeps-transaction
          (Keeps-lift (λ _ _. Keeps-modify _ (λ d s. delete_upload-IsSound upload.id _ d s))))
        (λ _. Keeps-files _)

  pub terminalize-Keeps :
      (upload : ActiveUploadRow) (reason : TerminalReason) (terminal_at : ext.Time)
      → Keeps IsSound (terminalize_upload_locked ext upload reason terminal_at)
  unfolding terminalize_upload_locked
  terminalize-Keeps upload reason terminal_at = Keeps-lift (λ text _. Keeps-gets _ (λ found.
      Keeps-option found (Keeps-pure _)
        (λ row. terminalize_found-Keeps upload reason text row.status)))

  pub require_active_upload-Keeps :
      (id : Text) (now terminal_at : ext.Time)
      → Keeps IsSound (require_active_upload ext id now terminal_at)
  unfolding require_active_upload
  require_active_upload-Keeps id now terminal_at = Keeps-gets _ (λ _. Keeps-lift (λ upload _.
      Keeps-lift (λ is_over _.
        Keeps-if is_over
          (Keeps->>= (terminalize-Keeps upload expired terminal_at) (λ _. (Keeps-pure _)))
          (Keeps-pure _))))

  abandon_active-Keeps :
      (upload : ActiveUploadRow) (now terminal_at : ext.Time)
      → Keeps IsSound (abandon_active ext upload now terminal_at)
  unfolding abandon_active
  abandon_active-Keeps upload now terminal_at =
      Keeps-lift (λ _ _. Keeps-lift (λ is_over _. terminalize-Keeps upload _ terminal_at))

  pub audit_upload_response-Keeps : (id : Text) → Keeps IsSound (audit_upload_response ext id)
  unfolding audit_upload_response
  audit_upload_response-Keeps id = Keeps-gets _ (λ _. Keeps-pure _)

  pub abandon_upload-Keeps :
      (id : Text) (now terminal_at : ext.Time)
      → Keeps IsSound (abandon_upload ext id now terminal_at)
  unfolding abandon_upload
  abandon_upload-Keeps id now terminal_at = Keeps-lift (λ id' _. Keeps-gets _ (λ found.
      Keeps->>=
        (Keeps-option found (Keeps-pure _) (λ upload. abandon_active-Keeps upload now terminal_at))
        (λ _. audit_upload_response-Keeps id')))

  expire_candidate-Keeps :
      (id : Text) (now terminal_at : ext.Time)
      → Keeps IsSound (expire_candidate ext id now terminal_at)
  unfolding expire_candidate
  expire_candidate-Keeps id now terminal_at = Keeps-gets _ (λ found.
      Keeps-option found (Keeps-pure _) (λ upload. Keeps-lift (λ is_over _.
        Keeps-if is_over
          (Keeps->>= (terminalize-Keeps upload expired terminal_at) (λ _. (Keeps-pure _)))
          (Keeps-pure _))))

  expire_candidates-Keeps :
      (ids : List Text) (now terminal_at : ext.Time)
      → Keeps IsSound (expire_candidates ext ids now terminal_at)
  unfolding expire_candidates
  expire_candidates-Keeps [] now terminal_at = Keeps-pure _
  expire_candidates-Keeps (id ∷ ids) now terminal_at =
      Keeps->>= (expire_candidate-Keeps id now terminal_at)
        (λ _. Keeps->>= (expire_candidates-Keeps ids now terminal_at) (λ _. (Keeps-pure _)))

  pub expire_uploads_at-Keeps :
      (now terminal_at : ext.Time) → Keeps IsSound (expire_uploads_at ext now terminal_at)
  unfolding expire_uploads_at
  expire_uploads_at-Keeps now terminal_at =
      Keeps-lift (λ _ _. Keeps-gets _ (λ ids. expire_candidates-Keeps ids now terminal_at))
