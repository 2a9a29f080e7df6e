-- ===== src/Uploads/Sound/Persist.antt =====
-- `persist_upload` keeps the state sound (crates/patwari-server/src/ingestion.rs).
use patwari.Prelude.{All-map, List, Text, length, refl, subst, ◌≡◌}
use patwari.Contract.{Manifest, SessionInput}
use patwari.Uploads.Create.{persist_row, persist_upload}
use patwari.Uploads.Keeps.{Keeps, Keeps->>=, Keeps-gets, Keeps-lift, Keeps-modify, Keeps-pure}
use patwari.Uploads.Layout.{UploadLayout}
use patwari.Uploads.Leads.{
  Leads, Leads->>=, Leads-Keeps, Leads-gets, Leads-lift, Leads-modify, Leads-option,
  Leads-transaction,
}
use patwari.Uploads.NewRow.{initial_status}
use patwari.Uploads.Record.{get_upload_artifacts}
use patwari.Uploads.Reuse.{Creation, ManifestExternal, ensure_terminal_capture_reuse_is_equivalent}
use patwari.Uploads.Session.{get_or_create_session, set_sessions}
use patwari.Uploads.Sound.Creation.{IsFresh, add_upload-IsSound, upload_row-id}
use patwari.Uploads.Sound.{IsSound, StatusHolds-grows}
use patwari.Uploads.World.{ActiveUploadRow, Database, SessionRow}
use patwari.Validation.Fields.{capture_id}

-- Sound, and an id that no row has.
abbrev pub IsReady : Text → Database → Type 0
IsReady id d = IsSound d × IsFresh id d

sessions-IsReady :
    (id : Text) (sessions : List SessionRow) (d : Database)
    → IsReady id d
    → IsReady id (set_sessions sessions d)
unfolding get_upload_artifacts
sessions-IsReady id sessions d s = (
  record {
    columns = s.0.columns;
    unique = s.0.unique;
    statuses =
        All-map _ _ d.uploads
          (λ u. StatusHolds-grows d (set_sessions sessions d) u refl (λ _ _ t. t)) s.0.statuses;
  },
  record { no_upload = s.1.no_upload; no_artifact = s.1.no_artifact },
)

module _ (ext : ManifestExternal) where
  session-Keeps :
      (creation : Creation) (client_id : Text) (session : SessionInput)
      → Keeps (IsReady creation.upload_id) (get_or_create_session creation client_id session)
  unfolding get_or_create_session
  session-Keeps creation client_id session = Keeps-gets _ (λ _. Keeps-lift (λ _ _.
      Keeps->>= (Keeps-modify _ (λ d s. sessions-IsReady creation.upload_id _ d s))
        (λ _. Keeps-gets _ (λ _. Keeps-pure _))))

  reuse-Keeps :
      (id owner client_id capture_id : Text) (m : Manifest) (h : Text)
      → Keeps
          (IsReady id)
          (ensure_terminal_capture_reuse_is_equivalent ext owner client_id capture_id m h)
  unfolding ensure_terminal_capture_reuse_is_equivalent
  reuse-Keeps id owner client_id capture_id m h = Keeps-gets _ (λ _. Keeps-pure _)

  persist_row-Leads :
      (creation : Creation) (row : ActiveUploadRow) (m : Manifest) (json : Text)
      (layout : UploadLayout)
      → row.status ≡ initial_status layout.chunk_counts
      → length m.artifacts ≡ length layout.chunk_counts
      → Leads (IsReady row.id) IsSound (persist_row ext creation row m json layout)
  unfolding persist_row
  persist_row-Leads creation row m json layout st l =
      Leads-gets _ _ (λ d s. s.0) _
        (λ existing.
          Leads-option _ _ (λ d s. s.0) existing
            (Leads-lift _ _ (λ d s. s.0)
              (λ rows e.
                Leads-modify _ _ (λ d s. s.0) _ _
                  (λ d s.
                    add_upload-IsSound row _ m.artifacts layout.chunk_counts rows d s.0 s.1 st l e)
                  (Keeps-pure _)))
            (λ old.
              Leads-Keeps _ _ (λ d s. s.0)
                (Keeps-gets _ (λ _. Keeps-lift (λ _ _. Keeps-lift (λ _ _. Keeps-pure _))))))

  pub persist_upload-Leads :
      (creation : Creation) (client_id capture_id : Text) (m : Manifest) (json h : Text)
      (layout : UploadLayout)
      → length m.artifacts ≡ length layout.chunk_counts
      → Leads
          (IsReady creation.upload_id)
          IsSound
          (persist_upload ext creation client_id capture_id m json h layout)
  unfolding persist_upload
  persist_upload-Leads creation client_id capture_id m json h layout l =
      Leads-transaction _ _ (λ d s. s.0)
        (Leads->>= _ _ (λ d s. s.0) (session-Keeps creation client_id m.session)
          (λ session_id.
            Leads->>= _ _ (λ d s. s.0) (reuse-Keeps creation.upload_id _ client_id capture_id m h)
              (λ _.
                Leads-lift _ _ (λ d s. s.0)
                  (λ row e.
                    let (same, st) =
                      upload_row-id creation session_id client_id capture_id h m layout e in
                    subst
                      (λ id.
                        Leads (IsReady id) IsSound (persist_row ext creation row m json layout))
                      same (persist_row-Leads creation row m json layout st l)))))
