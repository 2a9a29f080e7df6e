-- ===== src/Uploads/Status/Keeping.antt =====
-- Asking for the status of an upload keeps the state sound, although it may end the upload
-- (crates/patwari-server/src/ingestion.rs, `get_upload_status`).
use patwari.Prelude.{Option, Text, none, some}
use patwari.Uploads.Keeps.{Keeps, Keeps->>=, Keeps-gets, Keeps-if, Keeps-lift, Keeps-pure}
use patwari.Uploads.Sound.Ending.{audit_upload_response-Keeps, terminalize-Keeps}
use patwari.Uploads.Sound.{IsSound}
use patwari.Uploads.Status.{active_status, audit_status, found_status, get_upload_status}
use patwari.Uploads.World.{ActiveUploadRow, UploadExternal, expired}

module _ (ext : UploadExternal) where
  audit_status-Keeps : (id : Text) → Keeps IsSound (audit_status ext id)
  unfolding audit_status
  audit_status-Keeps id = Keeps->>= (audit_upload_response-Keeps ext id) (λ _. (Keeps-pure _))

  active_status-Keeps :
      (upload : ActiveUploadRow) (now terminal_at : ext.Time)
      → Keeps IsSound (active_status ext upload now terminal_at)
  unfolding active_status
  active_status-Keeps upload now terminal_at = Keeps-lift (λ is_over _.
      Keeps-if is_over
        (Keeps->>= (terminalize-Keeps ext upload expired terminal_at)
          (λ _. audit_status-Keeps upload.id))
        (Keeps-gets _ (λ _. (Keeps-pure _))))

  found_status-Keeps :
      (id : Text) (found : Option ActiveUploadRow) (now terminal_at : ext.Time)
      → Keeps IsSound (found_status ext id found now terminal_at)
  unfolding found_status
  found_status-Keeps id none now terminal_at = audit_status-Keeps id
  found_status-Keeps id (some upload) now terminal_at = active_status-Keeps upload now terminal_at

  pub get_upload_status-Keeps :
      (id : Text) (now terminal_at : ext.Time)
      → Keeps IsSound (get_upload_status ext id now terminal_at)
  unfolding get_upload_status
  get_upload_status-Keeps id now terminal_at =
      Keeps-lift (λ id' _. Keeps-gets _ (λ found. found_status-Keeps id' found now terminal_at))
