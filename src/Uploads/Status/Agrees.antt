-- ===== src/Uploads/Status/Agrees.antt =====
-- The status of an upload and the chunks that are reported missing tell the same
-- (crates/patwari-server/src/ingestion.rs, `upload_is_complete` and `upload_artifact_status`).
use patwari.Prelude.{
  >>=-eq-ok, All, ApiResult, Bool, List, Option, Result-cases, Text, [], ap, arith, err, false,
  if◌then◌else◌, inl, inr, internal, invalid, none, ok, ok-injective, ok_or, pos, refl, some, sym,
  to_u64, true, ℕ, ◌↔◌, ◌∙◌, ◌∷◌, ◌≡◌, ◌≢◌,
}
use patwari.Chunks.{UploadArtifactRow}
use patwari.Uploads.Invariant.{
  AreColumns, HasAllChunks, HasCount, HasEveryChunk, UniqueChunks, to_nat, upload_is_complete_iff,
}
use patwari.Uploads.Record.{get_upload_artifacts, upload_is_complete}
use patwari.Uploads.Reuse.{ManifestExternal}
use patwari.Uploads.Sound.Reachable.{Reach, artifact_uploaded-HasEveryChunk, empty_database}
use patwari.Uploads.Status.Missing.{
  missing-HasEveryChunk, missing_iff, upload_artifact_status-IsReported,
}
use patwari.Uploads.Status.{
  UploadArtifactStatus, UploadStatusResponse, active, active_status, active_upload_status_response,
  artifact_statuses, audit_status, found_status, get_upload_status, terminal_response,
  upload_artifact_status, upload_artifact_statuses,
}
use patwari.Uploads.Terminal.{
  audit_upload_response, get_active_upload, is_expired, terminalize_upload_locked,
}
use patwari.Uploads.World.{
  ActiveUploadRow, AuditRow, Database, Handler, UploadExternal, UploadState, World, after,
  artifact_uploaded, completed, expired, gets, lift, state_eq, ◌>>=◌, ◌>>◌,
}

statuses-missing :
    (id : Text) (rows : List UploadArtifactRow) (d : Database)
    {statuses : List UploadArtifactStatus}
    → artifact_statuses id rows d ≡ ok statuses
    → All HasCount rows
      × (All (λ s. s.missing_chunk_indexes ≡ []) statuses
          ↔ All (HasAllChunks id d.upload_chunks) rows)
unfolding artifact_statuses
statuses-missing id [] d {statuses} e =
    let r : statuses ≡ [] = sym (ok-injective e) in (tt, (λ _. tt, λ _. rw r tt))
statuses-missing id (a ∷ rows) d {statuses} e =
    elim (Result-cases (upload_artifact_status id a d)) [
      | inl (x, y) ↦ ground (arith, y, e)
      | inr (s, y) ↦ elim (Result-cases (artifact_statuses id rows d)) [
        | inl (x, z) ↦ ground (arith, y, z, e)
        | inr (ss, z) ↦
            let r : statuses ≡ s ∷ ss = ground (arith, y, z, e) in
            let reported = upload_artifact_status-IsReported id a d y in
            let here = missing_iff id a d reported in
            let (counts, there) = statuses-missing id rows d {statuses = ss} z in
            (
              (counted a (reported.count), counts),
              rw r (λ h. (here.0 h.0, there.0 h.1), λ h. (here.1 h.0, there.1 h.1)),
            )
      ]
    ]
  where
    counted : (a : UploadArtifactRow) {n : ℕ} → a.chunk_count ≡ pos n → HasCount a
    counted a e = e ∙ ap pos (ap to_nat (sym e))

reported-missing :
    (id : Text) (d : Database) {statuses : List UploadArtifactStatus}
    → upload_artifact_statuses id d ≡ ok statuses
    → All HasCount (get_upload_artifacts id d)
      × (All (λ s. s.missing_chunk_indexes ≡ []) statuses
          ↔ All (HasAllChunks id d.upload_chunks) (get_upload_artifacts id d))
unfolding upload_artifact_statuses
reported-missing id d e = statuses-missing id (get_upload_artifacts id d) d e

-- Where the constraints of `upload_chunks` hold, a response that reports the artifacts reports no
-- missing chunk just when `upload_is_complete` counts the upload complete; assumed is that it has
-- an artifact.
pub upload_artifact_statuses_complete :
    (id : Text) (d : Database) {statuses : List UploadArtifactStatus}
    → AreColumns d.upload_chunks
    → UniqueChunks d.upload_chunks
    → get_upload_artifacts id d ≢ []
    → upload_artifact_statuses id d ≡ ok statuses
    → (upload_is_complete id d ≡ ok true) ↔ All (λ s. s.missing_chunk_indexes ≡ []) statuses
upload_artifact_statuses_complete id d c u n e =
    let (counts, lists) = reported-missing id d e in
    let complete = upload_is_complete_iff id d c u counts n in
    (λ h. lists.1 (complete.0 h), λ h. complete.1 (lists.0 h))

-- Chunk for chunk: what is there is not reported missing.
missing_nothing :
    (id : Text) (rows : List UploadArtifactRow) (d : Database)
    {statuses : List UploadArtifactStatus}
    → artifact_statuses id rows d ≡ ok statuses
    → All (HasEveryChunk id d.upload_chunks) rows
    → All (λ s. s.missing_chunk_indexes ≡ []) statuses
unfolding artifact_statuses
missing_nothing id [] d {statuses} e h = let r : statuses ≡ [] = sym (ok-injective e) in rw r tt
missing_nothing id (a ∷ rows) d {statuses} e h =
    let (s, y, e1) = >>=-eq-ok (upload_artifact_status id a d) _ e in
    let (ss, z, e2) = >>=-eq-ok (artifact_statuses id rows d) _ e1 in
    let r : statuses ≡ s ∷ ss = sym (ok-injective e2) in
    rw r (
      missing-HasEveryChunk id a d (upload_artifact_status-IsReported id a d y) h.0,
      missing_nothing id rows d {statuses = ss} z h.1,
    )

active_response :
    (upload : ActiveUploadRow) (d : Database) {r : UploadStatusResponse}
    → active_upload_status_response upload d ≡ ok r
    → (upload_artifact_statuses upload.id d ≡ ok r.artifacts) × (r.status ≡ active upload.status)
unfolding active_upload_status_response
active_response upload d {r} e = elim (Result-cases (upload_artifact_statuses upload.id d)) [
  | inl (x, y) ↦ ground (arith, y, e)
  | inr (ss, y) ↦ elim (Result-cases (ok_or (to_u64 upload.chunk_size_bytes) internal)) [
    | inl (x, z) ↦ ground (arith, y, z, e)
    | inr (n, z) ↦ ground (arith, y, z, e)
  ]
]

terminal_status :
    (audit : AuditRow) {r : UploadStatusResponse} {u : UploadState}
    → terminal_response audit ≡ ok r
    → r.status ≢ active u
unfolding terminal_response
terminal_status audit {r} {u} e h =
    elim (Result-cases (ok_or (to_u64 audit.chunk_size_bytes) internal)) [
      | inl (x, z) ↦ ground (arith, z, e)
      | inr (n, z) ↦ ground (arith, z, e, h)
    ]

after-ok {ℓ κ} :
    {A : Type ℓ} {B : Type κ} (x : ApiResult A × World) (f : A → Handler B) {b : B}
    → (after x f).0 ≡ ok b
    → (a : A) × (x.0 ≡ ok a) × ((f a x.1).0 ≡ ok b)
after-ok (ok a, w) f e = (a, refl, e)
after-ok (err x, w) f e = cc

module _ (ext : UploadExternal) where
  audit_status-terminal :
      (id : Text) (w : World) {r : UploadStatusResponse} {u : UploadState}
      → (audit_status ext id w).0 ≡ ok r
      → r.status ≢ active u
  unfolding audit_status ◌>>=◌ lift
  audit_status-terminal id w {r} {u} e =
      let (audit, _, e') = after-ok (audit_upload_response ext id w) _ e in
      terminal_status audit {r = r} {u = u} e'

  decided_status :
      (upload : ActiveUploadRow) (terminal_at : ext.Time) (w : World) {r : UploadStatusResponse}
      {u : UploadState} (is_over : Bool)
      → ((if is_over
            then terminalize_upload_locked ext upload expired terminal_at
              >> audit_status ext upload.id
            else gets (λ w. active_upload_status_response upload w.database) >>= λ response.
                lift response)
          w).0
        ≡ ok r
      → r.status ≡ active u
      → active_upload_status_response upload w.database ≡ ok r
  unfolding ◌>>=◌ lift gets
  decided_status upload terminal_at w {r} {u} true e h =
      let (_, _, e') = after-ok (terminalize_upload_locked ext upload expired terminal_at w) _ e in
      absurd (
        audit_status-terminal upload.id
          (terminalize_upload_locked ext upload expired terminal_at w).1 {r = r} {u = u} e' h)
  decided_status upload terminal_at w false e h = e

  active_status-response :
      (upload : ActiveUploadRow) (now terminal_at : ext.Time) (w : World) {r : UploadStatusResponse}
      {u : UploadState}
      → (active_status ext upload now terminal_at w).0 ≡ ok r
      → r.status ≡ active u
      → active_upload_status_response upload w.database ≡ ok r
  unfolding active_status ◌>>=◌ lift
  active_status-response upload now terminal_at w {r} {u} e h =
      let (is_over, _, e') =
        after-ok
          (if state_eq upload.status completed then ok false else is_expired ext upload now, w) _
          e in
      decided_status upload terminal_at w {r = r} {u = u} is_over e' h

  -- A response that reports an active upload is made of the row that is found.
  status-response :
      (id : Text) (now terminal_at : ext.Time) (w : World) {r : UploadStatusResponse}
      {u : UploadState}
      → (get_upload_status ext id now terminal_at w).0 ≡ ok r
      → r.status ≡ active u
      → (id' : Text) × (upload : ActiveUploadRow) × (get_active_upload id' w.database ≡ some upload)
        × (active_upload_status_response upload w.database ≡ ok r)
  unfolding get_upload_status found_status ◌>>=◌ lift gets
  status-response id now terminal_at w {r} {u} e h =
      let (id', _, e') =
        after-ok (ok_or (ext.parse_uuid id) (invalid "upload identifier is not a UUID"), w) _ e in
      found id' (get_active_upload id' w.database) refl e'
    where
      found :
          (id' : Text) (o : Option ActiveUploadRow)
          → get_active_upload id' w.database ≡ o
          → (found_status ext id' o now terminal_at w).0 ≡ ok r
          → (id' : Text) × (upload : ActiveUploadRow) × (get_active_upload id' w.database
              ≡ some upload)
            × (active_upload_status_response upload w.database ≡ ok r)
      found id' none f e = absurd (audit_status-terminal id' w {r = r} {u = u} e h)
      found id' (some upload) f e =
          (id', upload, f, active_status-response upload now terminal_at w {r = r} {u = u} e h)

-- In every state that creations, arrivals of chunks, status requests, completions, abandonments and
-- expiries reach from an archive without uploads, whether they succeed, fail or are dropped after
-- what they have committed: a status response that says `artifact_uploaded` lists no missing chunk
-- of any artifact.
pub get_upload_status-agrees :
    (ext : UploadExternal) (manifests : ManifestExternal) (clients : List (Text × Text))
    {w w' : World}
    → w.database ≡ empty_database clients
    → Reach ext manifests w w'
    → (id : Text) (now terminal_at : ext.Time) {r : UploadStatusResponse}
    → (get_upload_status ext id now terminal_at w').0 ≡ ok r
    → r.status ≡ active artifact_uploaded
    → All (λ s. s.missing_chunk_indexes ≡ []) r.artifacts
unfolding upload_artifact_statuses
get_upload_status-agrees ext manifests clients {w' = w'} e reach id now terminal_at {r} h a =
    let (id', upload, f, g) =
      status-response ext id now terminal_at w' {r = r} {u = artifact_uploaded} h a in
    let (ss, st) = active_response upload w'.database {r = r} g in
    let same : upload.status ≡ artifact_uploaded = ground (arith, st, a) in
    let (counts, _) = reported-missing upload.id w'.database ss in
    missing_nothing upload.id (get_upload_artifacts upload.id w'.database) w'.database ss
      (artifact_uploaded-HasEveryChunk ext manifests clients e reach id' f same counts)
