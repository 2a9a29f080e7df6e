-- ===== src/Uploads/Sound/Reachable.antt =====
-- The states that creations, chunk arrivals, completions and the ends of uploads reach
-- (crates/patwari-server/src/ingestion.rs).
use patwari.Prelude.{
  All, Bool, Bool-cases, List, Result-cases, Text, [], arith, inl, inr, length, ok, some, subst,
  sym, text_eq, ℕ, ◌+◌, ◌∷◌, ◌≡◌,
}
use patwari.Chunks.{chunk_count}
use patwari.Contract.{Artifact, Manifest}
use patwari.Uploads.Create.{persist_upload}
use patwari.Uploads.Invariant.{HasCount, HasEveryChunk}
use patwari.Uploads.Layout.{UploadLayout, layout_counts, upload_layout}
use patwari.Uploads.Record.{set_uploads, get_upload_artifacts}
use patwari.Uploads.Request.{Frame, Headers}
use patwari.Uploads.Reuse.{Creation, ManifestExternal}
use patwari.Uploads.Sound.Arrival.{put_artifact_chunk-Keeps}
use patwari.Uploads.Sound.Creation.{IsFresh}
use patwari.Uploads.Sound.Ending.{
  abandon_upload-Keeps, expire_uploads_at-Keeps, require_active_upload-Keeps,
}
use patwari.Uploads.Sound.Persist.{persist_upload-Leads}
use patwari.Uploads.Sound.Rows.{completed-StatusHolds}
use patwari.Completion.Provenance.{complete_rows}
use patwari.Uploads.Sound.{IsSound, StatusHolds}
use patwari.Uploads.Status.Keeping.{get_upload_status-Keeps}
use patwari.Uploads.Status.{get_upload_status}
use patwari.Uploads.Terminal.{
  abandon_upload, expire_uploads_at, get_active_upload, require_active_upload,
}
use patwari.Uploads.Transfer.{put_artifact_chunk}
use patwari.Uploads.World.{
  ActiveUploadRow, Database, UploadExternal, World, artifact_uploaded, find,
}
use patwari.Validation.Fields.{capture_id}
use patwari.Validation.Manifest.{manifest_totals}

layout_counts-length :
    (artifacts : List Artifact) (size total : ℕ) {counts : List ℕ}
    → layout_counts artifacts size total ≡ ok counts
    → length artifacts ≡ length counts
unfolding layout_counts
layout_counts-length [] size total h = ground arith
layout_counts-length (a ∷ rest) size total {counts} h =
    elim (Result-cases (chunk_count a.stored_size_bytes size)) [
      | inl (e, x) ↦ ground (arith, x)
      | inr (n, x) ↦ elim (Result-cases (layout_counts rest size (total + n))) [
        | inl (e, y) ↦ ground (arith, x, y)
        | inr (ns, y) ↦ ground (arith, x, y, layout_counts-length rest size (total + n) y)
      ]
    ]

upload_layout-length :
    (m : Manifest) (size : ℕ) {layout : UploadLayout}
    → upload_layout m size ≡ ok layout
    → length m.artifacts ≡ length layout.chunk_counts
unfolding upload_layout
upload_layout-length m size {layout} h = elim (Result-cases (manifest_totals m)) [
  | inl (e, x) ↦ ground (arith, x)
  | inr (t, x) ↦ elim (Result-cases (layout_counts m.artifacts size 0)) [
    | inl (e, y) ↦ ground (arith, x, y)
    | inr (ns, y) ↦ ground (arith, x, y, layout_counts-length m.artifacts size 0 y)
  ]
]

module _ (ext : UploadExternal) (manifests : ManifestExternal) where
  -- What one of these handlers commits, whether it succeeds or fails. A new upload has a new UUID.
  -- A handler that is dropped (`TimeoutLayer`) leaves what it has committed, and the files in any
  -- state: dropped between the row of a chunk and the status, the database of `chunk` with a
  -- removal that fails, and dropped among the uploads that it expires, that of some `request`
  -- steps. Of a completion the step has the UPDATE of the upload, the only statement of it on these
  -- tables. The recovery at the start is not among the steps.
  pub data Step : World → World → Type 1 where
    creation :
        (c : Creation) (client_id capture_id : Text) (m : Manifest) (json h : Text) (size : ℕ)
        (layout : UploadLayout) {w w' : World}
        → upload_layout m size ≡ ok layout
        → IsFresh c.upload_id w.database
        → w' ≡ (persist_upload manifests c client_id capture_id m json h layout w).1
        → Step w w'
    chunk :
        (id artifact_index chunk_index : Text) (headers : Headers) (body : List Frame)
        (removed : Bool) (now later : ext.Time) {w w' : World}
        → w'
          ≡ (put_artifact_chunk ext id artifact_index chunk_index headers body removed now later
              w).1
        → Step w w'
    abandonment :
        (id : Text) (now later : ext.Time) {w w' : World}
        → w' ≡ (abandon_upload ext id now later w).1
        → Step w w'
    expiry :
        (now later : ext.Time) {w w' : World}
        → w' ≡ (expire_uploads_at ext now later w).1
        → Step w w'
    request :
        (id : Text) (now later : ext.Time) {w w' : World}
        → w' ≡ (require_active_upload ext id now later w).1
        → Step w w'
    status :
        (id : Text) (now later : ext.Time) {w w' : World}
        → w' ≡ (get_upload_status ext id now later w).1
        → Step w w'
    completion :
        (id snapshot now : Text) {w w' : World}
        → w'.database ≡ set_uploads (complete_rows id snapshot now w.database.uploads).1 w.database
        → Step w w'
    dropped : {w w' : World} → w'.database ≡ w.database → Step w w'

  pub data Reach : World → World → Type 1 where
    start : {w : World} → Reach w w
    next : {w w' w'' : World} → Reach w w' → Step w' w'' → Reach w w''

  Step-IsSound : {w w' : World} → Step w w' → IsSound w.database → IsSound w'.database
  Step-IsSound (creation c client_id capture_id m json h size layout {w = w} l f e) s =
      subst (λ x. IsSound x.database) (sym e)
        ((persist_upload-Leads manifests c client_id capture_id m json h layout
            (upload_layout-length m size l)).run
          w (s, f))
  Step-IsSound (chunk id a c headers body removed now later {w = w} e) s =
      subst (λ x. IsSound x.database) (sym e)
        ((put_artifact_chunk-Keeps ext id a c headers body removed now later).run w s)
  Step-IsSound (abandonment id now later {w = w} e) s =
      subst (λ x. IsSound x.database) (sym e) ((abandon_upload-Keeps ext id now later).run w s)
  Step-IsSound (expiry now later {w = w} e) s =
      subst (λ x. IsSound x.database) (sym e) ((expire_uploads_at-Keeps ext now later).run w s)
  Step-IsSound (request id now later {w = w} e) s =
      subst (λ x. IsSound x.database) (sym e)
        ((require_active_upload-Keeps ext id now later).run w s)
  Step-IsSound (status id now later {w = w} e) s =
      subst (λ x. IsSound x.database) (sym e) ((get_upload_status-Keeps ext id now later).run w s)
  Step-IsSound (completion id snapshot now {w = w} e) s = subst IsSound (sym e) (record {
    columns = s.columns;
    unique = s.unique;
    statuses =
        completed-StatusHolds id w.database snapshot now w.database.uploads
          (complete_rows id snapshot now w.database.uploads).1 s.statuses;
  })
  Step-IsSound (dropped e) s = subst IsSound (sym e) s

  -- Creations, arrivals of chunks, status requests, completions, abandonments and expiries, in
  -- whatever order, whether they succeed, fail or are dropped after what they have committed, keep
  -- these: no two recorded chunks have the same key, chunk indexes are not negative, and every
  -- upload with the status `artifact_uploaded` whose artifacts' counts are not negative has all of
  -- their chunks.
  pub Reach-IsSound : {w w' : World} → Reach w w' → IsSound w.database → IsSound w'.database
  Reach-IsSound start s = s
  Reach-IsSound (next r t) s = Step-IsSound t (Reach-IsSound r s)

pub found-All {κ} :
    (P : ActiveUploadRow → Type κ) (p : ActiveUploadRow → Bool) (us : List ActiveUploadRow)
    (u : ActiveUploadRow)
    → find p us ≡ some u
    → All P us
    → P u
found-All P p [] u h a = ground arith
found-All P p (v ∷ us) u h a = elim (Bool-cases (p v)) [
  | inl t ↦ subst P (ground (arith, t)) a.0
  | inr e ↦ found-All P p us u (ground (arith, e)) a.1
]

-- A database without uploads.
abbrev pub empty_database : List (Text × Text) → Database
empty_database clients = record {
  clients = clients;
  sessions = [];
  uploads = [];
  upload_artifacts = [];
  upload_chunks = [];
  manifests = [];
  upload_audits = [];
}

empty-IsSound : (clients : List (Text × Text)) → IsSound (empty_database clients)
empty-IsSound clients = record { columns = tt; unique = tt; statuses = tt }

-- In every state that creations, arrivals of chunks, status requests, completions, abandonments and
-- expiries reach from an archive without uploads, whether they succeed, fail or are dropped after
-- what they have committed: an upload that is found with the status `artifact_uploaded` has every
-- chunk below the chunk count of each of its artifacts; assumed is that these counts are not
-- negative.
pub artifact_uploaded-HasEveryChunk :
    (ext : UploadExternal) (manifests : ManifestExternal) (clients : List (Text × Text))
    {w w' : World}
    → w.database ≡ empty_database clients
    → Reach ext manifests w w'
    → (id : Text) {u : ActiveUploadRow} → get_active_upload id w'.database ≡ some u
    → u.status ≡ artifact_uploaded
    → All HasCount (get_upload_artifacts u.id w'.database)
    → All (HasEveryChunk u.id w'.database.upload_chunks) (get_upload_artifacts u.id w'.database)
unfolding get_active_upload
artifact_uploaded-HasEveryChunk ext manifests clients {w' = w'} e r id {u = u} f s c =
    let sound = Reach-IsSound ext manifests r (subst IsSound (sym e) (empty-IsSound clients)) in
    found-All (StatusHolds w'.database) (λ v. text_eq v.id id) w'.database.uploads u f
      sound.statuses s c
