-- ===== src/Completion/Provenance.antt =====
-- The rows that record whose upload became which snapshot: the upload's own row, its capture and the
-- latest context of its session (crates/patwari-server/src/ingestion.rs).
use patwari.Prelude.{
  ApiError, Bool, List, Option, Text, [], any, conflict, database_error, err, false, filter,
  if◌then◌else◌, int_eq, int_ltb, internal, not, ok, ok_or, pos, some, text_eq, text_leb, true, ℕ,
  ℤ, ◌&&◌, ◌++◌, ◌||◌, ◌∷◌,
}
use patwari.Completion.Store.{
  CaptureRow, Commit, LatestContext, Tables, Transfer, is_live_snapshot, reads, returns,
  with_tables, writes, ◌>>>=◌,
}
use patwari.Contract.{Manifest}
use patwari.Pagination.{CursorExternal, sort_key_from_rfc3339}
use patwari.Uploads.World.{ActiveUploadRow, artifact_uploaded, completed, created, find, state_eq}

abbrev pub set_uploads : List ActiveUploadRow → List Transfer → Tables → Tables
set_uploads uploads transfers t = record {
  uploads = uploads;
  transfers = transfers;
  manifests = t.manifests;
  blobs = t.blobs;
  snapshots = t.snapshots;
  artifacts = t.artifacts;
  captures = t.captures;
  latest_contexts = t.latest_contexts;
  tombstones = t.tombstones;
}

abbrev pub set_provenance : List CaptureRow → List LatestContext → Tables → Tables
set_provenance captures contexts t = record {
  uploads = t.uploads;
  transfers = t.transfers;
  manifests = t.manifests;
  blobs = t.blobs;
  snapshots = t.snapshots;
  artifacts = t.artifacts;
  captures = captures;
  latest_contexts = contexts;
  tombstones = t.tombstones;
}

-- `excluded` is newer than the row that is there.
unfoldable pub is_newer : LatestContext → LatestContext → Bool
unfolding text_leb
is_newer excluded row =
    int_ltb row.completed_at_seq excluded.completed_at_seq
    || (int_eq excluded.completed_at_seq row.completed_at_seq
        && not (text_leb excluded.snapshot_id row.snapshot_id))

-- `ON CONFLICT(session_id) DO UPDATE ... WHERE`
unfoldable pub upsert_context : LatestContext → List LatestContext → List LatestContext
unfolding is_newer text_eq
upsert_context excluded [] = excluded ∷ []
upsert_context excluded (row ∷ rows) =
    let rest = upsert_context excluded rows in
    if text_eq row.session_id excluded.session_id
    then (if is_newer excluded row then excluded else row) ∷ rows
    else row ∷ rest

abbrev pub is_open : ActiveUploadRow → Bool
is_open u = state_eq u.status created || state_eq u.status artifact_uploaded

abbrev pub completed_row : Text → Text → ActiveUploadRow → ActiveUploadRow
completed_row snapshot_id now u = record {
  id = u.id;
  owner_namespace = u.owner_namespace;
  session_id = u.session_id;
  client_id = u.client_id;
  capture_id = u.capture_id;
  manifest_sha256 = u.manifest_sha256;
  status = completed;
  snapshot_id = some snapshot_id;
  created_at = u.created_at;
  completed_at = some now;
  chunk_size_bytes = u.chunk_size_bytes;
  chunk_count = u.chunk_count;
  declared_stored_size_bytes = u.declared_stored_size_bytes;
  declared_original_size_bytes = u.declared_original_size_bytes;
  expires_at = u.expires_at;
  artifact_count = u.artifact_count;
  total_stored_size_bytes = u.total_stored_size_bytes;
  total_original_size_bytes = u.total_original_size_bytes;
}

-- The UPDATE of `uploads`, and whether it found its row: the identifier is the key of the table.
unfoldable pub complete_rows :
    Text → Text → Text → List ActiveUploadRow → Bool × List ActiveUploadRow
unfolding text_eq
complete_rows id snapshot_id now [] = (false, [])
complete_rows id snapshot_id now (u ∷ uploads) =
    let (found, rest) = complete_rows id snapshot_id now uploads in
    if text_eq u.id id && is_open u
    then (true, completed_row snapshot_id now u ∷ uploads)
    else (found, u ∷ rest)

unfoldable pub complete_upload_row : Text → Text → Text → ℤ → ℤ → Commit Bool
unfolding complete_rows
complete_upload_row id snapshot_id now transfer_bytes newly_persisted_bytes store =
    let (found, uploads) = complete_rows id snapshot_id now store.tables.uploads in
    (
      ok found,
      with_tables
          (set_uploads uploads
            (if found
              then record {
                upload_id = id;
                transfer_bytes = transfer_bytes;
                newly_persisted_bytes = newly_persisted_bytes;
              }
                ∷ filter (λ t. not (text_eq t.upload_id id)) store.tables.transfers
              else store.tables.transfers)
            store.tables)
          store,
    )

-- `now_rfc3339`, the identifiers that `Uuid::now_v7` draws and `serde_json::to_string`, for one
-- commit.
pub record Drawn : Type 0 where
  pub now : Option Text
  pub snapshot_id : Text
  pub capture_id : Text
  pub blob_id : Text → Text
  pub artifact_id : ℕ → Text
  pub metadata_json : Option Text

module _ (ext : CursorExternal) (owner : Text) where
  unfoldable pub upsert_session_latest_context : Text → Text → Text → Manifest → Commit (Unit {0})
  unfolding upsert_context sort_key_from_rfc3339
  upsert_session_latest_context session_id snapshot_id completed_at manifest =
      returns (ok_or (sort_key_from_rfc3339 ext completed_at) internal) >>>= λ seq. writes (λ t.
        set_provenance t.captures
          (upsert_context
            (record {
              session_id = session_id;
              snapshot_id = snapshot_id;
              completed_at = completed_at;
              completed_at_seq = seq;
              source_agent = manifest.session.source_agent;
              project = manifest.capture.project;
              repository = manifest.capture.repository;
              branch = manifest.capture.branch;
              source_agent_version = manifest.capture.source_agent_version;
              artifact_set_version = pos manifest.capture.artifact_set_version;
            })
            t.latest_contexts)
          t)

  unfoldable pub maintain_session_latest_context : Text → Text → Manifest → Commit (Unit {0})
  unfolding upsert_session_latest_context
  maintain_session_latest_context session_id snapshot_id manifest =
      reads (λ t. find (λ s. text_eq s.id snapshot_id && is_live_snapshot s) t.snapshots)
      >>>= λ found. returns (ok_or found internal) >>>= λ snapshot.
          upsert_session_latest_context session_id snapshot_id snapshot.completed_at manifest

  abbrev pub capture_conflict : ApiError
  capture_conflict =
      conflict "capture_provenance_conflict"
        "capture provenance conflicts with an existing completed capture"

  -- The INSERT: a row of the same upload is left, one of the same capture is an error of the
  -- database.
  unfoldable pub insert_capture : CaptureRow → Commit Bool
  insert_capture row store =
      if any (λ c. text_eq c.upload_id row.upload_id) store.tables.captures
      then (ok false, store)
      else if any
          (λ c.
            text_eq c.owner_namespace row.owner_namespace
            && text_eq c.client_id row.client_id
            && text_eq c.capture_id row.capture_id)
          store.tables.captures
      then (err database_error, store)
      else (
        ok true,
        with_tables
            (set_provenance (store.tables.captures ++ (row ∷ [])) store.tables.latest_contexts
              store.tables)
            store,
      )

  unfoldable pub insert_capture_provenance :
      Drawn → ActiveUploadRow → Manifest → Text → Text → Text → Commit (Unit {0})
  unfolding insert_capture maintain_session_latest_context sort_key_from_rfc3339
  insert_capture_provenance drawn upload manifest manifest_id snapshot_id completed_at =
      returns (ok_or (sort_key_from_rfc3339 ext completed_at) internal) >>>= λ seq.
      returns (ok_or drawn.metadata_json internal) >>>= λ metadata.
      insert_capture (record {
        id = drawn.capture_id;
        owner_namespace = owner;
        capture_id = upload.capture_id;
        session_id = upload.session_id;
        client_id = upload.client_id;
        upload_id = upload.id;
        manifest_id = manifest_id;
        snapshot_id = snapshot_id;
        source_metadata_json = metadata;
        capture = manifest.capture;
        server_received_at = upload.created_at;
        server_completed_at = completed_at;
        server_completed_at_seq = seq;
      })
      >>>= λ inserted.
          if inserted
          then maintain_session_latest_context upload.session_id snapshot_id manifest
          else reads (λ t.
            any (λ c. text_eq c.upload_id upload.id && text_eq c.snapshot_id snapshot_id)
              t.captures)
            >>>= λ same.
                if same
                then maintain_session_latest_context upload.session_id snapshot_id manifest
                else returns (err capture_conflict)
