-- ===== src/Tests/Arriving.antt =====
-- An upload of one artifact of one byte, and the arrival of its only chunk
-- (crates/patwari-server/src/ingestion.rs).
use patwari.Prelude.{
  All, List, [], bytes, checked_add, false, length, map, none, ok, pos, refl, some, true, ◌∷◌, ◌≡◌,
}
use patwari.Chunks.{UploadArtifactRow}
use patwari.Contract.{Artifact, Manifest, identity}
use patwari.Uploads.Create.{persist_upload}
use patwari.Uploads.Invariant.{HasCount, HasEveryChunk}
use patwari.Uploads.Layout.{UploadLayout, upload_layout}
use patwari.Uploads.Record.{get_upload_artifacts}
use patwari.Uploads.Request.{Frame, Headers, payload, ChunkRequest}
use patwari.Uploads.Sound.Reachable.{Reach, Reach-IsSound, Step, artifact_uploaded-HasEveryChunk}
use patwari.Uploads.Terminal.{get_active_upload}
use patwari.Uploads.Transfer.{accept_chunk, legacy_single_chunk_request, put_artifact_chunk}
use patwari.Uploads.World.{
  ActiveUploadRow, World, artifact_uploaded, created, gets, lift, modify_database, modify_files,
  transaction, ◌>>=◌,
}
use patwari.Uploads.Sound.Accepted.{StatusMatches, accept_chunk-StatusMatches}
use patwari.Uploads.Sound.{IsSound}
use patwari.Uploads.Status.Agrees.{get_upload_status-agrees}
use patwari.Uploads.Status.{UploadArtifactStatus, UploadStatusResponse, active, get_upload_status}
use patwari.Tests.Uploading.{externals, json, manifest, registered, request}

abbrev small_artifact : Artifact
small_artifact = record {
  logical_path = bytes "log.txt";
  media_type = none;
  original_size_bytes = 1;
  original_sha256 = bytes "sha256:aa";
  stored_size_bytes = 1;
  stored_sha256 = bytes "sha256:aa";
  compression = identity;
}

abbrev small_manifest : Manifest
small_manifest = record {
  schema_version = 1;
  session = manifest.session;
  capture = manifest.capture;
  artifacts = small_artifact ∷ [];
}

abbrev small_layout : UploadLayout
small_layout = record { chunk_counts = 1 ∷ []; total_original_bytes = 1; total_stored_bytes = 1 }

abbrev headers : Headers
headers = record {
  content_type = some (bytes "application/octet-stream");
  chunk_sha256 = none;
  chunk_length = none;
}

abbrev frames : List Frame
frames = payload (170 ∷ []) ∷ []

-- The archive after the creation.
unfoldable small_creation : World
unfolding persist_upload ◌>>=◌ lift gets transaction modify_database
small_creation =
    (persist_upload json request (bytes "c1") (bytes "capture") small_manifest [] (bytes "mm")
      small_layout registered).1

-- The archive after the arrival of the chunk.
unfoldable arrived : World
unfolding small_creation put_artifact_chunk legacy_single_chunk_request modify_files ◌>>=◌ lift gets
    transaction modify_database
arrived =
    (put_artifact_chunk externals (bytes "u1") (bytes "0") (bytes "0") headers frames true 3 3
      small_creation).1

-- The same, when the temporary file cannot be removed.
unfoldable unremoved : World
unfolding small_creation put_artifact_chunk legacy_single_chunk_request modify_files ◌>>=◌ lift gets
    transaction modify_database
unremoved =
    (put_artifact_chunk externals (bytes "u1") (bytes "0") (bytes "0") headers frames false 3 3
      small_creation).1

small_layout_fits : upload_layout small_manifest 4 ≡ ok small_layout
unfolding upload_layout checked_add
small_layout_fits = refl

creation_only : Reach externals json registered small_creation
unfolding small_creation
creation_only = Reach.next Reach.start (
    Step.creation request (bytes "c1") (bytes "capture") small_manifest [] (bytes "mm") 4
      small_layout small_layout_fits (record { no_upload = tt; no_artifact = tt }) refl)

arrival_steps : Reach externals json registered arrived
unfolding arrived
arrival_steps =
    Reach.next creation_only
      (Step.chunk (bytes "u1") (bytes "0") (bytes "0") headers frames true 3 3 refl)

abbrev stored_upload : ActiveUploadRow
stored_upload = record {
  id = bytes "u1";
  owner_namespace = bytes "default";
  session_id = bytes "s1";
  client_id = bytes "c1";
  capture_id = bytes "capture";
  manifest_sha256 = bytes "mm";
  status = artifact_uploaded;
  snapshot_id = none;
  created_at = bytes "now";
  completed_at = none;
  chunk_size_bytes = pos 4;
  chunk_count = pos 1;
  declared_stored_size_bytes = pos 1;
  declared_original_size_bytes = pos 1;
  expires_at = bytes "then";
  artifact_count = pos 1;
  total_stored_size_bytes = pos 1;
  total_original_size_bytes = pos 1;
}

found_upload : get_active_upload (bytes "u1") arrived.database ≡ some stored_upload
unfolding arrived small_creation get_active_upload ◌>>=◌ lift gets transaction modify_database
    legacy_single_chunk_request modify_files
found_upload = refl

-- The chunk is recorded in both, and the status follows only when the file is removed.
left_behind :
    (length unremoved.database.upload_chunks ≡ 1)
    × (map (λ u. u.status) unremoved.database.uploads ≡ created ∷ [])
unfolding unremoved small_creation ◌>>=◌ lift gets transaction modify_database
    legacy_single_chunk_request modify_files
left_behind = (refl, refl)

has_counts : All HasCount (get_upload_artifacts (bytes "u1") arrived.database)
unfolding get_upload_artifacts arrived small_creation ◌>>=◌ lift gets transaction modify_database
    legacy_single_chunk_request modify_files
has_counts = (refl, tt)

artifact_uploaded-HasEveryChunk_example :
    All
      (HasEveryChunk (bytes "u1") arrived.database.upload_chunks)
      (get_upload_artifacts (bytes "u1") arrived.database)
artifact_uploaded-HasEveryChunk_example =
    artifact_uploaded-HasEveryChunk externals json ((bytes "c1", bytes "default") ∷ []) refl
      arrival_steps (bytes "u1") {u = stored_upload} found_upload refl has_counts

abbrev small_row : UploadArtifactRow
small_row = record {
  artifact_index = pos 0;
  logical_path = bytes "log.txt";
  media_type = none;
  original_size_bytes = pos 1;
  original_sha256 = bytes "aa";
  stored_size_bytes = pos 1;
  stored_sha256 = bytes "aa";
  compression = bytes "identity";
  chunk_count = pos 1;
}

abbrev only_chunk : ChunkRequest
only_chunk = record { byte_length = 1; sha256 = bytes "sha256:aa" }

small-IsSound : IsSound small_creation.database
unfolding small_creation
small-IsSound =
    Reach-IsSound externals json creation_only (record { columns = tt; unique = tt; statuses = tt })

accepted :
    (accept_chunk externals stored_upload small_row 0 0 only_chunk frames true 3 small_creation).0
    ≡ ok tt
unfolding accept_chunk small_creation ◌>>=◌ lift gets transaction modify_database modify_files
accepted = refl

accept_chunk-StatusMatches_example :
    let after =
      (accept_chunk externals stored_upload small_row 0 0 only_chunk frames true 3
        small_creation).1 in
    All (StatusMatches (bytes "u1") after.database) after.database.uploads
accept_chunk-StatusMatches_example =
    accept_chunk-StatusMatches externals stored_upload small_row 0 0 only_chunk frames true 3
      small_creation small-IsSound accepted

abbrev full_status : UploadArtifactStatus
full_status = record {
  artifact_index = 0;
  logical_path = bytes "log.txt";
  media_type = none;
  original_size_bytes = 1;
  original_sha256 = bytes "sha256:aa";
  stored_size_bytes = 1;
  stored_sha256 = bytes "sha256:aa";
  compression = identity;
  chunk_count = 1;
  accepted_chunk_bitmap = bytes "01";
  missing_chunk_indexes = [];
}

abbrev full_response : UploadStatusResponse
full_response = record {
  upload_id = bytes "u1";
  capture_id = bytes "capture";
  session_id = bytes "s1";
  status = active artifact_uploaded;
  manifest_sha256 = some (bytes "sha256:mm");
  chunk_size_bytes = 4;
  artifacts = full_status ∷ [];
}

answered : (get_upload_status externals (bytes "u1") 3 3 arrived).0 ≡ ok full_response
unfolding get_upload_status arrived
answered = refl

get_upload_status-agrees_example : All (λ s. s.missing_chunk_indexes ≡ []) (full_status ∷ [])
get_upload_status-agrees_example =
    get_upload_status-agrees externals json ((bytes "c1", bytes "default") ∷ []) refl arrival_steps
      (bytes "u1") 3 3 {r = full_response} answered refl
