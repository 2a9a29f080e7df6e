-- ===== src/Tests/Uploading.antt =====
-- An upload of one artifact of 10 bytes in chunks of 4 bytes
-- (crates/patwari-server/src/ingestion.rs).
use patwari.Prelude.{
  All, [], ap, arith, bytes, checked_add, leb, length, none, ok, pos, refl, some, text_eq, true, ℕ,
  ◌↔◌, ◌∷◌, ◌≡◌, ◌≢◌,
}
use patwari.Chunks.{to_sqlite_i64}
use patwari.Contract.{Artifact, Manifest, identity}
use patwari.Uploads.Create.{persist_row, persist_upload, upload_artifact, upload_artifact_rows}
use patwari.Uploads.Invariant.{HasAllChunks, HasCount, upload_is_complete_iff}
use patwari.Uploads.Layout.{UploadLayout, upload_layout}
use patwari.Uploads.NewRow.{upload_row}
use patwari.Uploads.Record.{get_upload_artifacts, upload_is_complete}
use patwari.Uploads.Reuse.{
  Creation, ManifestExternal, ensure_terminal_capture_reuse_is_equivalent, latest_audit, reuse_of,
}
use patwari.Uploads.Session.{get_or_create_session, upsert_session}
use patwari.Uploads.Sound.Reachable.{Reach, Reach-IsSound, Step, empty_database}
use patwari.Uploads.Sound.{IsSound}
use patwari.Uploads.World.{
  ActiveUploadRow, UploadExternal, World, created, gets, lift, modify_database, transaction, ◌>>=◌,
}

-- A time is a number, written as so many bytes.
abbrev pub externals : UploadExternal
externals = record {
  Time = ℕ;
  parse_time = λ t. some (length t);
  format_time = λ n. some (n ∷ []);
  time_leb = leb;
  parse_uuid = some;
  to_str = some;
  sha256 = λ t. t;
}

abbrev pub json : ManifestExternal
json = record {
  to_vec = λ m. some [];
  legacy_to_vec = λ m. none;
  from_str = λ t. none;
  sha256 = λ t. t;
}

abbrev pub artifact : Artifact
artifact = record {
  logical_path = bytes "log.txt";
  media_type = none;
  original_size_bytes = 10;
  original_sha256 = bytes "sha256:aa";
  stored_size_bytes = 10;
  stored_sha256 = bytes "sha256:aa";
  compression = identity;
}

abbrev pub manifest : Manifest
manifest = record {
  schema_version = 1;
  session = record { source_agent = bytes "agent"; source_session_id = bytes "s" };
  capture = record {
    captured_at = bytes "2026-01-01T00:00:00Z";
    source_cursor = none;
    source_state_hash = none;
    source_metadata = [];
    project = none;
    repository = none;
    branch = none;
    source_agent_version = none;
    artifact_set_version = 1;
    munshi_version = none;
  };
  artifacts = artifact ∷ [];
}

abbrev pub layout : UploadLayout
layout = record { chunk_counts = 3 ∷ []; total_original_bytes = 10; total_stored_bytes = 10 }

abbrev pub request : Creation
request = record {
  owner_namespace = bytes "default";
  chunk_size_bytes = 4;
  now = bytes "now";
  expires_at = bytes "then";
  upload_id = bytes "u1";
  session_id = bytes "s1";
  manifest_id = bytes "m1";
}

abbrev pub registered : World
registered = record {
  database = empty_database ((bytes "c1", bytes "default") ∷ []);
  chunk_files = [];
}

-- The archive after the creation.
unfoldable pub after_creation : World
unfolding persist_upload ◌>>=◌ lift gets transaction modify_database
after_creation =
    (persist_upload json request (bytes "c1") (bytes "capture") manifest [] (bytes "mm") layout
      registered).1

abbrev pub upload : ActiveUploadRow
upload = record {
  id = bytes "u1";
  owner_namespace = bytes "default";
  session_id = bytes "s1";
  client_id = bytes "c1";
  capture_id = bytes "capture";
  manifest_sha256 = bytes "mm";
  status = created;
  snapshot_id = none;
  created_at = bytes "now";
  completed_at = none;
  chunk_size_bytes = pos 4;
  chunk_count = pos 3;
  declared_stored_size_bytes = pos 10;
  declared_original_size_bytes = pos 10;
  expires_at = bytes "then";
  artifact_count = pos 1;
  total_stored_size_bytes = pos 10;
  total_original_size_bytes = pos 10;
}

pub layout_fits : upload_layout manifest 4 ≡ ok layout
unfolding upload_layout checked_add
layout_fits = refl

pub creation_step : Reach externals json registered after_creation
unfolding after_creation persist_upload
creation_step = Reach.next Reach.start (
    Step.creation request (bytes "c1") (bytes "capture") manifest [] (bytes "mm") 4 layout
      layout_fits (record { no_upload = tt; no_artifact = tt }) refl)

Reach-IsSound_example : IsSound after_creation.database
Reach-IsSound_example =
    Reach-IsSound externals json creation_step (record { columns = tt; unique = tt; statuses = tt })

pub created-IsSound : IsSound after_creation.database
created-IsSound =
    Reach-IsSound externals json creation_step (record { columns = tt; unique = tt; statuses = tt })

pub has_artifact : get_upload_artifacts (bytes "u1") after_creation.database ≢ []
unfolding get_upload_artifacts after_creation get_or_create_session upsert_session
    ensure_terminal_capture_reuse_is_equivalent latest_audit reuse_of upload_row persist_row
    upload_artifact_rows upload_artifact to_sqlite_i64 text_eq
has_artifact e = ground (arith, ap length e)

has_count : All HasCount (get_upload_artifacts (bytes "u1") after_creation.database)
unfolding get_upload_artifacts after_creation
has_count = (refl, tt)

upload_is_complete_iff_example :
    (upload_is_complete (bytes "u1") after_creation.database ≡ ok true)
    ↔ All
        (HasAllChunks (bytes "u1") after_creation.database.upload_chunks)
        (get_upload_artifacts (bytes "u1") after_creation.database)
upload_is_complete_iff_example =
    upload_is_complete_iff (bytes "u1") after_creation.database created-IsSound.columns
      created-IsSound.unique has_count has_artifact
