-- ===== src/Tests/Committing.antt =====
-- The commit of the completion of the upload of Tests/Uploading
-- (crates/patwari-server/src/ingestion.rs).
use patwari.Prelude.{
  ApiResult, List, Text, [], bytes, database_error, err, filter, length, none, not, ok, pos, refl,
  some, true, ◌*◌, ◌∷◌, ◌≡◌,
}
use patwari.Completion.Blobs.{BlobPromotion, cleanup_uncommitted_promotions}
use patwari.Completion.Cleanup.{cleanup_uncommitted_promotions-files, is_uncommitted}
use patwari.Completion.Commit.{record_completed_upload}
use patwari.Completion.Prepare.{PreparedArtifact}
use patwari.Completion.Provenance.{Drawn}
use patwari.Completion.Recorded.{record_completed_upload-IsRecorded}
use patwari.Completion.Recording.{IsRecorded}
use patwari.Completion.Store.{BlobFile, Store, Tables, reads, returns, writes, ◌>>>=◌}
use patwari.Completion.Undone.{AreUndone, record_completed_upload-undone}
use patwari.Pagination.{CursorExternal}
use patwari.Tests.Uploading.{artifact, manifest, upload}
use patwari.Digest.{compression_name}
use patwari.Uploads.World.{ManifestRow}

-- The commit of a completion. Times are texts.
abbrev clock : CursorExternal
clock = record {
  Time = Text;
  parse_time = some;
  format_utc = some;
  unix_timestamp_nanos = λ t. pos (length t * 1000);
  Uuid = Text;
  parse_str = some;
  to_string = λ t. t;
  get_version_num = λ t. 7;
  to_vec = λ c. none;
  from_slice = λ t. none;
  base64_encode = λ t. t;
  base64_decode = some;
}

abbrev drawn : Drawn
drawn = record {
  now = some (bytes "now");
  snapshot_id = bytes "s1";
  capture_id = bytes "c";
  blob_id = λ digest. digest;
  artifact_id = λ i. i ∷ [];
  metadata_json = some (bytes "{}");
}

abbrev tables : List ManifestRow → Tables
tables manifests = record {
  uploads = upload ∷ [];
  transfers = [];
  manifests = manifests;
  blobs = [];
  snapshots = [];
  artifacts = [];
  captures = [];
  latest_contexts = [];
  tombstones = [];
}

abbrev blob_file : BlobFile
blob_file = record { stored_sha256 = bytes "aa"; content = [] }

abbrev store : List ManifestRow → Store
store manifests = record { tables = tables manifests; blob_files = blob_file ∷ [] }

abbrev manifest_row : ManifestRow
manifest_row = record {
  id = bytes "m1";
  upload_id = bytes "u1";
  canonical_json = [];
  sha256 = bytes "mm";
  created_at = bytes "now";
}

abbrev prepared : List PreparedArtifact
prepared = record { artifact_index = 0; artifact = artifact } ∷ []

abbrev promotions : List BlobPromotion
promotions = record { stored_sha256 = bytes "aa"; stored_size_bytes = 10; created = true } ∷ []

abbrev idle : Store → Store
idle s = s

-- What the record of the completion makes of the store.
abbrev run : List ManifestRow → ApiResult (Unit {0}) × Store
run manifests =
    record_completed_upload clock (bytes "default") drawn upload manifest prepared promotions
      (bytes "ff") 10 10 idle idle (store manifests)

succeeds : (run (manifest_row ∷ [])).0 ≡ ok tt
unfolding record_completed_upload returns ◌>>>=◌ reads writes compression_name
succeeds = refl

record_completed_upload-IsRecorded_example :
    (id : Text) × IsRecorded
      (bytes "u1")
      (bytes "s1")
      (bytes "ff")
      id
      (run (manifest_row ∷ [])).1.tables
record_completed_upload-IsRecorded_example =
    record_completed_upload-IsRecorded clock (bytes "default") drawn upload manifest (bytes "ff")
      prepared promotions 10 10 idle idle (store (manifest_row ∷ []))
      (λ session fingerprint id s h _. h) succeeds

-- Without the manifest, the blob that is inserted first is rolled back.
fails : (run []).0 ≡ err database_error
unfolding record_completed_upload returns ◌>>>=◌ reads writes compression_name
fails = refl

record_completed_upload-undone_example :
    AreUndone clock (bytes "default") idle idle (store []) (run []).1.tables
record_completed_upload-undone_example =
    record_completed_upload-undone clock (bytes "default") drawn upload manifest prepared promotions
      (bytes "ff") 10 10 idle idle (store []) fails

cleanup_uncommitted_promotions-files_example :
    cleanup_uncommitted_promotions (bytes "default") promotions (store []) ≡ (record {
      tables = tables [];
      blob_files =
          filter (λ f. not (is_uncommitted (bytes "default") promotions [] f)) (blob_file ∷ []);
    })
cleanup_uncommitted_promotions-files_example =
    cleanup_uncommitted_promotions-files (bytes "default") promotions (store [])
