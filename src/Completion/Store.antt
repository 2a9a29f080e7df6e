-- ===== src/Completion/Store.antt =====
-- The tables and files that the commit of a completion reads and changes, and its handlers
-- (crates/patwari-server/src/ingestion.rs).
use patwari.Prelude.{
  ApiResult, Bool, List, Option, Text, err, false, none, ok, some, text_eq, true, ℤ, ◌&&◌,
}
use patwari.Contract.{Capture}
use patwari.Uploads.World.{ActiveUploadRow, ManifestRow}

pub record StoredBlob : Type 0 where
  pub id : Text
  pub owner_namespace : Text
  pub stored_sha256 : Text
  pub stored_size_bytes : ℤ
  pub compression : Text
  pub created_at : Text
  pub orphaned_at : Option Text
  pub eligible_after : Option Text
  pub eligible_after_seq : Option ℤ

-- A file at `blob_path`, by its digest.
pub record BlobFile : Type 0 where
  pub stored_sha256 : Text
  pub content : Text

pub record Snapshot : Type 0 where
  pub id : Text
  pub owner_namespace : Text
  pub session_id : Text
  pub manifest_id : Text
  pub fingerprint_sha256 : Text
  pub completed_at : Text
  pub completed_at_seq : ℤ
  pub artifact_count : ℤ
  pub total_original_size_bytes : ℤ
  pub total_stored_size_bytes : ℤ
  pub rearchived_from_tombstone_id : Option Text
  pub deleted_at : Option Text

pub record StoredArtifact : Type 0 where
  pub id : Text
  pub snapshot_id : Text
  pub blob_id : Text
  pub logical_path : Text
  pub media_type : Option Text
  pub original_size_bytes : ℤ
  pub original_sha256 : Text
  pub created_at : Text
  pub created_at_seq : ℤ
  pub artifact_index : ℤ

-- A row of `captures`; `capture` has the columns that are copied from the manifest.
pub record CaptureRow : Type 0 where
  pub id : Text
  pub owner_namespace : Text
  pub capture_id : Text
  pub session_id : Text
  pub client_id : Text
  pub upload_id : Text
  pub manifest_id : Text
  pub snapshot_id : Text
  pub source_metadata_json : Text
  pub capture : Capture
  pub server_received_at : Text
  pub server_completed_at : Text
  pub server_completed_at_seq : ℤ

-- A row of `session_latest_context`.
pub record LatestContext : Type 0 where
  pub session_id : Text
  pub snapshot_id : Text
  pub completed_at : Text
  pub completed_at_seq : ℤ
  pub source_agent : Text
  pub project : Option Text
  pub repository : Option Text
  pub branch : Option Text
  pub source_agent_version : Option Text
  pub artifact_set_version : ℤ

pub record TombstoneRow : Type 0 where
  pub id : Text
  pub session_id : Text
  pub snapshot_fingerprint_sha256 : Text
  pub deleted_at_seq : ℤ
  pub rearchived_snapshot_id : Option Text

-- The columns of `uploads` that an `ActiveUploadRow` leaves out.
pub record Transfer : Type 0 where
  pub upload_id : Text
  pub transfer_bytes : ℤ
  pub newly_persisted_bytes : ℤ

pub record Tables : Type 0 where
  pub uploads : List ActiveUploadRow
  pub transfers : List Transfer
  pub manifests : List ManifestRow
  pub blobs : List StoredBlob
  pub snapshots : List Snapshot
  pub artifacts : List StoredArtifact
  pub captures : List CaptureRow
  pub latest_contexts : List LatestContext
  pub tombstones : List TombstoneRow

pub record Store : Type 0 where
  pub tables : Tables
  pub blob_files : List BlobFile

-- A handler: what it changed stays changed when it fails, except within a transaction.
abbrev pub Commit {ℓ} : Type ℓ → Type ℓ
Commit A = Store → ApiResult A × Store

abbrev pub continue_with {ℓ κ} :
    {A : Type ℓ} {B : Type κ} → ApiResult A × Store → (A → Commit B) → ApiResult B × Store
continue_with (ok a, store) f = f a store
continue_with (err e, store) f = (err e, store)

infixr 5 ◌>>>=◌
unfoldable pub ◌>>>=◌ {ℓ κ} : {A : Type ℓ} {B : Type κ} → Commit A → (A → Commit B) → Commit B
◌>>>=◌ m f store = continue_with (m store) f

unfoldable pub returns {ℓ} : {A : Type ℓ} → ApiResult A → Commit A
returns r store = (r, store)

unfoldable pub reads {ℓ} : {A : Type ℓ} → (Tables → A) → Commit A
reads f store = (ok (f store.tables), store)

abbrev pub with_tables : Tables → Store → Store
with_tables tables store = record { tables = tables; blob_files = store.blob_files }

unfoldable pub writes : (Tables → Tables) → Commit (Unit {0})
writes f store = (ok tt, with_tables (f store.tables) store)

unfoldable pub changes : (Store → Store) → Commit (Unit {0})
changes f store = (ok tt, f store)

-- `begin` to `commit`: an error on the way rolls the tables back; files stay.
abbrev pub undone {ℓ} : {A : Type ℓ} → Store → ApiResult A × Store → ApiResult A × Store
undone before (ok a, store) = (ok a, store)
undone before (err e, store) = (err e, with_tables before.tables store)

unfoldable pub atomically {ℓ} : {A : Type ℓ} → Commit A → Commit A
atomically m store = undone store (m store)

abbrev pub is_live_snapshot : Snapshot → Bool
is_live_snapshot s = elim s.deleted_at [ none ↦ true | some t ↦ false ]

abbrev pub has_fingerprint : Text → Text → Snapshot → Bool
has_fingerprint session_id fingerprint s =
    text_eq s.session_id session_id
    && text_eq s.fingerprint_sha256 fingerprint
    && is_live_snapshot s

-- The key of `blobs`.
abbrev pub is_blob : Text → Text → StoredBlob → Bool
is_blob owner digest b = text_eq b.owner_namespace owner && text_eq b.stored_sha256 digest
