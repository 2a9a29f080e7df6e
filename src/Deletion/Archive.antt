-- ===== src/Deletion/Archive.antt =====
-- The tables and files that crates/patwari-server/src/deletion.rs reads and changes.
use patwari.Prelude.{Bool, List, Option, Text, any, false, none, some, text_eq, true, ℤ, ◌&&◌}

pub record SnapshotRow : Type 0 where
  pub id : Text
  pub owner_namespace : Text
  pub session_id : Text
  pub fingerprint_sha256 : Text
  pub manifest_sha256 : Text
  pub completed_at : Text
  pub deleted_at : Option Text

-- An artifact refers to a blob for a snapshot.
pub record ArtifactReference : Type 0 where
  pub snapshot_id : Text
  pub blob_id : Text

pub record BlobRow : Type 0 where
  pub id : Text
  pub stored_sha256 : Text
  pub orphaned_at : Option Text
  pub eligible_after : Option Text
  pub eligible_after_seq : Option ℤ

pub record Tombstone : Type 0 where
  pub id : Text
  pub owner_namespace : Text
  pub session_id : Text
  pub snapshot_id : Text
  pub snapshot_fingerprint_sha256 : Text
  pub manifest_sha256 : Text
  pub snapshot_completed_at : Text
  pub deleted_at : Text
  pub deleted_at_seq : ℤ
  pub reason : Option Text

pub record DeletionAudit : Type 0 where
  pub id : Text
  pub tombstone_id : Text
  pub owner_namespace : Text
  pub session_id : Text
  pub snapshot_id : Text
  pub snapshot_fingerprint_sha256 : Text
  pub manifest_sha256 : Text
  pub occurred_at : Text
  pub occurred_at_seq : ℤ
  pub reason : Option Text

-- The digests of `blob_files` name the files of the blobs.
pub record Archive : Type 0 where
  pub snapshots : List SnapshotRow
  pub artifacts : List ArtifactReference
  pub blobs : List BlobRow
  pub tombstones : List Tombstone
  pub deletion_audits : List DeletionAudit
  pub blob_files : List Text

abbrev pub set_blobs : List BlobRow → Archive → Archive
set_blobs blobs a = record {
  snapshots = a.snapshots;
  artifacts = a.artifacts;
  blobs = blobs;
  tombstones = a.tombstones;
  deletion_audits = a.deletion_audits;
  blob_files = a.blob_files;
}

abbrev pub set_files : List Text → Archive → Archive
set_files files a = record {
  snapshots = a.snapshots;
  artifacts = a.artifacts;
  blobs = a.blobs;
  tombstones = a.tombstones;
  deletion_audits = a.deletion_audits;
  blob_files = files;
}

abbrev pub is_live : SnapshotRow → Bool
is_live s = elim s.deleted_at [ none ↦ true | some t ↦ false ]

-- Whether an artifact of a live snapshot refers to a blob: the join of the authorization check.
unfoldable pub has_live_reference : Text → Archive → Bool
has_live_reference blob_id a =
    any
      (λ r.
        text_eq r.blob_id blob_id && any (λ s. text_eq s.id r.snapshot_id && is_live s) a.snapshots)
      a.artifacts
