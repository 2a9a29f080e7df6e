-- ===== src/Tests/Deleting.antt =====
-- A deletion that is repeated (crates/patwari-server/src/deletion.rs).
use patwari.Prelude.{[], bytes, false, none, ok, pos, refl, some, true, ℕ, ◌+◌, ◌∷◌, ◌≡◌}
use patwari.Deletion.Archive.{Archive, Tombstone}
use patwari.Deletion.Delete.{DeletionRequest, Stamp, delete_live, delete_snapshot}
use patwari.Deletion.Idempotent.{delete_snapshot-again}

abbrev request : DeletionRequest
request = record {
  admin_deletion_enabled = true;
  to_str = some;
  is_blank = λ t. false;
  parse_uuid = some;
  header_confirmation = some (bytes "delete-snapshot:s1:sha256:ff");
  body_confirmation = none;
  reason = some (bytes "requested");
}

abbrev stamp : ℕ → Stamp
stamp n = record {
  deleted_at = bytes "2026-03-01T00:00:00Z";
  deleted_at_seq = pos n;
  eligible_after = bytes "2026-06-01T00:00:00Z";
  eligible_after_seq = pos (n + 100);
  tombstone_id = n ∷ [];
  audit_id = n ∷ n ∷ [];
}

abbrev live_archive : Archive
live_archive = record {
  snapshots =
      record {
        id = bytes "s1";
        owner_namespace = bytes "default";
        session_id = bytes "session";
        fingerprint_sha256 = bytes "ff";
        manifest_sha256 = bytes "ee";
        completed_at = bytes "2026-01-01T00:00:00Z";
        deleted_at = none;
      }
      ∷ [];
  artifacts = record { snapshot_id = bytes "s1"; blob_id = bytes "b1" } ∷ [];
  blobs =
      record {
        id = bytes "b1";
        stored_sha256 = bytes "aa";
        orphaned_at = none;
        eligible_after = none;
        eligible_after_seq = none;
      }
      ∷ [];
  tombstones = [];
  deletion_audits = [];
  blob_files = bytes "aa" ∷ [];
}

abbrev deleted_archive : Archive
unfolding delete_live
deleted_archive =
    delete_live (stamp 1)
      (record {
        id = bytes "s1";
        owner_namespace = bytes "default";
        session_id = bytes "session";
        fingerprint_sha256 = bytes "ff";
        manifest_sha256 = bytes "ee";
        completed_at = bytes "2026-01-01T00:00:00Z";
        deleted_at = none;
      })
      (some (bytes "requested")) live_archive

abbrev tombstone : Tombstone
tombstone = record {
  id = 1 ∷ [];
  owner_namespace = bytes "default";
  session_id = bytes "session";
  snapshot_id = bytes "s1";
  snapshot_fingerprint_sha256 = bytes "ff";
  manifest_sha256 = bytes "ee";
  snapshot_completed_at = bytes "2026-01-01T00:00:00Z";
  deleted_at = bytes "2026-03-01T00:00:00Z";
  deleted_at_seq = pos 1;
  reason = some (bytes "requested");
}

first_deletion :
    delete_snapshot request (stamp 1) (bytes "s1") live_archive ≡ (ok tombstone, deleted_archive)
unfolding delete_snapshot
first_deletion = refl

delete_snapshot-again_example :
    delete_snapshot request (stamp 2) (bytes "s1") deleted_archive ≡ (ok tombstone, deleted_archive)
delete_snapshot-again_example =
    delete_snapshot-again request (stamp 1) (stamp 2) (bytes "s1") live_archive {t = tombstone}
      {a' = deleted_archive} first_deletion
