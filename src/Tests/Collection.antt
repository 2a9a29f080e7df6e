-- ===== src/Tests/Collection.antt =====
-- A pass of the garbage collection (crates/patwari-server/src/deletion.rs).
use patwari.Prelude.{
  All, Text, [], any, arith, bytes, false, none, pos, refl, some, text_eq, text_leb, ◌&&◌, ◌∷◌, ◌≡◌,
}
use patwari.Deletion.Archive.{Archive, BlobRow, has_live_reference}
use patwari.Deletion.Collect.{collect_orphaned_blobs_at, gc_candidates}
use patwari.Deletion.Progress.{collect_orphaned_blobs_at-progress, is_scheduled}
use patwari.Deletion.Safety.{IsKept, collect_orphaned_blobs_at-IsKept}

abbrev scheduled : Text → Text → BlobRow
scheduled id digest = record {
  id = id;
  stored_sha256 = digest;
  orphaned_at = some (bytes "2026-01-01T00:00:00Z");
  eligible_after = some (bytes "2026-02-01T00:00:00Z");
  eligible_after_seq = some (pos 10);
}

-- Two blobs are scheduled, and a live snapshot refers to the first again.
abbrev archive : Archive
archive = record {
  snapshots =
      record {
        id = bytes "s1";
        owner_namespace = bytes "default";
        session_id = bytes "session";
        fingerprint_sha256 = bytes "ff";
        manifest_sha256 = bytes "ee";
        completed_at = bytes "2026-01-01T00:00:00Z";
        deleted_at = none;
      }
      ∷ [];
  artifacts = record { snapshot_id = bytes "s1"; blob_id = bytes "b1" } ∷ [];
  blobs = scheduled (bytes "b1") (bytes "aa") ∷ scheduled (bytes "b2") (bytes "bb") ∷ [];
  tombstones = [];
  deletion_audits = [];
  blob_files = bytes "aa" ∷ bytes "bb" ∷ [];
}

orphan_is_deleted : (collect_orphaned_blobs_at (pos 10) archive).0 ≡ (2, 1)
unfolding collect_orphaned_blobs_at text_leb text_eq
orphan_is_deleted = refl

collect_orphaned_blobs_at-IsKept_example :
    IsKept (bytes "b1") (bytes "aa") archive (collect_orphaned_blobs_at (pos 10) archive).1
unfolding has_live_reference text_eq
collect_orphaned_blobs_at-IsKept_example =
    collect_orphaned_blobs_at-IsKept (pos 10) archive (bytes "b1") (bytes "aa")
      ((λ _. refl), ((λ e. ground arith), tt)) refl

collect_orphaned_blobs_at-progress_example :
    All
      (λ c.
        any
          (λ b. text_eq b.id c.id && is_scheduled b)
          (collect_orphaned_blobs_at (pos 10) archive).1.blobs
        ≡ false)
      (gc_candidates (pos 10) archive)
collect_orphaned_blobs_at-progress_example = collect_orphaned_blobs_at-progress (pos 10) archive
