-- ===== src/Deletion/Delete.antt =====
-- `delete_snapshot` (crates/patwari-server/src/deletion.rs), without the table
-- `session_latest_context` that it rebuilds, and with statements that succeed. The snapshot's and
-- the blobs' locks, which it holds, are modelled with the other locks.
use patwari.Prelude.{
  ◌>>=◌, ◌>>◌, ApiResult, Bool, List, Option, Text, [], any, err, filter, if◌then◌else◌, invalid,
  map, none, not, not_found, ok, ok_or, some, text_eq, ℤ, ◌&&◌, ◌++◌, ◌∷◌,
}
use patwari.Deletion.Archive.{
  Archive, BlobRow, DeletionAudit, SnapshotRow, Tombstone, has_live_reference, is_live, set_blobs,
}
use patwari.Deletion.Confirm.{confirm_snapshot_deletion, deletion_reason, require_admin_enabled}

-- What a request brings and what it is read with: whether deletion is enabled, the text of a
-- header's value, whether a text is blank, the UUID's text, the header and body confirmations, and
-- the reason.
pub record DeletionRequest : Type 0 where
  pub admin_deletion_enabled : Bool
  pub to_str : Text → Option Text
  pub is_blank : Text → Bool
  pub parse_uuid : Text → Option Text
  pub header_confirmation : Option Text
  pub body_confirmation : Option Text
  pub reason : Option Text

-- The times of the deletion and of the end of the grace period, and the two new UUIDs.
pub record Stamp : Type 0 where
  pub deleted_at : Text
  pub deleted_at_seq : ℤ
  pub eligible_after : Text
  pub eligible_after_seq : ℤ
  pub tombstone_id : Text
  pub audit_id : Text

unfoldable pub snapshot_deletion_row : Text → List SnapshotRow → Option SnapshotRow
snapshot_deletion_row id [] = none
snapshot_deletion_row id (s ∷ rest) =
    if text_eq s.id id then some s else snapshot_deletion_row id rest

abbrev pub tombstone_of : Stamp → SnapshotRow → Option Text → Tombstone
tombstone_of d live reason = record {
  id = d.tombstone_id;
  owner_namespace = live.owner_namespace;
  session_id = live.session_id;
  snapshot_id = live.id;
  snapshot_fingerprint_sha256 = live.fingerprint_sha256;
  manifest_sha256 = live.manifest_sha256;
  snapshot_completed_at = live.completed_at;
  deleted_at = d.deleted_at;
  deleted_at_seq = d.deleted_at_seq;
  reason = reason;
}

abbrev pub audit_of : Stamp → SnapshotRow → Option Text → DeletionAudit
audit_of d live reason = record {
  id = d.audit_id;
  tombstone_id = d.tombstone_id;
  owner_namespace = live.owner_namespace;
  session_id = live.session_id;
  snapshot_id = live.id;
  snapshot_fingerprint_sha256 = live.fingerprint_sha256;
  manifest_sha256 = live.manifest_sha256;
  occurred_at = d.deleted_at;
  occurred_at_seq = d.deleted_at_seq;
  reason = reason;
}

-- `UPDATE snapshots SET deleted_at .. WHERE id .. AND deleted_at IS NULL`
abbrev pub mark_deleted : Text → Text → SnapshotRow → SnapshotRow
mark_deleted id deleted_at s =
    if text_eq s.id id && is_live s
    then record {
      id = s.id;
      owner_namespace = s.owner_namespace;
      session_id = s.session_id;
      fingerprint_sha256 = s.fingerprint_sha256;
      manifest_sha256 = s.manifest_sha256;
      completed_at = s.completed_at;
      deleted_at = some deleted_at;
    }
    else s

-- `schedule_or_clear_blob_candidate` for the blobs of a list.
unfoldable pub schedule_or_clear : List Text → Text → Text → ℤ → Archive → BlobRow → BlobRow
schedule_or_clear ids orphaned_at eligible_after eligible_after_seq a b =
    if any (λ id. text_eq b.id id) ids
    then (if has_live_reference b.id a
        then record {
          id = b.id;
          stored_sha256 = b.stored_sha256;
          orphaned_at = none;
          eligible_after = none;
          eligible_after_seq = none;
        }
        else record {
          id = b.id;
          stored_sha256 = b.stored_sha256;
          orphaned_at = some orphaned_at;
          eligible_after = some eligible_after;
          eligible_after_seq = some eligible_after_seq;
        })
    else b

-- `artifact_blobs_in_transaction`, while the snapshot is live: the ids of its blobs.
abbrev pub artifact_blobs : Text → Archive → List Text
artifact_blobs id a = map (λ r. r.blob_id) (filter (λ r. text_eq r.snapshot_id id) a.artifacts)

-- The write transaction for a live snapshot.
unfoldable pub delete_live : Stamp → SnapshotRow → Option Text → Archive → Archive
unfolding schedule_or_clear
delete_live d live reason a =
    let ids = artifact_blobs live.id a in
    let marked : Archive = record {
      snapshots = map (mark_deleted live.id d.deleted_at) a.snapshots;
      artifacts = filter (λ r. not (text_eq r.snapshot_id live.id)) a.artifacts;
      blobs = a.blobs;
      tombstones = a.tombstones ++ (tombstone_of d live reason ∷ []);
      deletion_audits = a.deletion_audits ++ (audit_of d live reason ∷ []);
      blob_files = a.blob_files;
    } in
    set_blobs
      (map (schedule_or_clear ids d.deleted_at d.eligible_after d.eligible_after_seq marked)
        a.blobs)
      marked

-- The row that `tombstone_response` reports. What the response takes from the joined tables is left
-- out: the audit's identifier, the snapshot archived again, the number of captures.
unfoldable pub tombstone_response : Text → List Tombstone → ApiResult Tombstone
tombstone_response id [] = err (not_found "tombstone_not_found" "tombstone was not found")
tombstone_response id (t ∷ rest) =
    if text_eq t.snapshot_id id then ok t else tombstone_response id rest

-- The guards after the snapshot's identifier is read: its row, and the reason that is stored.
unfoldable pub confirmed_row :
    DeletionRequest → Text → List SnapshotRow → ApiResult (SnapshotRow × Option Text)
unfolding deletion_reason snapshot_deletion_row confirm_snapshot_deletion
confirmed_row r id snapshots = do
  reason ← deletion_reason r.is_blank r.reason
  initial ←
      ok_or (snapshot_deletion_row id snapshots)
        (not_found "snapshot_not_found" "snapshot was not found")
  confirm_snapshot_deletion r.to_str r.header_confirmation r.body_confirmation initial.id
      initial.fingerprint_sha256
  ok (initial, reason)

unfoldable pub checked_deletion :
    DeletionRequest → Text → List SnapshotRow → ApiResult (SnapshotRow × Option Text)
unfolding require_admin_enabled confirmed_row
checked_deletion r snapshot_id snapshots =
    require_admin_enabled r.admin_deletion_enabled
    >> ok_or (r.parse_uuid snapshot_id) (invalid "snapshot identifier is not a UUID")
    >>= λ id. confirmed_row r id snapshots

-- The answer, and the archive after it. The row is read three times, under more locks each time;
-- one reading stands for them, since all the locks are held at the last.
unfoldable pub delete_snapshot :
    DeletionRequest → Stamp → Text → Archive → ApiResult Tombstone × Archive
unfolding checked_deletion tombstone_response delete_live
delete_snapshot r stamp snapshot_id a = elim (checked_deletion r snapshot_id a.snapshots) [
  | err e ↦ (err e, a)
  | ok (initial, reason) ↦
      (let a' = delete_live stamp initial reason a in
        if is_live initial
        then (tombstone_response initial.id a'.tombstones, a')
        else (tombstone_response initial.id a.tombstones, a))
]
