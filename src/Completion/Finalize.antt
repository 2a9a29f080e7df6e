-- ===== src/Completion/Finalize.antt =====
-- `finalize_upload_for_existing_snapshot` and what it shares with the completion that inserts the
-- snapshot (crates/patwari-server/src/ingestion.rs).
use patwari.Prelude.{
  ApiError, Bool, List, Option, Text, [], any, conflict, database_error, false, if◌then◌else◌,
  int_eq, int_ltb, internal, none, not, ok, ok_or, pos, reject_if, some, text_eq, text_leb, ℕ, ◌&&◌,
  ◌||◌, ◌∷◌,
}
use patwari.Chunks.{to_sqlite_i64}
use patwari.Completion.Provenance.{Drawn, complete_upload_row, insert_capture_provenance}
use patwari.Completion.Store.{
  Commit, Snapshot, StoredArtifact, Tables, TombstoneRow, atomically, has_fingerprint,
  is_live_snapshot, reads, returns, ◌>>>=◌,
}
use patwari.Contract.{Manifest}
use patwari.Pagination.{CursorExternal}
use patwari.Uploads.World.{ActiveUploadRow, completed, find, state_eq}

abbrev pub set_snapshots : List Snapshot → List StoredArtifact → List TombstoneRow → Tables → Tables
set_snapshots snapshots artifacts tombstones t = record {
  uploads = t.uploads;
  transfers = t.transfers;
  manifests = t.manifests;
  blobs = t.blobs;
  snapshots = snapshots;
  artifacts = artifacts;
  captures = t.captures;
  latest_contexts = t.latest_contexts;
  tombstones = tombstones;
}

-- `find_snapshot_by_fingerprint`, also the SELECT of the winner
unfoldable pub find_snapshot_by_fingerprint : Text → Text → Tables → Option Text
find_snapshot_by_fingerprint session_id fingerprint t =
    elim (find (has_fingerprint session_id fingerprint) t.snapshots) [
      | none ↦ none
      | some s ↦ some s.id
    ]

abbrev pub is_completed_with : Text → Text → ActiveUploadRow → Bool
is_completed_with upload_id snapshot_id u =
    text_eq u.id upload_id
    && state_eq u.status completed
    && elim u.snapshot_id [ none ↦ false | some s ↦ text_eq s snapshot_id ]

abbrev pub upload_state_conflict : ApiError
upload_state_conflict =
    conflict "upload_state_conflict" "upload state changed while completion was requested"

-- `ORDER BY deleted_at_seq DESC, id DESC LIMIT 1`
unfoldable pub latest_tombstone : List TombstoneRow → Option TombstoneRow
unfolding text_leb
latest_tombstone [] = none
latest_tombstone (t ∷ ts) = elim (latest_tombstone ts) [
  | none ↦ some t
  | some u ↦ some (
      if int_ltb t.deleted_at_seq u.deleted_at_seq
        || (int_eq t.deleted_at_seq u.deleted_at_seq && text_leb t.id u.id)
      then u
      else t)
]

abbrev pub is_tombstone_of : Text → Text → TombstoneRow → Bool
is_tombstone_of session_id fingerprint t =
    text_eq t.session_id session_id && text_eq t.snapshot_fingerprint_sha256 fingerprint

-- The UPDATE of the tombstone that a snapshot is archived again from.
abbrev pub link_tombstone : Text → Text → TombstoneRow → TombstoneRow
link_tombstone tombstone_id snapshot_id t = record {
  id = t.id;
  session_id = t.session_id;
  snapshot_fingerprint_sha256 = t.snapshot_fingerprint_sha256;
  deleted_at_seq = t.deleted_at_seq;
  rearchived_snapshot_id =
      if text_eq t.id tombstone_id
      then elim t.rearchived_snapshot_id [ none ↦ some snapshot_id | some s ↦ some s ]
      else t.rearchived_snapshot_id;
}

module _ (ext : CursorExternal) (owner : Text) where
  -- What is done of an upload whose row is updated, or was not.
  unfoldable pub conclude_upload :
      Drawn → ActiveUploadRow → Manifest → Text → Text → Text → Bool → Commit (Unit {0})
  unfolding insert_capture_provenance
  conclude_upload drawn upload manifest manifest_id snapshot_id now updated =
      if updated
      then insert_capture_provenance ext owner drawn upload manifest manifest_id snapshot_id now
      else reads (λ t. any (is_completed_with upload.id snapshot_id) t.uploads) >>>= λ same.
          returns (reject_if (not same) upload_state_conflict)

  unfoldable pub find_manifest_id : Text → Commit Text
  find_manifest_id upload_id =
      reads (λ t. find (λ m. text_eq m.upload_id upload_id) t.manifests) >>>= λ found.
      returns (ok_or found database_error) >>>= λ row. returns (ok row.id)

  unfoldable pub finalize_upload_for_existing_snapshot :
      Drawn → ActiveUploadRow → Manifest → Text → ℕ → Commit (Unit {0})
  unfolding complete_upload_row conclude_upload find_manifest_id to_sqlite_i64
  finalize_upload_for_existing_snapshot drawn upload manifest snapshot_id transfer_bytes =
      returns (ok_or drawn.now internal) >>>= λ now. atomically (
        reads (λ t. any (λ s. text_eq s.id snapshot_id && is_live_snapshot s) t.snapshots)
        >>>= λ live.
            returns (
              reject_if (not live) (
                conflict "snapshot_deleted"
                  "snapshot was deleted before capture provenance could be recorded"))
            >>>= λ _. returns (to_sqlite_i64 transfer_bytes) >>>= λ bytes.
                complete_upload_row upload.id snapshot_id now bytes (pos 0) >>>= λ updated.
                (if updated then find_manifest_id upload.id else returns (ok []))
                >>>= λ manifest_id.
                    conclude_upload drawn upload manifest manifest_id snapshot_id now updated)
