-- ===== src/Completion/Commit.antt =====
-- The transaction that makes a snapshot of an upload: `record_completed_upload` and
-- `finalize_winning_snapshot` (crates/patwari-server/src/ingestion.rs).
use patwari.Prelude.{
  ApiResult, Bool, List, Option, Text, [], any, database_error, err, false, filter, if◌then◌else◌,
  internal, length, map, none, ok, ok_or, pos, some, text_eq, true, ℕ, ℤ, ◌++◌, ◌||◌, ◌∷◌,
}
use patwari.Chunks.{to_sqlite_i64}
use patwari.Completion.Blobs.{BlobPromotion, cleanup_uncommitted_promotions, get_or_create_blob}
use patwari.Completion.Finalize.{
  conclude_upload, finalize_upload_for_existing_snapshot, find_manifest_id,
  find_snapshot_by_fingerprint, is_tombstone_of, latest_tombstone, link_tombstone, set_snapshots,
}
use patwari.Completion.Prepare.{PreparedArtifact}
use patwari.Completion.Provenance.{Drawn, complete_upload_row}
use patwari.Completion.Store.{
  Commit, Snapshot, Store, TombstoneRow, changes, has_fingerprint, reads, returns, with_tables,
  writes, ◌>>>=◌,
}
use patwari.Contract.{Manifest}
use patwari.Digest.{digest_storage_value}
use patwari.Pagination.{CursorExternal, sort_key_from_rfc3339}
use patwari.Uploads.World.{ActiveUploadRow, find}
use patwari.Validation.Manifest.{manifest_totals}

-- `blob_ids.get(digest)`
abbrev pub blob_id_of : Text → List (Text × Text) → Option Text
blob_id_of digest ids = elim (find (λ e. text_eq e.0 digest) ids) [
  | none ↦ none
  | some e ↦ some e.1
]

module _ (ext : CursorExternal) (owner : Text) where
  -- The loop that fills `blob_ids`, from the entries so far.
  unfoldable pub record_blobs :
      Drawn → Text → List PreparedArtifact → List (Text × Text) → Commit (List (Text × Text))
  unfolding get_or_create_blob digest_storage_value text_eq
  record_blobs drawn now [] ids = returns (ok ids)
  record_blobs drawn now (p ∷ prepared) ids =
      let digest = digest_storage_value p.artifact.stored_sha256 in
      elim (blob_id_of digest ids) [
        | some _ ↦ record_blobs drawn now prepared ids
        | none ↦ get_or_create_blob owner p.artifact now (drawn.blob_id digest) >>>= λ blob_id.
            record_blobs drawn now prepared (ids ++ ((digest, blob_id) ∷ []))
      ]

  -- The loop of `finalize_winning_snapshot` over the artifacts.
  unfoldable pub insert_artifacts :
      Drawn → Text → Text → ℤ → List (Text × Text) → List PreparedArtifact → Commit (Unit {0})
  unfolding digest_storage_value to_sqlite_i64 text_eq
  insert_artifacts drawn snapshot_id now now_seq ids [] = returns (ok tt)
  insert_artifacts drawn snapshot_id now now_seq ids (p ∷ prepared) =
      returns (ok_or (blob_id_of (digest_storage_value p.artifact.stored_sha256) ids) internal)
      >>>= λ blob_id. returns (to_sqlite_i64 p.artifact.original_size_bytes) >>>= λ original.
          writes (λ t.
            set_snapshots t.snapshots
              (t.artifacts
                ++ (record {
                  id = drawn.artifact_id p.artifact_index;
                  snapshot_id = snapshot_id;
                  blob_id = blob_id;
                  logical_path = p.artifact.logical_path;
                  media_type = p.artifact.media_type;
                  original_size_bytes = original;
                  original_sha256 = digest_storage_value p.artifact.original_sha256;
                  created_at = now;
                  created_at_seq = now_seq;
                  artifact_index = pos p.artifact_index;
                }
                    ∷ []))
              t.tombstones t)
          >>>= λ _. insert_artifacts drawn snapshot_id now now_seq ids prepared

  unfoldable pub finalize_winning_snapshot :
      Drawn
      → ActiveUploadRow
      → Manifest
      → Text
      → List PreparedArtifact
      → List (Text × Text)
      → Text
      → ℤ
      → ℕ
      → ℕ
      → Commit (Unit {0})
  unfolding insert_artifacts complete_upload_row conclude_upload to_sqlite_i64
  finalize_winning_snapshot drawn upload manifest manifest_id prepared ids now now_seq
        transfer_bytes newly_persisted_bytes =
      insert_artifacts drawn drawn.snapshot_id now now_seq ids prepared >>>= λ _.
      returns (to_sqlite_i64 transfer_bytes) >>>= λ bytes.
      returns (to_sqlite_i64 newly_persisted_bytes) >>>= λ persisted.
      complete_upload_row upload.id drawn.snapshot_id now bytes persisted >>>= λ updated.
      conclude_upload ext owner drawn upload manifest manifest_id drawn.snapshot_id now updated

  -- `INSERT INTO snapshots ... ON CONFLICT DO NOTHING`: whether the row is inserted. The keys in
  -- conflict are the primary key and the unique index on the session and the fingerprint of the live
  -- snapshots (migrations/0008_snapshot_tombstones.sql).
  unfoldable pub insert_snapshot : Snapshot → Commit Bool
  insert_snapshot row store =
      if any (λ s. text_eq s.id row.id || has_fingerprint row.session_id row.fingerprint_sha256 s)
        store.tables.snapshots
      then (ok false, store)
      else (
        ok true,
        with_tables
            (set_snapshots (store.tables.snapshots ++ (row ∷ [])) store.tables.artifacts
              store.tables.tombstones store.tables)
            store,
      )

  -- After the INSERT that won: `finalize_winning_snapshot` and the link of the tombstone.
  unfoldable pub commit_winner :
      Drawn
      → ActiveUploadRow
      → Manifest
      → Text
      → List PreparedArtifact
      → List (Text × Text)
      → Option TombstoneRow
      → Text
      → ℤ
      → ℕ
      → ℕ
      → Commit (Unit {0})
  unfolding finalize_winning_snapshot text_eq
  commit_winner drawn upload manifest manifest_id prepared ids prior now now_seq transfer_bytes
        newly_persisted_bytes =
      finalize_winning_snapshot drawn upload manifest manifest_id prepared ids now now_seq
        transfer_bytes newly_persisted_bytes
      >>>= λ _. elim prior [
        | none ↦ returns (ok tt)
        | some tombstone ↦ writes (λ t.
            set_snapshots t.snapshots t.artifacts
              (map (link_tombstone tombstone.id drawn.snapshot_id) t.tombstones) t)
      ]

  -- The transaction up to its commit or its rollback; false is the rollback of a completion that
  -- lost to another one of the same fingerprint.
  unfoldable pub commit_snapshot :
      Drawn
      → ActiveUploadRow
      → Manifest
      → List PreparedArtifact
      → Text
      → Text
      → ℤ
      → ℕ
      → ℕ
      → Commit Bool
  unfolding record_blobs find_manifest_id latest_tombstone insert_snapshot commit_winner
      manifest_totals to_sqlite_i64 text_eq
  commit_snapshot drawn upload manifest prepared fingerprint now now_seq transfer_bytes
        newly_persisted_bytes =
      record_blobs drawn now prepared [] >>>= λ ids.
      find_manifest_id ext owner upload.id >>>= λ manifest_id.
      reads (λ t.
        latest_tombstone (filter (is_tombstone_of upload.session_id fingerprint) t.tombstones))
      >>>= λ prior. returns (manifest_totals manifest) >>>= λ totals.
          returns (to_sqlite_i64 (length prepared)) >>>= λ count.
          returns (to_sqlite_i64 totals.0) >>>= λ original.
          returns (to_sqlite_i64 totals.1) >>>= λ stored.
          insert_snapshot (record {
            id = drawn.snapshot_id;
            owner_namespace = owner;
            session_id = upload.session_id;
            manifest_id = manifest_id;
            fingerprint_sha256 = fingerprint;
            completed_at = now;
            completed_at_seq = now_seq;
            artifact_count = count;
            total_original_size_bytes = original;
            total_stored_size_bytes = stored;
            rearchived_from_tombstone_id = elim prior [ none ↦ none | some t ↦ some t.id ];
            deleted_at = none;
          })
          >>>= λ inserted.
              if inserted
              then (commit_winner drawn upload manifest manifest_id prepared ids prior now now_seq
                    transfer_bytes newly_persisted_bytes
                  >>>= λ _. returns (ok true))
              else returns (ok false)

  -- `begin` to `commit`, or to the `rollback` of the loser
  abbrev pub rolled_back_if_lost : Store → ApiResult Bool × Store → ApiResult Bool × Store
  rolled_back_if_lost before (ok true, store) = (ok true, store)
  rolled_back_if_lost before (ok false, store) = (ok false, with_tables before.tables store)
  rolled_back_if_lost before (err e, store) = (err e, with_tables before.tables store)

  unfoldable pub in_transaction : Commit Bool → Commit Bool
  in_transaction m store = rolled_back_if_lost store (m store)

  -- `others` is what other handlers do between the rollback and the SELECT of the winner, `later`
  -- what they do from then on until the winner's transaction begins.
  unfoldable pub record_completed_upload :
      Drawn
      → ActiveUploadRow
      → Manifest
      → List PreparedArtifact
      → List BlobPromotion
      → Text
      → ℕ
      → ℕ
      → (Store → Store)
      → (Store → Store)
      → Commit (Unit {0})
  unfolding in_transaction commit_snapshot cleanup_uncommitted_promotions
      find_snapshot_by_fingerprint finalize_upload_for_existing_snapshot sort_key_from_rfc3339
  record_completed_upload drawn upload manifest prepared promotions fingerprint transfer_bytes
        newly_persisted_bytes others later =
      returns (ok_or drawn.now internal) >>>= λ now.
      returns (ok_or (sort_key_from_rfc3339 ext now) internal) >>>= λ now_seq.
      in_transaction (
        commit_snapshot drawn upload manifest prepared fingerprint now now_seq transfer_bytes
          newly_persisted_bytes)
      >>>= λ won.
          if won
          then returns (ok tt)
          else changes others >>>= λ _.
              reads (find_snapshot_by_fingerprint upload.session_id fingerprint) >>>= λ winner.
              returns (ok_or winner database_error) >>>= λ snapshot_id.
              changes (cleanup_uncommitted_promotions owner promotions) >>>= λ _.
              changes later >>>= λ _.
              finalize_upload_for_existing_snapshot ext owner drawn upload manifest snapshot_id
                transfer_bytes
