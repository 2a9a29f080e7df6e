-- ===== src/Completion/Blobs.antt =====
-- The blobs of a completion: `unique_stored_artifacts`, `ensure_blob_representations_compatible`,
-- `get_or_create_blob`, `promote_unique_blobs` and `cleanup_uncommitted_promotions`
-- (crates/patwari-server/src/ingestion.rs).
use patwari.Prelude.{
  ◌>>=◌, ApiError, ApiResult, Bool, List, Option, Text, [], any, conflict, database_error, err,
  false, filter, if◌then◌else◌, int_eq, map, none, not, ok, ok_or, reject_if, some, storage_error,
  text_eq, text_leb, true, ℕ, ℤ, ◌&&◌, ◌++◌, ◌==◌, ◌||◌, ◌∷◌,
}
use patwari.Chunks.{to_sqlite_i64}
use patwari.Completion.Assemble.{file_reader, hash_reader}
use patwari.Completion.Prepare.{PreparedArtifact}
use patwari.Completion.Store.{
  BlobFile, Commit, Store, StoredBlob, Tables, is_blob, reads, returns, writes, ◌>>>=◌,
}
use patwari.Completion.{Streams}
use patwari.Contract.{Artifact}
use patwari.Digest.{compression_name, digest_storage_value}
use patwari.Uploads.World.{after, find}

-- `BTreeMap::entry(digest).or_insert(artifact)`, the map as its entries in the order of the keys
unfoldable pub or_insert :
    Text → PreparedArtifact → List (Text × PreparedArtifact) → List (Text × PreparedArtifact)
unfolding text_eq text_leb
or_insert digest p [] = (digest, p) ∷ []
or_insert digest p (entry ∷ entries) =
    let rest = or_insert digest p entries in
    if text_eq entry.0 digest
    then entry ∷ entries
    else if text_leb entry.0 digest
    then entry ∷ rest
    else (digest, p) ∷ entry ∷ entries

unfoldable pub by_digest :
    List PreparedArtifact → List (Text × PreparedArtifact) → List (Text × PreparedArtifact)
unfolding or_insert digest_storage_value
by_digest [] entries = entries
by_digest (p ∷ prepared) entries =
    by_digest prepared (or_insert (digest_storage_value p.artifact.stored_sha256) p entries)

unfoldable pub unique_stored_artifacts : List PreparedArtifact → List PreparedArtifact
unfolding by_digest
unique_stored_artifacts prepared = map (λ e. e.1) (by_digest prepared [])

abbrev pub blob_integrity_conflict : ApiError
blob_integrity_conflict =
    conflict "blob_integrity_conflict"
      "stored digest conflicts with immutable blob size or compression metadata"

-- A blob of the artifact's digest has its size and its compression.
abbrev pub represents : ℤ → Artifact → StoredBlob → Bool
represents size artifact b =
    int_eq b.stored_size_bytes size && text_eq b.compression (compression_name artifact.compression)

abbrev pub represented : ℤ → Artifact → Option StoredBlob → ApiResult (Unit {0})
represented size artifact none = ok tt
represented size artifact (some b) =
    reject_if (not (represents size artifact b)) blob_integrity_conflict

abbrev pub set_blobs : List StoredBlob → Tables → Tables
set_blobs blobs t = record {
  uploads = t.uploads;
  transfers = t.transfers;
  manifests = t.manifests;
  blobs = blobs;
  snapshots = t.snapshots;
  artifacts = t.artifacts;
  captures = t.captures;
  latest_contexts = t.latest_contexts;
  tombstones = t.tombstones;
}

-- The candidate state of a garbage collection is cleared.
abbrev pub claimed_blob : StoredBlob → StoredBlob
claimed_blob b = record {
  id = b.id;
  owner_namespace = b.owner_namespace;
  stored_sha256 = b.stored_sha256;
  stored_size_bytes = b.stored_size_bytes;
  compression = b.compression;
  created_at = b.created_at;
  orphaned_at = none;
  eligible_after = none;
  eligible_after_seq = none;
}

pub record BlobPromotion : Type 0 where
  pub stored_sha256 : Text
  pub stored_size_bytes : ℕ
  pub created : Bool

abbrev pub promotion_of : PreparedArtifact → Bool → BlobPromotion
promotion_of p created = record {
  stored_sha256 = digest_storage_value p.artifact.stored_sha256;
  stored_size_bytes = p.artifact.stored_size_bytes;
  created = created;
}

abbrev pub is_file : Text → BlobFile → Bool
is_file digest f = text_eq f.stored_sha256 digest

abbrev pub remove_blob_file : Text → Store → Store
remove_blob_file digest store = record {
  tables = store.tables;
  blob_files = filter (λ f. not (is_file digest f)) store.blob_files;
}

module _ (owner : Text) where
  -- The loop over the unique artifacts.
  unfoldable pub check_representations : List PreparedArtifact → Commit (Unit {0})
  unfolding to_sqlite_i64 digest_storage_value
  check_representations [] = returns (ok tt)
  check_representations (p ∷ prepared) =
      returns (to_sqlite_i64 p.artifact.stored_size_bytes) >>>= λ size.
      reads (λ t. find (is_blob owner (digest_storage_value p.artifact.stored_sha256)) t.blobs)
      >>>= λ existing.
          returns (represented size p.artifact existing) >>>= λ _. check_representations prepared

  unfoldable pub ensure_blob_representations_compatible : List PreparedArtifact → Commit (Unit {0})
  unfolding check_representations unique_stored_artifacts
  ensure_blob_representations_compatible prepared =
      check_representations (unique_stored_artifacts prepared)

  -- `INSERT ... ON CONFLICT(owner_namespace, stored_sha256) DO NOTHING`
  abbrev pub insert_blob : StoredBlob → List StoredBlob → List StoredBlob
  insert_blob row blobs =
      if any (is_blob row.owner_namespace row.stored_sha256) blobs
      then blobs
      else blobs ++ (row ∷ [])

  unfoldable pub get_or_create_blob : Artifact → Text → Text → Commit Text
  unfolding to_sqlite_i64 digest_storage_value
  get_or_create_blob artifact now blob_id =
      returns (to_sqlite_i64 artifact.stored_size_bytes) >>>= λ size.
      writes (λ t.
        set_blobs
          (insert_blob
            (record {
              id = blob_id;
              owner_namespace = owner;
              stored_sha256 = digest_storage_value artifact.stored_sha256;
              stored_size_bytes = size;
              compression = compression_name artifact.compression;
              created_at = now;
              orphaned_at = none;
              eligible_after = none;
              eligible_after_seq = none;
            })
            t.blobs)
          t)
      >>>= λ _.
          reads (λ t. find (is_blob owner (digest_storage_value artifact.stored_sha256)) t.blobs)
          >>>= λ found. returns (ok_or found database_error) >>>= λ row.
              returns (reject_if (not (represents size artifact row)) blob_integrity_conflict)
              >>>= λ _.
                  writes (λ t.
                    set_blobs (map (λ b. if text_eq b.id row.id then claimed_blob b else b) t.blobs)
                      t)
                  >>>= λ _. returns (ok row.id)

  -- The files that this completion created and no row refers to.
  unfoldable pub cleanup_uncommitted_promotions : List BlobPromotion → Store → Store
  cleanup_uncommitted_promotions [] store = store
  cleanup_uncommitted_promotions (p ∷ promotions) store =
      cleanup_uncommitted_promotions promotions (
        if p.created && not (any (is_blob owner p.stored_sha256) store.tables.blobs)
        then remove_blob_file p.stored_sha256 store
        else store)

module _ (streams : Streams) (owner : Text) where
  -- `verify_stored_file` on the content of a file
  unfoldable pub verify_blob : Text → ℕ → Text → ApiResult (Unit {0})
  unfolding hash_reader
  verify_blob content size digest =
      hash_reader streams (file_reader streams content) size storage_error >>= λ h.
      reject_if (not (h.0 == size) || not (text_eq h.1 (digest_storage_value digest))) storage_error

  -- The hard link of an assembled file, by its content; the result is whether it was created.
  unfoldable pub promote_blob : Text → Text → ℕ → Commit Bool
  unfolding verify_blob digest_storage_value
  promote_blob content stored_sha256 stored_size store =
      let digest = digest_storage_value stored_sha256 in
      elim (find (is_file digest) store.blob_files) [
        | none ↦ (
          ok true,
          record {
            tables = store.tables;
            blob_files = record { stored_sha256 = digest; content = content } ∷ store.blob_files;
          },
        )
        | some file ↦ elim (verify_blob file.content stored_size stored_sha256) [
          | ok _ ↦ (ok false, store)
          | err e ↦ (err e, store)
        ]
      ]

  -- The loop, from what is promoted so far. `content` is what the assembled file of an index has.
  unfoldable pub promote_from :
      (ℕ → Text) → List PreparedArtifact → List BlobPromotion → Commit (List BlobPromotion)
  unfolding promote_blob cleanup_uncommitted_promotions
  promote_from content [] promotions store = (ok promotions, store)
  promote_from content (p ∷ prepared) promotions store =
      let (result, after) =
        promote_blob (content p.artifact_index) p.artifact.stored_sha256
          p.artifact.stored_size_bytes store in
      elim result [
        | err e ↦ (
          err e,
          cleanup_uncommitted_promotions owner (promotions ++ (promotion_of p true ∷ [])) after,
        )
        | ok created ↦
            promote_from content prepared (promotions ++ (promotion_of p created ∷ [])) after
      ]

  unfoldable pub promote_unique_blobs :
      (ℕ → Text) → List PreparedArtifact → Commit (List BlobPromotion)
  unfolding promote_from
  promote_unique_blobs content unique store = promote_from content unique [] store
