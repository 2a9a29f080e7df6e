-- ===== src/Locks/Waiting.antt =====
-- Tasks that take and drop the lock stripes: the handlers' orders, and why no set of tasks can
-- wait for one another for ever.
pub mod Progress
pub mod Handlers
use patwari.Prelude.{Bool, List, Text, [], if◌then◌else◌, map, ℕ, ◌++◌, ◌+◌, ◌==◌, ◌∷◌}
use patwari.Locks.{
  blob_locks_for_digests, snapshot_lock_stripe, snapshot_lock_stripes, upload_lock_stripe,
  upload_lock_stripes,
}

-- One lock of any family: its place in the order upload, snapshot, blob.
abbrev pub upload_rank : ℕ → ℕ
upload_rank stripe = stripe

abbrev pub snapshot_rank : ℕ → ℕ
snapshot_rank stripe = upload_lock_stripes + stripe

abbrev pub blob_rank : ℕ → ℕ
blob_rank stripe = upload_lock_stripes + snapshot_lock_stripes + stripe

pub data Action : Type 0 where
  lock unlock : ℕ → Action

-- The locks that a task holds, and what it has still to do.
pub record Task : Type 0 where
  pub held : List ℕ
  pub plan : List Action

abbrev pub remove : ℕ → List ℕ → List ℕ
remove l [] = []
remove l (h ∷ held) = let rest = remove l held in if l == h then rest else h ∷ rest

-- The locks of a list, what is done under them, and their release.
abbrev pub guarded : List ℕ → List Action → List Action
guarded locks body = map lock locks ++ (body ++ map unlock locks)

-- `complete_upload`: the upload's lock for the whole call; the lock of a live semantic match
-- only while it is checked again; then the blob locks.
unfoldable pub complete_upload_locks : Text → Bool → Text → Text → Text → List Text → List Action
complete_upload_locks upload_id has_match session_id fingerprint owner digests =
    let snapshot = snapshot_rank (snapshot_lock_stripe session_id fingerprint) in
    let blobs = guarded (map blob_rank (blob_locks_for_digests owner digests)) [] in
    let body = if has_match then lock snapshot ∷ unlock snapshot ∷ blobs else blobs in
    guarded (upload_rank (upload_lock_stripe upload_id) ∷ []) body

-- `delete_snapshot`: the lock of the semantic identity, then the blob locks of its artifacts.
unfoldable pub delete_snapshot_locks : Text → Text → Text → List Text → List Action
delete_snapshot_locks session_id fingerprint owner digests =
    guarded
      (snapshot_rank (snapshot_lock_stripe session_id fingerprint)
        ∷ map blob_rank (blob_locks_for_digests owner digests))
      []

-- `collect_orphaned_blobs_at`: the blob locks of one candidate at a time.
unfoldable pub collect_orphaned_blobs_locks : Text → List Text → List Action
collect_orphaned_blobs_locks owner [] = []
collect_orphaned_blobs_locks owner (digest ∷ candidates) =
    guarded (map blob_rank (blob_locks_for_digests owner (digest ∷ []))) []
    ++ collect_orphaned_blobs_locks owner candidates

-- The handlers that hold only the upload's lock.
unfoldable pub upload_only_locks : Text → List Action
upload_only_locks upload_id = guarded (upload_rank (upload_lock_stripe upload_id) ∷ []) []
