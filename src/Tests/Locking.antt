-- ===== src/Tests/Locking.antt =====
-- Handlers that wait for locks (crates/patwari-server/src/service.rs, ingestion.rs, deletion.rs).
use patwari.Prelude.{
  All, List, Text, [], ap, bytes, inl, inr, refl, subst, ℕ, ◌<◌, ◌↔◌, ◌∙◌, ◌∷◌, ◌≡◌,
}
use patwari.Locks.Order.{Ascending, In, InText, blob_locks_for_digests-Ascending}
use patwari.Locks.Waiting.Handlers.{collection, handlers_no_deadlock, upload_only}
use patwari.Locks.Waiting.Progress.{InTasks, Reach, acquire, here, move, next, release}
use patwari.Locks.Waiting.{
  Action, Task, collect_orphaned_blobs_locks, unlock, upload_only_locks, upload_rank,
}
use patwari.Locks.{
  blob_lock_stripe, blob_lock_stripes, blob_locks_for_digests, fnv, upload_lock_stripe,
}

-- An abandonment, and a garbage collection of one blob, each with its first lock.
abbrev upload_lock : ℕ
unfolding upload_lock_stripe fnv
upload_lock = upload_rank (upload_lock_stripe (bytes "u"))

abbrev at_start : List Action → Task
at_start plan = record { held = []; plan = plan }

abbrev abandonment : Task
abandonment = at_start (upload_only_locks (bytes "u"))

abbrev collecting : Task
collecting = at_start (collect_orphaned_blobs_locks (bytes "default") [])

abbrev under_lock : Task
under_lock = record { held = upload_lock ∷ []; plan = unlock upload_lock ∷ [] }

free :
    (l : ℕ) (ts : List Task)
    → All (λ t. t.held ≡ []) ts
    → (u : Task) → InTasks u ts
    → ¬ (In l u.held)
free l [] h u m k = absurd m
free l (t ∷ ts) h u (inl e) k = subst (λ held. In l held) (ap (λ x. x.held) e ∙ h.0) k
free l (t ∷ ts) h u (inr m) k = free l ts h.1 u m k

both_run : Reach (abandonment ∷ collecting ∷ []) (at_start [] ∷ collecting ∷ [])
unfolding upload_only_locks upload_lock_stripe fnv collect_orphaned_blobs_locks
both_run =
    next
      (next here (
        move [] (collecting ∷ []) refl refl (
          acquire abandonment upload_lock (unlock upload_lock ∷ []) refl
            (free upload_lock (abandonment ∷ collecting ∷ []) (refl, (refl, tt))))))
      (move [] (collecting ∷ []) refl refl (release under_lock upload_lock [] refl))

handlers_no_deadlock_example : collecting.plan ≡ []
unfolding collect_orphaned_blobs_locks
handlers_no_deadlock_example =
    handlers_no_deadlock (abandonment ∷ collecting ∷ []) (at_start [] ∷ collecting ∷ [])
      (upload_only (bytes "u") refl, (collection (bytes "default") [] refl, tt)) both_run
      (inl refl, (inl refl, tt)) collecting (inr (inl refl))

blob_locks_for_digests-Ascending_example :
    Ascending (blob_locks_for_digests (bytes "default") (bytes "aa" ∷ bytes "bb" ∷ []))
    × ((s : ℕ)
        → In s (blob_locks_for_digests (bytes "default") (bytes "aa" ∷ bytes "bb" ∷ [])) ↔ (
            (d : Text) × InText d (bytes "aa" ∷ bytes "bb" ∷ [])
            × (s ≡ blob_lock_stripe (bytes "default") d)))
    × ((s : ℕ)
        → In s (blob_locks_for_digests (bytes "default") (bytes "aa" ∷ bytes "bb" ∷ []))
        → s < blob_lock_stripes)
blob_locks_for_digests-Ascending_example =
    blob_locks_for_digests-Ascending (bytes "default") (bytes "aa" ∷ bytes "bb" ∷ [])
