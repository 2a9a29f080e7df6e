-- ===== src/Locks/Waiting/Handlers.antt =====
-- The handlers take their locks in ascending order.
use mathlib.Core.List.{append_assoc, append-nil}
use patwari.Prelude.{
  All, Bool, List, Text, [], ap, arith, false, map, refl, subst, sym, true, ℕ, ◌++◌, ◌<◌, ◌∙◌, ◌∷◌,
  ◌≡◌,
}
use patwari.Locks.Order.{Ascending, blob_locks_for_digests-Ascending}
use patwari.Locks.Waiting.Progress.{
  AreOrdered, InTasks, IsIdle, IsOrdered, Reach, Reach-no_deadlock,
}
use patwari.Locks.Waiting.{
  Action, Task, blob_rank, collect_orphaned_blobs_locks, complete_upload_locks,
  delete_snapshot_locks, guarded, lock, remove, snapshot_rank, unlock, upload_only_locks,
  upload_rank,
}
use patwari.Locks.{
  blob_locks_for_digests, snapshot_lock_stripe, stable_lock_stripe, upload_lock_stripe,
}

abbrev Above : List ℕ → List ℕ → Type 0
Above held = All (λ l. All (λ h. h < l) held)

Ascending-All : (a : ℕ) (l : List ℕ) → Ascending (a ∷ l) → All (λ b. a < b) l
Ascending-All a [] s = tt
Ascending-All a (b ∷ l) s = (s.0, weaken a b l s.0 (Ascending-All b l s.1))
  where
    weaken : (x y : ℕ) (k : List ℕ) → x < y → All (λ c. y < c) k → All (λ c. x < c) k
    weaken x y [] h m = tt
    weaken x y (c ∷ k) h m = (omega arith, weaken x y k h m.1)

Ascending-rest : (a : ℕ) (l : List ℕ) → Ascending (a ∷ l) → Ascending l
Ascending-rest a [] s = tt
Ascending-rest a (b ∷ l) s = s.1

Above-cons : (a : ℕ) (held l : List ℕ) → All (λ b. a < b) l → Above held l → Above (a ∷ held) l
Above-cons a held [] h k = tt
Above-cons a held (b ∷ l) h k = ((h.0, k.0), Above-cons a held l h.1 k.1)

Above-nil : (l : List ℕ) → Above [] l
Above-nil [] = tt
Above-nil (a ∷ l) = (tt, Above-nil l)

remove-below : (l : ℕ) (held : List ℕ) → All (λ h. h < l) held → remove l held ≡ held
remove-below l [] h = refl
remove-below l (a ∷ held) h = ground (arith, remove-below l held h.1)

-- The locks taken so far, the last one first.
abbrev taken : List ℕ → List ℕ → List ℕ
taken [] held = held
taken (l ∷ locks) held = taken locks (l ∷ held)

remove-taken :
    (l : ℕ) (locks held : List ℕ)
    → All (λ b. l < b) locks
    → remove l (taken locks held) ≡ taken locks (remove l held)
remove-taken l [] held h = refl
remove-taken l (b ∷ locks) held h =
    remove-taken l locks (b ∷ held) h.1 ∙ ap (taken locks) (ground arith)

locks-IsOrdered :
    (locks held : List ℕ) (tail : List Action)
    → Ascending locks
    → Above held locks
    → IsOrdered (taken locks held) tail
    → IsOrdered held (map lock locks ++ tail)
locks-IsOrdered [] held tail s b o = o
locks-IsOrdered (l ∷ locks) held tail s b o = (
  b.0,
  locks-IsOrdered locks (l ∷ held) tail (Ascending-rest l locks s)
      (Above-cons l held locks (Ascending-All l locks s) b.1) o,
)

unlocks-IsOrdered :
    (locks held : List ℕ) (tail : List Action)
    → Ascending locks
    → Above held locks
    → IsOrdered held tail
    → IsOrdered (taken locks held) (map unlock locks ++ tail)
unlocks-IsOrdered [] held tail s b o = o
unlocks-IsOrdered (l ∷ locks) held tail s b o =
    let same : remove l (l ∷ held) ≡ held = ground (arith, remove-below l held b.0) in
    let back = remove-taken l locks (l ∷ held) (Ascending-All l locks s) ∙ ap (taken locks) same in
    subst (λ h. IsOrdered h (map unlock locks ++ tail)) (sym back)
      (unlocks-IsOrdered locks held tail (Ascending-rest l locks s) b.1 o)

guarded-IsOrdered :
    (locks held : List ℕ) (tail : List Action)
    → Ascending locks
    → Above held locks
    → IsOrdered held tail
    → IsOrdered held (guarded locks [] ++ tail)
guarded-IsOrdered locks held tail s b o = rw append_assoc (
    locks-IsOrdered locks held (map unlock locks ++ tail) s b
      (unlocks-IsOrdered locks held tail s b o))

guarded-IsOrdered_alone : (locks : List ℕ) → Ascending locks → IsOrdered [] (guarded locks [])
guarded-IsOrdered_alone locks s =
    subst (IsOrdered []) (append-nil (guarded locks []))
      (guarded-IsOrdered locks [] [] s (Above-nil locks) refl)

blob_ranks-Ascending : (l : List ℕ) → Ascending l → Ascending (map blob_rank l)
blob_ranks-Ascending [] s = tt
blob_ranks-Ascending (a ∷ []) s = tt
blob_ranks-Ascending (a ∷ b ∷ l) s = (omega arith, blob_ranks-Ascending (b ∷ l) s.1)

blob_ranks-after : (a : ℕ) (l : List ℕ) → a < 512 → Ascending l → Ascending (a ∷ map blob_rank l)
blob_ranks-after a [] h s = tt
blob_ranks-after a (b ∷ l) h s = (omega arith, blob_ranks-Ascending (b ∷ l) s)

Above-blob_ranks : (h : ℕ) (l : List ℕ) → h < 512 → Above (h ∷ []) (map blob_rank l)
Above-blob_ranks h [] b = tt
Above-blob_ranks h (a ∷ l) b = ((omega arith, tt), Above-blob_ranks h l b)

upload_lock_stripe-bound : (t : Text) → upload_lock_stripe t < 256
unfolding upload_lock_stripe
upload_lock_stripe-bound t = omega arith

snapshot_lock_stripe-bound : (s f : Text) → snapshot_lock_stripe s f < 256
unfolding snapshot_lock_stripe stable_lock_stripe
snapshot_lock_stripe-bound s f = omega arith

blob_locks-Ascending :
    (owner : Text) (digests : List Text)
    → Ascending (map blob_rank (blob_locks_for_digests owner digests))
blob_locks-Ascending owner digests =
    blob_ranks-Ascending _ (blob_locks_for_digests-Ascending owner digests).0

blob_locks_under :
    (owner : Text) (digests : List Text) (h : ℕ)
    → h < 512
    → IsOrdered
        (h ∷ [])
        (guarded (map blob_rank (blob_locks_for_digests owner digests)) [] ++ (unlock h ∷ []))
blob_locks_under owner digests h b =
    guarded-IsOrdered (map blob_rank (blob_locks_for_digests owner digests)) (h ∷ [])
      (unlock h ∷ []) (blob_locks-Ascending owner digests) (Above-blob_ranks h _ b) (ground arith)

upload_only-IsOrdered : (u : Text) → IsOrdered [] (upload_only_locks u)
unfolding upload_only_locks
upload_only-IsOrdered u = (tt, ground arith)

complete-IsOrdered :
    (u : Text) (match : Bool) (s f o : Text) (ds : List Text)
    → IsOrdered [] (complete_upload_locks u match s f o ds)
unfolding complete_upload_locks
complete-IsOrdered u true s f o ds =
    let a = snapshot_rank (snapshot_lock_stripe s f) in
    let b = upload_rank (upload_lock_stripe u) in
    let dropped : remove a (a ∷ b ∷ []) ≡ b ∷ [] = ground (arith, upload_lock_stripe-bound u) in
    (
      tt,
      (
        (omega (arith, upload_lock_stripe-bound u), tt),
        subst
            (λ held.
              IsOrdered held
                (guarded (map blob_rank (blob_locks_for_digests o ds)) [] ++ (unlock b ∷ [])))
            (sym dropped) (blob_locks_under o ds b (omega (arith, upload_lock_stripe-bound u))),
      ),
    )
complete-IsOrdered u false s f o ds =
    (tt, blob_locks_under o ds _ (omega (arith, upload_lock_stripe-bound u)))

delete-IsOrdered : (s f o : Text) (ds : List Text) → IsOrdered [] (delete_snapshot_locks s f o ds)
unfolding delete_snapshot_locks
delete-IsOrdered s f o ds =
    guarded-IsOrdered_alone
      (snapshot_rank (snapshot_lock_stripe s f) ∷ map blob_rank (blob_locks_for_digests o ds))
      (blob_ranks-after (snapshot_rank (snapshot_lock_stripe s f)) (blob_locks_for_digests o ds)
        (omega (arith, snapshot_lock_stripe-bound s f)) (blob_locks_for_digests-Ascending o ds).0)

collect-IsOrdered : (o : Text) (ds : List Text) → IsOrdered [] (collect_orphaned_blobs_locks o ds)
unfolding collect_orphaned_blobs_locks
collect-IsOrdered o [] = refl
collect-IsOrdered o (d ∷ ds) =
    guarded-IsOrdered _ [] _ (blob_locks-Ascending o (d ∷ [])) (Above-nil _)
      (collect-IsOrdered o ds)

-- A task that is at the start of one of the handlers.
pub data IsHandler : Task → Type 0 where
  completion :
      (u : Text) (has_match : Bool) (s f o : Text) (digests : List Text) {t : Task}
      → t ≡ record { held = []; plan = complete_upload_locks u has_match s f o digests }
      → IsHandler t
  deletion :
      (s f o : Text) (digests : List Text) {t : Task}
      → t ≡ record { held = []; plan = delete_snapshot_locks s f o digests }
      → IsHandler t
  collection :
      (o : Text) (digests : List Text) {t : Task}
      → t ≡ record { held = []; plan = collect_orphaned_blobs_locks o digests }
      → IsHandler t
  upload_only :
      (u : Text) {t : Task} → t ≡ record { held = []; plan = upload_only_locks u } → IsHandler t

IsHandler-IsOrdered : (t : Task) → IsHandler t → IsOrdered t.held t.plan
IsHandler-IsOrdered t (completion u m s f o ds e) = rw e (complete-IsOrdered u m s f o ds)
IsHandler-IsOrdered t (deletion s f o ds e) = rw e (delete-IsOrdered s f o ds)
IsHandler-IsOrdered t (collection o ds e) = rw e (collect-IsOrdered o ds)
IsHandler-IsOrdered t (upload_only u e) = rw e (upload_only-IsOrdered u)

are_ordered : (ts : List Task) → All IsHandler ts → AreOrdered ts
are_ordered [] h = tt
are_ordered (t ∷ ts) h = (IsHandler-IsOrdered t h.0, are_ordered ts h.1)

-- However completions, deletions, garbage collections and the other upload handlers interleave,
-- they never wait for one another for ever: in a reachable state in which every task has finished
-- or waits for a lock that a task holds, all have finished.
pub handlers_no_deadlock :
    (s s' : List Task)
    → All IsHandler s
    → Reach s s'
    → All (IsIdle s') s'
    → (t : Task) → InTasks t s'
    → t.plan ≡ []
handlers_no_deadlock s s' h r idle t m = Reach-no_deadlock s s' (are_ordered s h) r idle t m
