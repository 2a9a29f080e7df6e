-- ===== src/Deletion/Collect.antt =====
-- `collect_orphaned_blobs_at` (crates/patwari-server/src/deletion.rs). The statements of the
-- database and the removal of files succeed; the lock on a blob's digest, which is held meanwhile,
-- is modelled with the other locks.
use patwari.Prelude.{
  Bool, List, Text, [], any, false, filter, if◌then◌else◌, int_eq, int_ltb, length, map, none, not,
  some, take, text_eq, text_leb, true, ℕ, ℤ, ◌&&◌, ◌+◌, ◌||◌, ◌∷◌,
}
use patwari.Deletion.Archive.{Archive, BlobRow, has_live_reference, set_blobs, set_files}

abbrev pub gc_batch_size : ℕ
gc_batch_size = 256

-- `eligible_after_seq IS NOT NULL AND eligible_after_seq <= now`
abbrev pub is_eligible : ℤ → BlobRow → Bool
is_eligible now b = elim b.eligible_after_seq [ none ↦ false | some seq ↦ not (int_ltb now seq) ]

-- `eligible_after_seq ASC, id ASC`
abbrev pub precedes : BlobRow → BlobRow → Bool
precedes a b = elim a.eligible_after_seq [
  | none ↦ true
  | some s ↦ elim b.eligible_after_seq [
    | none ↦ false
    | some t ↦ int_ltb s t || (int_eq s t && text_leb a.id b.id)
  ]
]

unfoldable pub insert_candidate : BlobRow → List BlobRow → List BlobRow
insert_candidate a [] = a ∷ []
insert_candidate a (b ∷ bs) =
    let rest = insert_candidate a bs in if precedes a b then a ∷ b ∷ bs else b ∷ rest

unfoldable pub sort_candidates : List BlobRow → List BlobRow
unfolding insert_candidate
sort_candidates [] = []
sort_candidates (b ∷ bs) = insert_candidate b (sort_candidates bs)

unfoldable pub gc_candidates : ℤ → Archive → List BlobRow
unfolding sort_candidates
gc_candidates now a = take gc_batch_size (sort_candidates (filter (is_eligible now) a.blobs))

-- A blob that a live snapshot refers to is no candidate for collection.
abbrev pub clear_candidate : Text → BlobRow → BlobRow
clear_candidate id b =
    if text_eq b.id id
    then record {
      id = b.id;
      stored_sha256 = b.stored_sha256;
      orphaned_at = none;
      eligible_after = none;
      eligible_after_seq = none;
    }
    else b

-- The body of the loop for one candidate, and how many blobs it deleted.
unfoldable pub collect_candidate : ℤ → BlobRow → Archive → ℕ × Archive
unfolding has_live_reference
collect_candidate now candidate a =
    if any (λ b. text_eq b.id candidate.id && is_eligible now b) a.blobs
    then (if has_live_reference candidate.id a
        then (0, set_blobs (map (clear_candidate candidate.id) a.blobs) a)
        else (
          1,
          set_files (filter (λ f. not (text_eq f candidate.stored_sha256)) a.blob_files)
              (set_blobs (filter (λ b. not (text_eq b.id candidate.id)) a.blobs) a),
        ))
    else (0, a)

unfoldable pub collect_candidates : ℤ → List BlobRow → Archive → ℕ × Archive
unfolding collect_candidate
collect_candidates now [] a = (0, a)
collect_candidates now (c ∷ cs) a =
    let (deleted, a') = collect_candidate now c a in
    let (rest, a'') = collect_candidates now cs a' in (deleted + rest, a'')

-- `BlobGcResponse`: the blobs that were inspected, and those that were deleted.
unfoldable pub collect_orphaned_blobs_at : ℤ → Archive → (ℕ × ℕ) × Archive
unfolding gc_candidates collect_candidates
collect_orphaned_blobs_at now a =
    let candidates = gc_candidates now a in
    let (deleted, a') = collect_candidates now candidates a in ((length candidates, deleted), a')
