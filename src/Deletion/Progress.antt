-- ===== src/Deletion/Progress.antt =====
-- Garbage collection makes progress: what a pass inspects is deleted or taken off the schedule
-- (crates/patwari-server/src/deletion.rs).
use patwari.Prelude.{
  All, All-map, Bool, Bool-cases, List, Text, [], any, any-filter, arith, false, filter, inl, inr,
  map, none, not, refl, some, subst, sym, text_eq, text_eq_iff, true, ℤ, ◌&&◌, ◌∙◌, ◌∷◌, ◌≡◌,
}
use patwari.Deletion.Archive.{Archive, BlobRow, has_live_reference}
use patwari.Deletion.Collect.{
  clear_candidate, collect_candidate, collect_candidates, collect_orphaned_blobs_at, gc_candidates,
  is_eligible,
}
use patwari.Deletion.Safety.{gc_candidates-All}

-- The blob has a time from which it may be collected.
abbrev pub is_scheduled : BlobRow → Bool
is_scheduled b = elim b.eligible_after_seq [ none ↦ false | some _ ↦ true ]

abbrev eligible : Text → ℤ → List BlobRow → Bool
eligible id now bs = any (λ b. text_eq b.id id && is_eligible now b) bs

abbrev scheduled : Text → List BlobRow → Bool
scheduled id bs = any (λ b. text_eq b.id id && is_scheduled b) bs

-- A blob is still eligible, or has no schedule any more.
abbrev IsPending : ℤ → Archive → Text → Type 0
IsPending now a id = eligible id now a.blobs ≡ false → scheduled id a.blobs ≡ false

deleted :
    (id : Text) (bs : List BlobRow) → scheduled id (filter (λ b. not (text_eq b.id id)) bs) ≡ false
deleted id [] = refl
deleted id (b ∷ bs) = ground (arith, deleted id bs)

cleared : (id : Text) (bs : List BlobRow) → scheduled id (map (clear_candidate id) bs) ≡ false
cleared id [] = refl
cleared id (b ∷ bs) = elim (Bool-cases (text_eq b.id id)) [
  | inl t ↦ rw t (ground (arith, cleared id bs))
  | inr f ↦ rw f (ground (arith, cleared id bs))
]

-- Clearing one blob gives no blob a schedule.
still_cleared :
    (id other : Text) (bs : List BlobRow)
    → scheduled id bs ≡ false
    → scheduled id (map (clear_candidate other) bs) ≡ false
still_cleared id other [] n = refl
still_cleared id other (b ∷ bs) n = elim (Bool-cases (text_eq b.id other)) [
  | inl t ↦ rw t (ground (arith, still_cleared id other bs))
  | inr f ↦ rw f (ground (arith, still_cleared id other bs))
]

-- After its turn a candidate that was pending is deleted, or cleared for its live reference.
candidate_done :
    (now : ℤ) (c : BlobRow) (a : Archive)
    → IsPending now a c.id
    → scheduled c.id (collect_candidate now c a).1.blobs ≡ false
unfolding collect_candidate
candidate_done now c a p = elim (Bool-cases (eligible c.id now a.blobs)) [
  | inr f ↦ rw f (p f)
  | inl t ↦ elim (Bool-cases (has_live_reference c.id a)) [
    | inl l ↦ rw t (rw l (cleared c.id a.blobs))
    | inr l ↦ rw t (rw l (deleted c.id a.blobs))
  ]
]

-- A turn gives no blob a schedule.
candidate_unscheduled :
    (now : ℤ) (id : Text) (c : BlobRow) (a : Archive)
    → scheduled id a.blobs ≡ false
    → scheduled id (collect_candidate now c a).1.blobs ≡ false
unfolding collect_candidate
candidate_unscheduled now id c a n = elim (Bool-cases (eligible c.id now a.blobs)) [
  | inr f ↦ rw f n
  | inl t ↦ elim (Bool-cases (has_live_reference c.id a)) [
    | inl l ↦ rw t (rw l (still_cleared id c.id a.blobs n))
    | inr l ↦ rw t (rw l (any-filter _ (λ b. not (text_eq b.id c.id)) a.blobs n))
  ]
]

candidates_unscheduled :
    (now : ℤ) (id : Text) (cs : List BlobRow) (a : Archive)
    → scheduled id a.blobs ≡ false
    → scheduled id (collect_candidates now cs a).1.blobs ≡ false
unfolding collect_candidates
candidates_unscheduled now id [] a n = n
candidates_unscheduled now id (c ∷ cs) a n =
    candidates_unscheduled now id cs (collect_candidate now c a).1
      (candidate_unscheduled now id c a n)

-- Another blob's rows are what they were.
other_deleted :
    (now : ℤ) (id other : Text) (bs : List BlobRow)
    → text_eq other id ≡ false
    → eligible id now (filter (λ b. not (text_eq b.id other)) bs) ≡ eligible id now bs
other_deleted now id other [] n = refl
other_deleted now id other (b ∷ bs) n = ground (
  arith,
  other_deleted now id other bs n,
  text_eq_iff b.id other,
  text_eq_iff b.id id,
  text_eq_iff other id,
)

other_cleared :
    (now : ℤ) (id other : Text) (bs : List BlobRow)
    → text_eq other id ≡ false
    → eligible id now (map (clear_candidate other) bs) ≡ eligible id now bs
other_cleared now id other [] n = refl
other_cleared now id other (b ∷ bs) n = elim (Bool-cases (text_eq b.id other)) [
  | inl t ↦ rw t (
      ground (
        arith,
        other_cleared now id other bs n,
        text_eq_iff b.id other,
        text_eq_iff b.id id,
        text_eq_iff other id,
      ))
  | inr f ↦ rw f (ground (arith, other_cleared now id other bs n))
]

other_candidate :
    (now : ℤ) (id : Text) (c : BlobRow) (a : Archive)
    → text_eq c.id id ≡ false
    → eligible id now (collect_candidate now c a).1.blobs ≡ eligible id now a.blobs
unfolding collect_candidate
other_candidate now id c a n = elim (Bool-cases (eligible c.id now a.blobs)) [
  | inr f ↦ rw f refl
  | inl t ↦ elim (Bool-cases (has_live_reference c.id a)) [
    | inl l ↦ rw t (rw l (other_cleared now id c.id a.blobs n))
    | inr l ↦ rw t (rw l (other_deleted now id c.id a.blobs n))
  ]
]

collect_candidate-IsPending :
    (now : ℤ) (id : Text) (c : BlobRow) (a : Archive)
    → IsPending now a id
    → IsPending now (collect_candidate now c a).1 id
collect_candidate-IsPending now id c a p = elim (Bool-cases (text_eq c.id id)) [
  | inl t ↦ λ _.
      subst (λ i. scheduled i (collect_candidate now c a).1.blobs ≡ false)
        ((text_eq_iff c.id id).0 t)
        (candidate_done now c a (subst (IsPending now a) (sym ((text_eq_iff c.id id).0 t)) p))
  | inr n ↦ λ e. candidate_unscheduled now id c a (p (sym (other_candidate now id c a n) ∙ e))
]

candidates_done :
    (now : ℤ) (cs : List BlobRow) (a : Archive)
    → All (λ c. IsPending now a c.id) cs
    → All (λ c. scheduled c.id (collect_candidates now cs a).1.blobs ≡ false) cs
unfolding collect_candidates
candidates_done now [] a h = tt
candidates_done now (c ∷ cs) a h = (
  candidates_unscheduled now c.id cs (collect_candidate now c a).1 (candidate_done now c a h.0),
  candidates_done now cs (collect_candidate now c a).1
      (All-map _ _ cs (λ d p. collect_candidate-IsPending now d.id c a p) h.1),
)

-- A row that is eligible is found.
eligible_found :
    (now : ℤ) (bs : List BlobRow)
    → All (λ c. is_eligible now c ≡ true → eligible c.id now bs ≡ true) bs
eligible_found now [] = tt
eligible_found now (b ∷ bs) = (
  λ t. ground (arith, t, text_eq_iff b.id b.id),
  All-map _ _ bs (λ c h t. ground (arith, h t)) (eligible_found now bs),
)

-- After a pass no blob that it inspected has a schedule any more: each is deleted, or its
-- `eligible_after_seq` is null, so that no later pass inspects it unless it is scheduled again.
pub collect_orphaned_blobs_at-progress :
    (now : ℤ) (a : Archive)
    → All
        (λ c.
          any (λ b. text_eq b.id c.id && is_scheduled b) (collect_orphaned_blobs_at now a).1.blobs
          ≡ false)
        (gc_candidates now a)
unfolding collect_orphaned_blobs_at
collect_orphaned_blobs_at-progress now a = candidates_done now (gc_candidates now a) a (
    gc_candidates-All _ now a
      (All-map _ _ a.blobs (λ c h t f. ground (arith, h t, f)) (eligible_found now a.blobs)))
