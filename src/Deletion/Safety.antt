-- ===== src/Deletion/Safety.antt =====
-- Garbage collection never takes a blob from a live snapshot
-- (crates/patwari-server/src/deletion.rs).
use patwari.Prelude.{
  All, All-map, Bool, Bool-cases, List, Text, [], any, ap, arith, filter, filter-All, inl, inr, map,
  not, refl, suc, take, text_eq, text_eq_iff, true, zero, ℕ, ℤ, ◌&&◌, ◌∙◌, ◌∷◌, ◌≡◌, ◌≢◌,
}
use patwari.Deletion.Archive.{Archive, BlobRow, has_live_reference}
use patwari.Deletion.Collect.{
  clear_candidate, collect_candidate, collect_candidates, collect_orphaned_blobs_at, gc_batch_size,
  gc_candidates, insert_candidate, is_eligible, precedes, sort_candidates,
}

-- The archive has a blob with an id and a digest, and the digest's file.
abbrev pub has_blob : Text → Text → Archive → Bool
has_blob id digest a = any (λ b. text_eq b.id id && text_eq b.stored_sha256 digest) a.blobs

abbrev pub has_file : Text → Archive → Bool
has_file digest a = any (λ f. text_eq f digest) a.blob_files

module _ {κ} (P : BlobRow → Type κ) where
  insert_candidate-All :
      (b : BlobRow) (bs : List BlobRow) → P b → All P bs → All P (insert_candidate b bs)
  unfolding insert_candidate
  insert_candidate-All b [] p h = (p, tt)
  insert_candidate-All b (c ∷ bs) p h = elim (Bool-cases (precedes b c)) [
    | inl t ↦ rw t (p, h)
    | inr f ↦ rw f (h.0, insert_candidate-All b bs p h.1)
  ]

  sort_candidates-All : (bs : List BlobRow) → All P bs → All P (sort_candidates bs)
  unfolding sort_candidates
  sort_candidates-All [] h = tt
  sort_candidates-All (b ∷ bs) h =
      insert_candidate-All b (sort_candidates bs) h.0 (sort_candidates-All bs h.1)

  take-All : (n : ℕ) (bs : List BlobRow) → All P bs → All P (take n bs)
  take-All zero bs h = tt
  take-All (suc n) [] h = tt
  take-All (suc n) (b ∷ bs) h = (h.0, take-All n bs h.1)

  pub gc_candidates-All :
      (now : ℤ) (a : Archive)
      → All (λ b. is_eligible now b ≡ true → P b) a.blobs
      → All P (gc_candidates now a)
  unfolding gc_candidates
  gc_candidates-All now a h = take-All gc_batch_size _ (
      sort_candidates-All _ (
        filter-All (λ b. is_eligible now b ≡ true → P b) P (is_eligible now) a.blobs (λ _ t p. p t)
          h))

any-clear :
    (id digest other : Text) (bs : List BlobRow)
    → any (λ b. text_eq b.id id && text_eq b.stored_sha256 digest) (map (clear_candidate other) bs)
      ≡ any (λ b. text_eq b.id id && text_eq b.stored_sha256 digest) bs
any-clear id digest other [] = refl
any-clear id digest other (b ∷ bs) = elim (Bool-cases (text_eq b.id other)) [
  | inl t ↦ ground (arith, any-clear id digest other bs, t)
  | inr f ↦ ground (arith, any-clear id digest other bs, f)
]

any-delete :
    (id digest other : Text) (bs : List BlobRow)
    → other ≢ id
    → any
        (λ b. text_eq b.id id && text_eq b.stored_sha256 digest)
        (filter (λ b. not (text_eq b.id other)) bs)
      ≡ any (λ b. text_eq b.id id && text_eq b.stored_sha256 digest) bs
any-delete id digest other [] n = refl
any-delete id digest other (b ∷ bs) n =
    ground (arith, any-delete id digest other bs n, text_eq_iff b.id other, text_eq_iff b.id id)

any-file :
    (digest other : Text) (files : List Text)
    → other ≢ digest
    → any (λ f. text_eq f digest) (filter (λ f. not (text_eq f other)) files)
      ≡ any (λ f. text_eq f digest) files
any-file digest other [] n = refl
any-file digest other (f ∷ files) n =
    ground (arith, any-file digest other files n, text_eq_iff f other, text_eq_iff f digest)

-- What a pass keeps of a blob: that it is live, its row and its file.
abbrev pub IsKept : Text → Text → Archive → Archive → Type 0
IsKept id digest a a' =
    (has_live_reference id a' ≡ has_live_reference id a)
    × (has_blob id digest a' ≡ has_blob id digest a)
    × (has_file digest a' ≡ has_file digest a)

module _ (now : ℤ) (id digest : Text) where
  candidate-IsKept :
      (c : BlobRow) (a : Archive)
      → (c.stored_sha256 ≡ digest → c.id ≡ id)
      → has_live_reference id a ≡ true
      → IsKept id digest a (collect_candidate now c a).1
  unfolding collect_candidate has_live_reference
  candidate-IsKept c a u l =
      elim (Bool-cases (any (λ b. text_eq b.id c.id && is_eligible now b) a.blobs)) [
        | inr f ↦ rw f (refl, refl, refl)
        | inl t ↦ elim (Bool-cases (has_live_reference c.id a)) [
          | inl r ↦ rw t (rw r (refl, any-clear id digest c.id a.blobs, refl))
          | inr r ↦
              let other : c.id ≢ id =
                λ e. ground (arith, ap (λ i. has_live_reference i a) e, l, r) in
              rw t (
                rw r (
                  refl,
                  any-delete id digest c.id a.blobs other,
                  any-file digest c.stored_sha256 a.blob_files (λ e. other (u e)),
                ))
        ]
      ]

  candidates-IsKept :
      (cs : List BlobRow) (a : Archive)
      → All (λ c. c.stored_sha256 ≡ digest → c.id ≡ id) cs
      → has_live_reference id a ≡ true
      → IsKept id digest a (collect_candidates now cs a).1
  unfolding collect_candidates
  candidates-IsKept [] a u l = (refl, refl, refl)
  candidates-IsKept (c ∷ cs) a u l =
      let (x, y, z) = candidate-IsKept c a u.0 l in
      let (x', y', z') = candidates-IsKept cs (collect_candidate now c a).1 u.1 (x ∙ l) in
      (x' ∙ x, y' ∙ y, z' ∙ z)

-- A pass of the garbage collection leaves every blob that an artifact of a live snapshot refers
-- to, its row and its file, whatever candidates were scheduled and in whatever order. Assumed is
-- that no other blob has the same digest, which a UNIQUE constraint says.
pub collect_orphaned_blobs_at-IsKept :
    (now : ℤ) (a : Archive) (id digest : Text)
    → All (λ b. b.stored_sha256 ≡ digest → b.id ≡ id) a.blobs
    → has_live_reference id a ≡ true
    → IsKept id digest a (collect_orphaned_blobs_at now a).1
unfolding collect_orphaned_blobs_at
collect_orphaned_blobs_at-IsKept now a id digest u l =
    candidates-IsKept now id digest (gc_candidates now a) a
      (gc_candidates-All (λ b. b.stored_sha256 ≡ digest → b.id ≡ id) now a
        (All-map _ _ a.blobs (λ _ h _. h) u))
      l
