-- ===== src/Uploads/Invariant.antt =====
-- What the constraints of the table `upload_chunks` keep true, and what they make of
-- `upload_is_complete` (crates/patwari-server/src/ingestion.rs).
use patwari.Prelude.{
  All, Bool-cases, List, Text, [], any, ap, arith, database_error, err, false, inl, inr, int_eq,
  int_eq_iff, ltb, map, negsuc, ok, ok-injective, pos, refl, sym, text_eq, text_eq_iff, true, ℕ, ℤ,
  ◌&&◌, ◌↔◌, ◌∙◌, ◌∷◌, ◌≡◌, ◌≢◌,
}
use patwari.Chunks.{UploadArtifactRow}
use patwari.Uploads.Completeness.{lacks_chunks_iff}
use patwari.Uploads.Counting.{Distinct, elem}
use patwari.Uploads.Record.{
  artifacts_complete, chunk_indexes, get_upload_artifacts, has_chunk_key, lacks_chunks,
  upload_is_complete,
}
use patwari.Uploads.World.{ChunkRow, Database}

abbrev pub to_nat : ℤ → ℕ
to_nat (pos n) = n
to_nat (negsuc n) = 0

-- CHECK (chunk_index >= 0)
abbrev pub AreColumns : List ChunkRow → Type 0
AreColumns rows = All (λ c. c.chunk_index ≡ pos (to_nat c.chunk_index)) rows

-- PRIMARY KEY (upload_id, artifact_index, chunk_index)
abbrev pub UniqueChunks : List ChunkRow → Type 0
UniqueChunks [] = Unit
UniqueChunks (c ∷ rows) =
    (any (has_chunk_key c.upload_id c.artifact_index c.chunk_index) rows ≡ false)
    × UniqueChunks rows

module _ (id : Text) (artifact : ℤ) where
  numbers : List ChunkRow → List ℕ
  unfolding chunk_indexes
  numbers rows = map to_nat (chunk_indexes id artifact rows)

  pos-numbers :
      (rows : List ChunkRow)
      → AreColumns rows
      → map pos (numbers rows) ≡ chunk_indexes id artifact rows
  unfolding numbers chunk_indexes
  pos-numbers [] h = refl
  pos-numbers (c ∷ rows) h =
      elim (Bool-cases (text_eq c.upload_id id && int_eq c.artifact_index artifact)) [
        | inl t ↦ rw t (ground (arith, pos-numbers rows h.1, h.0))
        | inr f ↦ rw f (pos-numbers rows h.1)
      ]

  elem-numbers :
      (i : ℕ) (rows : List ChunkRow)
      → AreColumns rows
      → elem i (numbers rows) ≡ any (has_chunk_key id artifact (pos i)) rows
  unfolding numbers chunk_indexes
  elem-numbers i [] h = refl
  elem-numbers i (c ∷ rows) h =
      elim (Bool-cases (text_eq c.upload_id id && int_eq c.artifact_index artifact)) [
        | inl t ↦ ground (arith, elem-numbers i rows h.1, ap (λ z. int_eq z (pos i)) h.0)
        | inr f ↦ ground (arith, elem-numbers i rows h.1)
      ]

  fresh :
      (c : ChunkRow) (rows : List ChunkRow)
      → AreColumns rows
      → c.chunk_index ≡ pos (to_nat c.chunk_index)
      → (text_eq c.upload_id id && int_eq c.artifact_index artifact) ≡ true
      → any (has_chunk_key c.upload_id c.artifact_index c.chunk_index) rows ≡ false
      → elem (to_nat c.chunk_index) (numbers rows) ≡ false
  fresh c rows h n t f =
      let same_id : c.upload_id ≡ id = ground (arith, text_eq_iff c.upload_id id) in
      let same_artifact : c.artifact_index ≡ artifact =
        ground (arith, int_eq_iff c.artifact_index artifact) in
      elem-numbers (to_nat c.chunk_index) rows h
      ∙ ap (λ z. any (has_chunk_key id artifact z) rows) (sym n)
      ∙ ap (λ z. any (has_chunk_key id z c.chunk_index) rows) (sym same_artifact)
      ∙ ap (λ z. any (has_chunk_key z c.artifact_index c.chunk_index) rows) (sym same_id)
      ∙ f

  numbers-Distinct :
      (rows : List ChunkRow) → AreColumns rows → UniqueChunks rows → Distinct (numbers rows)
  unfolding numbers chunk_indexes
  numbers-Distinct [] h u = tt
  numbers-Distinct (c ∷ rows) h u =
      elim (Bool-cases (text_eq c.upload_id id && int_eq c.artifact_index artifact)) [
        | inl t ↦ rw t (fresh c rows h.1 h.0 t u.0, numbers-Distinct rows h.1 u.1)
        | inr f ↦ rw f (numbers-Distinct rows h.1 u.1)
      ]

  -- The artifact's test passes just when its chunks are those below its chunk count.
  lacks_chunks-rows :
      (n : ℕ) (rows : List ChunkRow)
      → AreColumns rows
      → UniqueChunks rows
      → (lacks_chunks (pos n) (chunk_indexes id artifact rows) ≡ false)
        ↔ ((i : ℕ) → any (has_chunk_key id artifact (pos i)) rows ≡ ltb i n)
  lacks_chunks-rows n rows h u =
      let decided = lacks_chunks_iff n (numbers rows) (numbers-Distinct rows h u) in
      (
        λ e i.
            sym (elem-numbers i rows h)
            ∙ decided.0 (ap (lacks_chunks (pos n)) (pos-numbers rows h) ∙ e) i,
        λ f.
            ap (lacks_chunks (pos n)) (sym (pos-numbers rows h))
            ∙ decided.1 (λ i. elem-numbers i rows h ∙ f i),
      )

-- The artifact has exactly the chunks below its chunk count, which is not negative.
abbrev pub HasAllChunks : Text → List ChunkRow → UploadArtifactRow → Type 0
HasAllChunks id rows artifact =
    (i : ℕ)
    → any (has_chunk_key id artifact.artifact_index (pos i)) rows
      ≡ ltb i (to_nat artifact.chunk_count)

-- The artifact has every chunk below its chunk count.
abbrev pub HasEveryChunk : Text → List ChunkRow → UploadArtifactRow → Type 0
HasEveryChunk id rows artifact =
    (i : ℕ)
    → ltb i (to_nat artifact.chunk_count) ≡ true
    → any (has_chunk_key id artifact.artifact_index (pos i)) rows ≡ true

abbrev pub HasCount : UploadArtifactRow → Type 0
HasCount artifact = artifact.chunk_count ≡ pos (to_nat artifact.chunk_count)

artifacts_complete_iff :
    (id : Text) (rows : List ChunkRow) (artifacts : List UploadArtifactRow)
    → AreColumns rows
    → UniqueChunks rows
    → All HasCount artifacts
    → (artifacts_complete id rows artifacts ≡ true) ↔ All (HasAllChunks id rows) artifacts
unfolding artifacts_complete
artifacts_complete_iff id rows [] h u c = (λ _. tt, λ _. refl)
artifacts_complete_iff id rows (a ∷ rest) h u c =
    let here = lacks_chunks-rows id a.artifact_index (to_nat a.chunk_count) rows h u in
    let there = artifacts_complete_iff id rows rest h u c.1 in
    (
      λ e. (
        here.0 (
            ap (λ z. lacks_chunks z (chunk_indexes id a.artifact_index rows)) (sym c.0)
            ∙ ground arith),
        there.0 (ground arith),
      ),
      λ f.
          let passes =
            ap (λ z. lacks_chunks z (chunk_indexes id a.artifact_index rows)) c.0 ∙ here.1 f.0 in
          rw passes (there.1 f.1),
    )

-- `upload_is_complete` answers yes just when each artifact of the upload has exactly the chunks
-- below its chunk count; assumed are what the database's constraints keep true (chunk indexes and
-- counts that are not negative, no two chunks with one key), and that the upload has an artifact.
pub upload_is_complete_iff :
    (id : Text) (database : Database)
    → AreColumns database.upload_chunks
    → UniqueChunks database.upload_chunks
    → All HasCount (get_upload_artifacts id database)
    → get_upload_artifacts id database ≢ []
    → (upload_is_complete id database ≡ ok true)
      ↔ All (HasAllChunks id database.upload_chunks) (get_upload_artifacts id database)
unfolding upload_is_complete
upload_is_complete_iff id database h u c n = decide (get_upload_artifacts id database) n c
  where
    decide :
        (artifacts : List UploadArtifactRow)
        → artifacts ≢ []
        → All HasCount artifacts
        → ((elim artifacts [
          | [] ↦ err database_error
          | a ∷ rest ↦ ok (artifacts_complete id database.upload_chunks (a ∷ rest))
        ])
            ≡ ok true)
          ↔ All (HasAllChunks id database.upload_chunks) artifacts
    decide [] n c = ground arith
    decide (a ∷ rest) n c =
        let decided = artifacts_complete_iff id database.upload_chunks (a ∷ rest) h u c in
        (λ e. decided.0 (ok-injective e), λ f. ap ok (decided.1 f))
