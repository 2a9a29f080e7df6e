-- ===== src/Uploads/Status/Missing.antt =====
-- The missing chunks of an artifact are those without a record
-- (crates/patwari-server/src/ingestion.rs, `upload_artifact_status`).
use patwari.Prelude.{
  >>=-eq-ok, All, Bool, Bool-cases, List, Option-cases, Text, [], any, ap, arith, false, filter,
  filter-same, first, inl, inr, int_eq, internal, leb, length, ltb, lt→ltb, not, ok, ok-injective,
  ok_or, ok_or-eq-ok, pos, refl, suc, sym, text_eq, to_u64, to_u64-eq_some, true, zero, ℕ, ℤ, ◌&&◌,
  ◌*◌, ◌+◌, ◌/◌, ◌<◌, ◌==◌, ◌||◌, ◌↔◌, ◌∙◌, ◌∷◌, ◌≡◌, ◌≤◌,
}
use patwari.Chunks.{UploadArtifactRow}
use patwari.Digest.{hex_digest, parse_compression}
use patwari.Uploads.Bitmap.{
  empty_bitmap, is_marked, is_marked-empty, is_marked-mark, length-empty_bitmap, length-mark, mark,
}
use patwari.Uploads.Invariant.{HasAllChunks, HasEveryChunk, to_nat}
use patwari.Uploads.Ordered.{any-artifact_chunks, artifact_chunks, order_by_index-All}
use patwari.Uploads.Record.{has_chunk_key}
use patwari.Uploads.Status.{
  UploadArtifactStatus, indexes_from, mark_chunks, to_u32, upload_artifact_status,
}
use patwari.Uploads.World.{ChunkRow, Database}

-- A row of the artifact has the key of its index.
abbrev has_index : ℕ → ChunkRow → Bool
has_index i c = int_eq c.chunk_index (pos i)

-- What the loop marks, when it ends without an error: the indexes of the rows, all in range.
mark_chunks-marks :
    (n : ℕ) (rows : List ChunkRow) (bitmap : List ℕ) {result : List ℕ}
    → n ≤ 8 * length bitmap
    → mark_chunks n rows bitmap ≡ ok result
    → ((i : ℕ) → is_marked result i ≡ (any (has_index i) rows || is_marked bitmap i))
      × ((i : ℕ) → n ≤ i → any (has_index i) rows ≡ false)
unfolding mark_chunks
mark_chunks-marks n [] bitmap h e = (λ i. ground (arith, e), λ i b. refl)
mark_chunks-marks n (c ∷ rows) bitmap {result} h e = elim (Option-cases (to_u64 c.chunk_index)) [
  | inl x ↦ ground (arith, x, e)
  | inr (k, x) ↦ elim (Bool-cases (leb n k)) [
    | inl y ↦ ground (arith, x, y, e)
    | inr y ↦
        let index = to_u64-eq_some c.chunk_index x in
        let rest =
          mark_chunks-marks n rows (mark k bitmap) {result = result}
            (omega (arith, length-mark k bitmap)) (ground (arith, x, y, e)) in
        (
          λ i. ground (arith, index, rest.0 i, is_marked-mark k i bitmap (ground (arith, y))),
          λ i b. ground (arith, index, y, rest.1 i b),
        )
  ]
]

any-has_index :
    (id : Text) (artifact : ℤ) (i : ℕ) (rows : List ChunkRow)
    → All (λ c. (text_eq c.upload_id id && int_eq c.artifact_index artifact) ≡ true) rows
    → any (has_index i) rows ≡ any (has_chunk_key id artifact (pos i)) rows
any-has_index id artifact i [] h = refl
any-has_index id artifact i (c ∷ rows) h = ground (arith, h.0, any-has_index id artifact i rows h.1)

selected : (p : ChunkRow → Bool) (rows : List ChunkRow) → All (λ c. p c ≡ true) (filter p rows)
selected p [] = tt
selected p (c ∷ rows) = elim (Bool-cases (p c)) [
  | inl t ↦ rw t (t, selected p rows)
  | inr f ↦ rw f (selected p rows)
]

artifact_chunks-All :
    (id : Text) (artifact : ℤ) (d : Database)
    → All
        (λ c. (text_eq c.upload_id id && int_eq c.artifact_index artifact) ≡ true)
        (artifact_chunks id artifact d)
unfolding artifact_chunks
artifact_chunks-All id artifact d =
    order_by_index-All _ _
      (selected (λ c. text_eq c.upload_id id && int_eq c.artifact_index artifact) d.upload_chunks)

any-artifact_index :
    (id : Text) (artifact : ℤ) (i : ℕ) (d : Database)
    → any (has_index i) (artifact_chunks id artifact d)
      ≡ any (has_chunk_key id artifact (pos i)) d.upload_chunks
any-artifact_index id artifact i d =
    any-has_index id artifact i (artifact_chunks id artifact d) (artifact_chunks-All id artifact d)
    ∙ any-artifact_chunks id artifact (pos i) d

-- What a status that is reported says of an artifact's chunks.
pub record IsReported (id : Text) (a : UploadArtifactRow) (d : Database) (s : UploadArtifactStatus)
    : Type 0 where
  pub bitmap : List ℕ
  pub count : a.chunk_count ≡ pos s.chunk_count
  pub text : s.accepted_chunk_bitmap ≡ hex_digest bitmap
  pub bits :
      (i : ℕ) → is_marked bitmap i ≡ any (has_chunk_key id a.artifact_index (pos i)) d.upload_chunks
  pub range :
      (i : ℕ)
      → s.chunk_count ≤ i
      → any (has_chunk_key id a.artifact_index (pos i)) d.upload_chunks ≡ false
  pub missing :
      s.missing_chunk_indexes
      ≡ filter
          (λ i. not (any (has_chunk_key id a.artifact_index (pos i)) d.upload_chunks))
          (indexes_from 0 s.chunk_count)

reported :
    (id : Text) (a : UploadArtifactRow) (d : Database) (n : ℕ) (bitmap : List ℕ)
    {s : UploadArtifactStatus}
    → a.chunk_count ≡ pos n
    → mark_chunks n (artifact_chunks id a.artifact_index d) (empty_bitmap ((n + 7) / 8)) ≡ ok bitmap
    → s.chunk_count ≡ n
    → s.accepted_chunk_bitmap ≡ hex_digest bitmap
    → s.missing_chunk_indexes ≡ filter (λ i. not (is_marked bitmap i)) (indexes_from 0 n)
    → IsReported id a d s
reported id a d n bitmap {s} c m e t f =
    let marks =
      mark_chunks-marks n (artifact_chunks id a.artifact_index d) (empty_bitmap ((n + 7) / 8))
        {result = bitmap} (omega (arith, length-empty_bitmap ((n + 7) / 8))) m in
    record {
      bitmap = bitmap;
      count = c ∙ ap pos (sym e);
      text = t;
      bits = bits;
      range =
          λ i b. sym (any-artifact_index id a.artifact_index i d) ∙ marks.1 i (omega (arith, e));
      missing =
          f
          ∙ ap (λ k. filter (λ i. not (is_marked bitmap i)) (indexes_from 0 k)) (sym e)
          ∙ filter-same _ _ (indexes_from 0 s.chunk_count) (λ i. ap not (bits i));
    }
  where
    bits :
        (i : ℕ)
        → is_marked bitmap i ≡ any (has_chunk_key id a.artifact_index (pos i)) d.upload_chunks
    bits i =
        let marks =
          mark_chunks-marks n (artifact_chunks id a.artifact_index d) (empty_bitmap ((n + 7) / 8))
            {result = bitmap} (omega (arith, length-empty_bitmap ((n + 7) / 8))) m in
        ground (
          arith,
          marks.0 i,
          is_marked-empty ((n + 7) / 8) i,
          any-artifact_index id a.artifact_index i d,
        )

-- The status of an artifact that is reported is true to the recorded chunks: bit `i` of the bitmap
-- is set just when chunk `i` is recorded, the missing indexes are those below the chunk count that
-- are not, in ascending order, and no chunk beyond the count is recorded.
pub upload_artifact_status-IsReported :
    (id : Text) (a : UploadArtifactRow) (d : Database) {s : UploadArtifactStatus}
    → upload_artifact_status id a d ≡ ok s
    → IsReported id a d s
unfolding upload_artifact_status
upload_artifact_status-IsReported id a d {s} e =
    let (index, x, e1) = >>=-eq-ok (ok_or (to_u32 a.artifact_index) internal) _ e in
    let (n, y, e2) = >>=-eq-ok (ok_or (to_u64 a.chunk_count) internal) _ e1 in
    let (bitmap, z, e3) =
      >>=-eq-ok (mark_chunks n (artifact_chunks id a.artifact_index d) (empty_bitmap ((n + 7) / 8)))
        _ e2 in
    let (original, _, e4) = >>=-eq-ok (ok_or (to_u64 a.original_size_bytes) internal) _ e3 in
    let (stored, _, e5) = >>=-eq-ok (ok_or (to_u64 a.stored_size_bytes) internal) _ e4 in
    let (compression, _, e6) = >>=-eq-ok (ok_or (parse_compression a.compression) internal) _ e5 in
    let r = ok-injective e6 in
    reported id a d n bitmap (to_u64-eq_some a.chunk_count (ok_or-eq-ok _ _ y)) z
      (sym (ap (λ t. t.chunk_count) r)) (sym (ap (λ t. t.accepted_chunk_bitmap) r))
      (sym (ap (λ t. t.missing_chunk_indexes) r))

no_missing :
    (p : ℕ → Bool) (first n : ℕ)
    → filter (λ i. not (p i)) (indexes_from first n) ≡ []
    → (i : ℕ) → first ≤ i
    → i < first + n
    → p i ≡ true
unfolding indexes_from
no_missing p first zero e i h k = absurd (omega arith)
no_missing p first (suc n) e i h k = elim (Bool-cases (p first)) [
  | inl t ↦ elim (Bool-cases (first == i)) [
    | inl same ↦ ground (arith, t, same)
    | inr other ↦
        no_missing p (first + 1) n (ground (arith, t)) i (ground (arith, other)) (omega arith)
  ]
  | inr f ↦ ground (arith, f, e)
]

none_missing :
    (p : ℕ → Bool) (first n : ℕ)
    → ((i : ℕ) → i < first + n → p i ≡ true)
    → filter (λ i. not (p i)) (indexes_from first n) ≡ []
unfolding indexes_from
none_missing p first zero h = refl
none_missing p first (suc n) h =
    ground (arith, h first (omega arith), none_missing p (first + 1) n (λ i b. h i (omega arith)))

-- Nothing is missing where the artifact has every chunk.
pub missing-HasEveryChunk :
    (id : Text) (a : UploadArtifactRow) (d : Database) {s : UploadArtifactStatus}
    → IsReported id a d s
    → HasEveryChunk id d.upload_chunks a
    → s.missing_chunk_indexes ≡ []
missing-HasEveryChunk id a d {s} r h =
    r.missing
    ∙ none_missing (λ j. any (has_chunk_key id a.artifact_index (pos j)) d.upload_chunks) 0
        s.chunk_count
        (λ i b. h i (ap (λ z. ltb i (to_nat z)) r.count ∙ lt→ltb i s.chunk_count (omega arith)))

-- Nothing is missing just when the artifact has all of its chunks.
pub missing_iff :
    (id : Text) (a : UploadArtifactRow) (d : Database) {s : UploadArtifactStatus}
    → IsReported id a d s
    → (s.missing_chunk_indexes ≡ []) ↔ HasAllChunks id d.upload_chunks a
missing_iff id a d {s} r = (
  λ e i. elim (Bool-cases (ltb i s.chunk_count)) [
    | inl t ↦
        no_missing (λ j. any (has_chunk_key id a.artifact_index (pos j)) d.upload_chunks) 0
          s.chunk_count (sym r.missing ∙ e) i (omega arith) (ground arith)
        ∙ sym t
        ∙ ap (λ z. ltb i (to_nat z)) (sym r.count)
    | inr f ↦ r.range i (ground (arith, f)) ∙ sym f ∙ ap (λ z. ltb i (to_nat z)) (sym r.count)
  ],
  λ h. missing-HasEveryChunk id a d r (λ i t. h i ∙ t),
)
