-- ===== src/Uploads/Ordered.antt =====
-- `ORDER BY chunk_index`: the recorded chunks of one artifact
-- (crates/patwari-server/src/ingestion.rs).
use patwari.Prelude.{
  All, Bool, Bool-cases, List, Text, [], any, arith, filter, if◌then◌else◌, inl, inr, int_eq,
  int_ltb, refl, text_eq, ℤ, ◌&&◌, ◌||◌, ◌∷◌, ◌≡◌,
}
use patwari.Uploads.Record.{has_chunk_key}
use patwari.Uploads.World.{ChunkRow, Database}

unfoldable pub insert_by_index : ChunkRow → List ChunkRow → List ChunkRow
insert_by_index c [] = c ∷ []
insert_by_index c (d ∷ rows) =
    let rest = insert_by_index c rows in
    if int_ltb d.chunk_index c.chunk_index then d ∷ rest else c ∷ d ∷ rows

unfoldable pub order_by_index : List ChunkRow → List ChunkRow
unfolding insert_by_index
order_by_index [] = []
order_by_index (c ∷ rows) = insert_by_index c (order_by_index rows)

unfoldable pub artifact_chunks : Text → ℤ → Database → List ChunkRow
unfolding order_by_index
artifact_chunks id artifact database = order_by_index (
    filter (λ c. text_eq c.upload_id id && int_eq c.artifact_index artifact) database.upload_chunks)

any-insert_by_index :
    (p : ChunkRow → Bool) (c : ChunkRow) (rows : List ChunkRow)
    → any p (insert_by_index c rows) ≡ (p c || any p rows)
unfolding insert_by_index
any-insert_by_index p c [] = refl
any-insert_by_index p c (d ∷ rows) = ground (arith, any-insert_by_index p c rows)

pub any-order_by_index :
    (p : ChunkRow → Bool) (rows : List ChunkRow) → any p (order_by_index rows) ≡ any p rows
unfolding order_by_index
any-order_by_index p [] = refl
any-order_by_index p (c ∷ rows) =
    ground (arith, any-insert_by_index p c (order_by_index rows), any-order_by_index p rows)

any-filter-narrower :
    (p q : ChunkRow → Bool) (rows : List ChunkRow)
    → ((c : ChunkRow) → (p c && q c) ≡ p c)
    → any p (filter q rows) ≡ any p rows
any-filter-narrower p q [] h = refl
any-filter-narrower p q (c ∷ rows) h = ground (arith, any-filter-narrower p q rows h, h c)

-- The ordered chunks of an artifact have the keys that the table has.
pub any-artifact_chunks :
    (id : Text) (artifact chunk : ℤ) (d : Database)
    → any (has_chunk_key id artifact chunk) (artifact_chunks id artifact d)
      ≡ any (has_chunk_key id artifact chunk) d.upload_chunks
unfolding artifact_chunks
any-artifact_chunks id artifact chunk d =
    rw
      (any-order_by_index (has_chunk_key id artifact chunk)
        (filter (λ c. text_eq c.upload_id id && int_eq c.artifact_index artifact) d.upload_chunks))
      (any-filter-narrower (has_chunk_key id artifact chunk)
        (λ c. text_eq c.upload_id id && int_eq c.artifact_index artifact) d.upload_chunks
        (λ c. ground arith))

insert_by_index-All {κ} :
    (P : ChunkRow → Type κ) (c : ChunkRow) (rows : List ChunkRow)
    → P c
    → All P rows
    → All P (insert_by_index c rows)
unfolding insert_by_index
insert_by_index-All P c [] h k = (h, tt)
insert_by_index-All P c (d ∷ rows) h k = elim (Bool-cases (int_ltb d.chunk_index c.chunk_index)) [
  | inl t ↦ rw t (k.0, insert_by_index-All P c rows h k.1)
  | inr f ↦ rw f (h, k)
]

pub order_by_index-All {κ} :
    (P : ChunkRow → Type κ) (rows : List ChunkRow) → All P rows → All P (order_by_index rows)
unfolding order_by_index
order_by_index-All P [] h = tt
order_by_index-All P (c ∷ rows) h =
    insert_by_index-All P c (order_by_index rows) h.0 (order_by_index-All P rows h.1)
