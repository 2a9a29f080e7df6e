-- ===== src/Uploads/Layout.antt =====
-- `upload_layout`: how many chunks each artifact of a manifest takes
-- (crates/patwari-server/src/ingestion.rs).
use patwari.Prelude.{
  ApiResult, List, [], checked_add, err, if◌then◌else◌, invalid, ltb, none, ok, some, ℕ, ◌∷◌,
}
use patwari.Chunks.{chunk_count}
use patwari.Contract.{Artifact, Manifest}
use patwari.Validation.Manifest.{manifest_totals}

pub record UploadLayout : Type 0 where
  pub chunk_counts : List ℕ
  pub total_original_bytes : ℕ
  pub total_stored_bytes : ℕ

abbrev pub max_snapshot_chunk_count : ℕ
max_snapshot_chunk_count = 262144

-- The loop of `upload_layout` from a total on: the chunk count of each artifact.
unfoldable pub layout_counts : List Artifact → ℕ → ℕ → ApiResult (List ℕ)
unfolding chunk_count checked_add
layout_counts [] chunk_size total = ok []
layout_counts (a ∷ rest) chunk_size total = elim (chunk_count a.stored_size_bytes chunk_size) [
  | err e ↦ err e
  | ok count ↦ elim (checked_add total count) [
    | none ↦ err (invalid "snapshot chunk count is invalid")
    | some sum ↦
        if ltb max_snapshot_chunk_count sum
        then err (invalid "snapshot requires more chunks than the bounded upload limit")
        else elim (layout_counts rest chunk_size sum) [
          | err e ↦ err e
          | ok counts ↦ ok (count ∷ counts)
        ]
  ]
]

unfoldable pub upload_layout : Manifest → ℕ → ApiResult UploadLayout
unfolding manifest_totals layout_counts
upload_layout manifest chunk_size = elim (manifest_totals manifest) [
  | err e ↦ err e
  | ok totals ↦ elim (layout_counts manifest.artifacts chunk_size 0) [
    | err e ↦ err e
    | ok counts ↦ ok (record {
      chunk_counts = counts;
      total_original_bytes = totals.0;
      total_stored_bytes = totals.1;
    })
  ]
]
