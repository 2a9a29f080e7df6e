-- ===== src/Chunks.antt =====
-- The chunk arithmetic of crates/patwari-server/src/ingestion.rs (`chunk_count`,
-- `expected_chunk_length`): how a stored artifact is cut into the chunks of an upload.
pub mod Cover
use patwari.Prelude.{
  ApiResult, Option, Text, checked_mul, checked_sub, err, i64_bound, if◌then◌else◌, internal,
  invalid, leb, ltb, ok, ok_or, pos, reject_if, to_u64, ℕ, ℤ, ◌+◌, ◌-◌, ◌/◌, ◌==◌, ◌>>=◌, ◌>>◌,
}

-- `config::MAX_CHUNK_COUNT`
abbrev pub max_chunk_count : ℕ
max_chunk_count = 65536

-- `i64::try_from` of validation.rs
unfoldable pub to_sqlite_i64 : ℕ → ApiResult ℤ
to_sqlite_i64 n =
    if ltb n i64_bound then ok (pos n) else err (invalid "artifact size exceeds configured bounds")

-- The columns of an `uploads` row that the chunk layout reads.
pub record UploadArtifactRow : Type 0 where
  pub artifact_index : ℤ
  pub logical_path : Text
  pub media_type : Option Text
  pub original_size_bytes : ℤ
  pub original_sha256 : Text
  pub stored_size_bytes : ℤ
  pub stored_sha256 : Text
  pub compression : Text
  pub chunk_count : ℤ

-- `size - 1` and `quotient + 1` stay in range: the size is not 0, and the quotient is at most
-- the size minus one.
unfoldable pub chunk_count : ℕ → ℕ → ApiResult ℕ
chunk_count stored_size chunk_size = do
  reject_if (chunk_size == 0) internal
  let count = if stored_size == 0 then 0 else (stored_size - 1) / chunk_size + 1
  reject_if (ltb max_chunk_count count)
      (invalid "artifact requires more chunks than the configured bounded limit")
  ok count

-- `upload.chunk_size_bytes` is the only column of the upload that is read.
unfoldable pub expected_chunk_length : ℤ → UploadArtifactRow → ℕ → ApiResult ℕ
unfolding checked_mul checked_sub
expected_chunk_length chunk_size_bytes artifact chunk_index = do
  count ← ok_or (to_u64 artifact.chunk_count) internal
  reject_if (leb count chunk_index) (invalid "chunk index is outside the negotiated artifact range")
  chunk_size ← ok_or (to_u64 chunk_size_bytes) internal
  stored_size ← ok_or (to_u64 artifact.stored_size_bytes) internal
  offset ← ok_or (checked_mul chunk_index chunk_size) internal
  if chunk_index + 1 == count
      then ok_or (checked_sub stored_size offset) internal
      else ok chunk_size
