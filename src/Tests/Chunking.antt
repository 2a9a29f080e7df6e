-- ===== src/Tests/Chunking.antt =====
-- Chunk layouts of small artifacts (crates/patwari-server/src/ingestion.rs).
use patwari.Prelude.{
  [], arith, bytes, checked_mul, checked_sub, err, invalid, none, ok, pos, refl, ℕ, ◌*◌, ◌+◌, ◌<◌,
  ◌≡◌, ◌≤◌,
}
use patwari.Chunks.Cover.{
  IsRowOf, chunk_count-accepts, chunk_count-bounds, expected_chunk_length-range,
  total-expected_chunk_length, total_length,
}
use patwari.Chunks.{UploadArtifactRow, chunk_count, expected_chunk_length}

-- An artifact of 10 bytes in chunks of 4 bytes.
abbrev ten_bytes : UploadArtifactRow
ten_bytes = record {
  artifact_index = pos 0;
  logical_path = bytes "log.txt";
  media_type = none;
  original_size_bytes = pos 10;
  original_sha256 = [];
  stored_size_bytes = pos 10;
  stored_sha256 = [];
  compression = bytes "identity";
  chunk_count = pos 3;
}

ten_bytes-IsRowOf : IsRowOf ten_bytes 10 4
unfolding chunk_count
ten_bytes-IsRowOf = record {
  chunks = 3;
  counted = refl;
  bounded = omega arith;
  size_column = refl;
  count_column = refl;
}

last_chunk_has_the_rest : expected_chunk_length (pos 4) ten_bytes 2 ≡ ok 2
unfolding expected_chunk_length checked_mul checked_sub
last_chunk_has_the_rest = refl

chunk_count-bounds_example : (10 ≤ 3 * 4) × (3 * 4 < 10 + 4) × (3 ≤ 65536)
unfolding chunk_count
chunk_count-bounds_example = chunk_count-bounds 10 4 {n = 3} refl

chunk_count-accepts_example : (n : ℕ) × (chunk_count 10 4 ≡ ok n)
chunk_count-accepts_example = chunk_count-accepts 10 4 (omega arith) (omega arith)

total-expected_chunk_length_example :
    total_length (expected_chunk_length (pos 4) ten_bytes) ten_bytes-IsRowOf.chunks ≡ ok 10
total-expected_chunk_length_example = total-expected_chunk_length ten_bytes 10 4 ten_bytes-IsRowOf

expected_chunk_length-range_example :
    (2 < ten_bytes-IsRowOf.chunks
      → (l : ℕ) × (expected_chunk_length (pos 4) ten_bytes 2 ≡ ok l) × (0 < l) × (l ≤ 4))
    × (ten_bytes-IsRowOf.chunks ≤ 2
        → expected_chunk_length (pos 4) ten_bytes 2
          ≡ err (invalid "chunk index is outside the negotiated artifact range"))
expected_chunk_length-range_example = expected_chunk_length-range ten_bytes 10 4 ten_bytes-IsRowOf 2
