-- ===== src/Config/Validate.antt =====
-- `Config::validate`, and the settings that it accepts.
use patwari.Prelude.{
  Bool, Text, [], arith, false, leb, ltb, not, ok, reject_if, true, ℕ, ◌&&◌, ◌*◌, ◌<◌, ◌==◌, ◌>>=◌,
  ◌>>◌, ◌||◌, ◌↔◌, ◌∷◌, ◌≡◌, ◌≢◌, ◌≤◌,
}
use patwari.Chunks.{chunk_count}
use patwari.Chunks.Cover.{chunk_count-accepts}
use patwari.Config.{
  Config, ConfigResult, empty_data_dir, invalid_request_body_limit, invalid_concurrency_limit,
  invalid_download_concurrency_limit, invalid_request_timeout, invalid_chunk_size,
  chunk_exceeds_request_body, invalid_stored_artifact_limit, invalid_original_artifact_limit,
  invalid_artifact_count_limit, invalid_stored_snapshot_limit, invalid_original_snapshot_limit,
  too_many_chunks, invalid_upload_expiry, invalid_blob_gc_grace, invalid_integrity_scan_concurrency,
  invalid_integrity_scan_buffer, min_request_body_bytes, max_request_body_limit,
  max_concurrency_limit, max_download_concurrency_limit, max_request_timeout, min_chunk_size_bytes,
  max_chunk_size_bytes, max_artifact_bytes, max_artifact_count_limit, max_snapshot_bytes,
  min_upload_expiry, max_upload_expiry, min_blob_gc_grace, max_blob_gc_grace,
  max_integrity_scan_concurrency, min_integrity_scan_buffer_bytes, max_integrity_scan_buffer_bytes,
  max_stored_bytes_for_chunk_size,
}

-- `!(lo..=hi).contains(&x)`
abbrev outside : ℕ → ℕ → ℕ → Bool
outside lo hi x = not (leb lo x && leb x hi)

abbrev is_empty : Text → Bool
is_empty [] = true
is_empty (_ ∷ _) = false

module _ {Addr : Type 0} where
  unfoldable pub validate : Config Addr → ConfigResult (Unit {0})
  unfolding max_stored_bytes_for_chunk_size
  validate c = do
    reject_if (is_empty c.data_dir) empty_data_dir
    reject_if (outside min_request_body_bytes max_request_body_limit c.max_request_body_bytes)
        invalid_request_body_limit
    reject_if (outside 1 max_concurrency_limit c.max_concurrency) invalid_concurrency_limit
    reject_if (outside 1 max_download_concurrency_limit c.max_download_concurrency)
        invalid_download_concurrency_limit
    reject_if (c.request_timeout == 0 || ltb max_request_timeout c.request_timeout)
        invalid_request_timeout
    reject_if (outside min_chunk_size_bytes max_chunk_size_bytes c.chunk_size_bytes)
        invalid_chunk_size
    reject_if (ltb c.max_request_body_bytes c.chunk_size_bytes) chunk_exceeds_request_body
    reject_if
        (c.max_artifact_stored_bytes == 0 || ltb max_artifact_bytes c.max_artifact_stored_bytes)
        invalid_stored_artifact_limit
    reject_if
        (c.max_artifact_original_bytes == 0 || ltb max_artifact_bytes c.max_artifact_original_bytes)
        invalid_original_artifact_limit
    reject_if (outside 1 max_artifact_count_limit c.max_artifact_count) invalid_artifact_count_limit
    reject_if
        (c.max_snapshot_stored_bytes == 0 || ltb max_snapshot_bytes c.max_snapshot_stored_bytes)
        invalid_stored_snapshot_limit
    reject_if
        (c.max_snapshot_original_bytes == 0 || ltb max_snapshot_bytes c.max_snapshot_original_bytes)
        invalid_original_snapshot_limit
    largest ← max_stored_bytes_for_chunk_size c.chunk_size_bytes
    reject_if (ltb largest c.max_artifact_stored_bytes) too_many_chunks
    reject_if (ltb c.upload_expiry min_upload_expiry || ltb max_upload_expiry c.upload_expiry)
        invalid_upload_expiry
    reject_if (ltb c.blob_gc_grace min_blob_gc_grace || ltb max_blob_gc_grace c.blob_gc_grace)
        invalid_blob_gc_grace
    reject_if (outside 1 max_integrity_scan_concurrency c.integrity_scan_concurrency)
        invalid_integrity_scan_concurrency
    reject_if
        (outside min_integrity_scan_buffer_bytes max_integrity_scan_buffer_bytes
          c.integrity_scan_buffer_bytes)
        invalid_integrity_scan_buffer
    ok tt

  -- The bounds of the settings. They are those that the documentation states, but for the timeout,
  -- in nanoseconds: it has to be more than zero, where the documentation asks for a second.
  pub record IsValid (c : Config Addr) : Type 0 where
    pub has_data_dir : c.data_dir ≢ []
    pub body : (1024 ≤ c.max_request_body_bytes) × (c.max_request_body_bytes ≤ 67108864)
    pub concurrency : (1 ≤ c.max_concurrency) × (c.max_concurrency ≤ 256)
    pub downloads : (1 ≤ c.max_download_concurrency) × (c.max_download_concurrency ≤ 64)
    pub timeout : (0 < c.request_timeout) × (c.request_timeout ≤ 300000000000)
    pub chunk : (1024 ≤ c.chunk_size_bytes) × (c.chunk_size_bytes ≤ 33554432)
    pub chunk_fits_body : c.chunk_size_bytes ≤ c.max_request_body_bytes
    pub stored_artifact :
        (1 ≤ c.max_artifact_stored_bytes) × (c.max_artifact_stored_bytes ≤ 8589934592)
    pub original_artifact :
        (1 ≤ c.max_artifact_original_bytes) × (c.max_artifact_original_bytes ≤ 8589934592)
    pub artifact_count : (1 ≤ c.max_artifact_count) × (c.max_artifact_count ≤ 1024)
    pub stored_snapshot :
        (1 ≤ c.max_snapshot_stored_bytes) × (c.max_snapshot_stored_bytes ≤ 68719476736)
    pub original_snapshot :
        (1 ≤ c.max_snapshot_original_bytes) × (c.max_snapshot_original_bytes ≤ 68719476736)
    pub chunks : c.max_artifact_stored_bytes ≤ c.chunk_size_bytes * 65536
    pub expiry : (60000000000 ≤ c.upload_expiry) × (c.upload_expiry ≤ 2592000000000000)
    pub grace : (60000000000 ≤ c.blob_gc_grace) × (c.blob_gc_grace ≤ 31536000000000000)
    pub scan : (1 ≤ c.integrity_scan_concurrency) × (c.integrity_scan_concurrency ≤ 32)
    pub buffer : (4096 ≤ c.integrity_scan_buffer_bytes) × (c.integrity_scan_buffer_bytes ≤ 1048576)

  validate_sound : (c : Config Addr) → validate c ≡ ok tt → IsValid c
  unfolding validate
  validate_sound c h = ground arith

  pub validate_complete : (c : Config Addr) → IsValid c → validate c ≡ ok tt
  unfolding validate
  validate_complete c v = ground arith

  -- `validate` accepts a configuration exactly if its directory is named, every setting is within
  -- its bounds, a chunk fits a request body and the largest artifact fits 65536 chunks. The bounds
  -- are the documented ones, but for the timeout, which may be anything above zero up to 5 minutes.
  pub validate_iff : (c : Config Addr) → (validate c ≡ ok tt) ↔ IsValid c
  validate_iff c = (validate_sound c, validate_complete c)

  -- Under a configuration that is accepted, every artifact whose stored size is within the
  -- configured limit gets a chunk count.
  pub chunk_count-validate :
      (c : Config Addr) (stored_size : ℕ)
      → validate c ≡ ok tt
      → stored_size ≤ c.max_artifact_stored_bytes
      → (n : ℕ) × (chunk_count stored_size c.chunk_size_bytes ≡ ok n)
  chunk_count-validate c stored_size h small =
      let v = validate_sound c h in
      chunk_count-accepts stored_size c.chunk_size_bytes (omega (arith, v.chunk))
        (omega (arith, v.chunks))
