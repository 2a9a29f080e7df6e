-- ===== src/Config/Values.antt =====
-- `Config::from_values`: the settings from the values of the environment.
pub mod Result
use patwari.Prelude.{
  Option, String, Text, if◌then◌else◌, leb, ltb, min, none, ok, ok_or, reject_if, some, ℕ, ◌&&◌,
  ◌>>=◌, ◌>>◌,
}
use patwari.Config.{
  Config, ConfigError, ConfigResult, default, empty_data_dir, invalid_bind_addr,
  invalid_request_body_limit, invalid_concurrency_limit, invalid_download_concurrency_limit,
  invalid_request_timeout, invalid_chunk_size, chunk_exceeds_request_body,
  invalid_stored_artifact_limit, invalid_original_artifact_limit, invalid_artifact_count_limit,
  invalid_stored_snapshot_limit, invalid_original_snapshot_limit, too_many_chunks,
  invalid_upload_expiry, invalid_admin_deletion_enabled, invalid_blob_gc_grace,
  invalid_integrity_scan_concurrency, invalid_integrity_scan_buffer, min_request_body_bytes,
  max_request_body_limit, max_concurrency_limit, max_download_concurrency_limit,
  max_request_timeout, min_chunk_size_bytes, max_chunk_size_bytes, max_artifact_bytes,
  max_artifact_count_limit, max_snapshot_bytes, min_upload_expiry, max_upload_expiry,
  min_blob_gc_grace, max_blob_gc_grace, max_integrity_scan_concurrency,
  min_integrity_scan_buffer_bytes, max_integrity_scan_buffer_bytes, parse_bounded, parse_duration,
  parse_bool, is_blank, max_stored_bytes_for_chunk_size,
}
use patwari.Config.Validate.{validate}

-- The environment values by name.
abbrev pub Env : Type 0
Env = String → Option Text

-- `if let Some(value) = values.get(key) { setting = parse(value).ok_or(error)? }`
unfoldable pub setting {ℓ} :
    {A : Type ℓ} → Option Text → (Text → Option A) → ConfigError → A → ConfigResult A
setting none parse error old = ok old
setting (some value) parse error old = ok_or (parse value) error

-- `parse_duration(value).filter(..)`
unfoldable pub parse_bounded_duration : ℕ → ℕ → Text → Option ℕ
parse_bounded_duration minimum maximum value = elim (parse_duration value) [
  | none ↦ none
  | some d ↦ if leb minimum d && leb d maximum then some d else none
]

unfoldable pub parse_data_dir : Text → Option Text
parse_data_dir value = if is_blank value then none else some value

-- The chunk size: given, or the default as far as a request body allows.
unfoldable pub chunk_size_setting : Option Text → ℕ → ℕ → ConfigResult ℕ
chunk_size_setting (some value) body old = do
  size ← ok_or (parse_bounded min_chunk_size_bytes max_chunk_size_bytes value) invalid_chunk_size
  reject_if (ltb body size) chunk_exceeds_request_body
  ok size
chunk_size_setting none body old = do
  let size = min old body
  reject_if (ltb body size) chunk_exceeds_request_body
  reject_if (ltb size min_chunk_size_bytes) invalid_chunk_size
  ok size

-- The limit on a stored artifact: given, or the default as far as the chunk size allows.
unfoldable pub stored_limit_setting : Option Text → ℕ → ℕ → ConfigResult ℕ
stored_limit_setting (some value) chunk_size old = do
  limit ← ok_or (parse_bounded 1 max_artifact_bytes value) invalid_stored_artifact_limit
  largest ← max_stored_bytes_for_chunk_size chunk_size
  reject_if (ltb largest limit) too_many_chunks
  ok limit
stored_limit_setting none chunk_size old = do
  largest ← max_stored_bytes_for_chunk_size chunk_size
  let limit = min old largest
  reject_if (ltb largest limit) invalid_stored_artifact_limit
  ok limit

module _ {Addr : Type 0} (loopback : Addr) (parse_addr : Text → Option Addr) where
  -- All of `from_values` before its last check.
  unfoldable pub read_values : Env → ConfigResult (Config Addr)
  read_values values = do
    let c = default loopback
    data_dir ← setting (values "PATWARI_DATA_DIR") parse_data_dir empty_data_dir c.data_dir
    bind_addr ← setting (values "PATWARI_BIND_ADDR") parse_addr invalid_bind_addr c.bind_addr
    body ←
        setting (values "PATWARI_MAX_REQUEST_BODY_BYTES")
          (parse_bounded min_request_body_bytes max_request_body_limit) invalid_request_body_limit
          c.max_request_body_bytes
    chunk_size ←
        chunk_size_setting (values "PATWARI_UPLOAD_CHUNK_SIZE_BYTES") body c.chunk_size_bytes
    concurrency ←
        setting (values "PATWARI_MAX_CONCURRENCY") (parse_bounded 1 max_concurrency_limit)
          invalid_concurrency_limit c.max_concurrency
    downloads ←
        setting (values "PATWARI_MAX_DOWNLOAD_CONCURRENCY")
          (parse_bounded 1 max_download_concurrency_limit) invalid_download_concurrency_limit
          c.max_download_concurrency
    timeout ←
        setting (values "PATWARI_REQUEST_TIMEOUT") (parse_bounded_duration 0 max_request_timeout)
          invalid_request_timeout c.request_timeout
    stored ←
        stored_limit_setting (values "PATWARI_MAX_ARTIFACT_STORED_BYTES") chunk_size
          c.max_artifact_stored_bytes
    original ←
        setting (values "PATWARI_MAX_ARTIFACT_ORIGINAL_BYTES") (parse_bounded 1 max_artifact_bytes)
          invalid_original_artifact_limit c.max_artifact_original_bytes
    count ←
        setting (values "PATWARI_MAX_ARTIFACT_COUNT") (parse_bounded 1 max_artifact_count_limit)
          invalid_artifact_count_limit c.max_artifact_count
    snapshot_stored ←
        setting (values "PATWARI_MAX_SNAPSHOT_STORED_BYTES") (parse_bounded 1 max_snapshot_bytes)
          invalid_stored_snapshot_limit c.max_snapshot_stored_bytes
    snapshot_original ←
        setting (values "PATWARI_MAX_SNAPSHOT_ORIGINAL_BYTES") (parse_bounded 1 max_snapshot_bytes)
          invalid_original_snapshot_limit c.max_snapshot_original_bytes
    expiry ←
        setting (values "PATWARI_UPLOAD_EXPIRY")
          (parse_bounded_duration min_upload_expiry max_upload_expiry) invalid_upload_expiry
          c.upload_expiry
    deletion ←
        setting (values "PATWARI_ADMIN_DELETION_ENABLED") parse_bool invalid_admin_deletion_enabled
          c.admin_deletion_enabled
    grace ←
        setting (values "PATWARI_BLOB_GC_GRACE")
          (parse_bounded_duration min_blob_gc_grace max_blob_gc_grace) invalid_blob_gc_grace
          c.blob_gc_grace
    scan ←
        setting (values "PATWARI_INTEGRITY_SCAN_CONCURRENCY")
          (parse_bounded 1 max_integrity_scan_concurrency) invalid_integrity_scan_concurrency
          c.integrity_scan_concurrency
    buffer ←
        setting (values "PATWARI_INTEGRITY_SCAN_BUFFER_BYTES")
          (parse_bounded min_integrity_scan_buffer_bytes max_integrity_scan_buffer_bytes)
          invalid_integrity_scan_buffer c.integrity_scan_buffer_bytes
    ok (record {
      data_dir = data_dir;
      bind_addr = bind_addr;
      max_request_body_bytes = body;
      max_concurrency = concurrency;
      max_download_concurrency = downloads;
      request_timeout = timeout;
      chunk_size_bytes = chunk_size;
      max_artifact_stored_bytes = stored;
      max_artifact_original_bytes = original;
      max_artifact_count = count;
      max_snapshot_stored_bytes = snapshot_stored;
      max_snapshot_original_bytes = snapshot_original;
      upload_expiry = expiry;
      admin_deletion_enabled = deletion;
      blob_gc_grace = grace;
      integrity_scan_concurrency = scan;
      integrity_scan_buffer_bytes = buffer;
    })

  unfoldable pub from_values : Env → ConfigResult (Config Addr)
  from_values values = do config ← read_values values; validate config >> ok config
