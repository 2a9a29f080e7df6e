-- ===== src/Config/Values/Result.antt =====
-- The settings that are read are valid before the last check looks at them.
use patwari.Prelude.{
  Option, Text, [], arith, bytes, err, none, ok, ok_or-eq-ok, refl, some, sym, ℕ, ◌*◌, ◌<◌, ◌>>=◌,
  ◌>>◌, ◌∙◌, ◌∷◌, ◌≡◌, ◌≢◌, ◌≤◌,
}
use patwari.Config.Validate.{IsValid, validate, validate_complete}
use patwari.Config.Values.{
  Env, chunk_size_setting, from_values, parse_bounded_duration, parse_data_dir, read_values,
  setting, stored_limit_setting,
}
use patwari.Config.{
  Config, ConfigError, ConfigResult, empty_data_dir, invalid_artifact_count_limit,
  invalid_blob_gc_grace, invalid_concurrency_limit, invalid_download_concurrency_limit,
  invalid_integrity_scan_buffer, invalid_integrity_scan_concurrency,
  invalid_original_artifact_limit, invalid_original_snapshot_limit, invalid_request_body_limit,
  invalid_request_timeout, invalid_stored_snapshot_limit, invalid_upload_expiry, is_blank,
  max_stored_bytes_for_chunk_size, parse_bounded, parse_duration,
}

parse_bounded_range :
    (lo hi : ℕ) (t : Text) {x : ℕ} → parse_bounded lo hi t ≡ some x → (lo ≤ x) × (x ≤ hi)
unfolding parse_bounded
parse_bounded_range lo hi t h = ground arith

parse_bounded_duration_range :
    (lo hi : ℕ) (t : Text) {x : ℕ}
    → parse_bounded_duration lo hi t ≡ some x
    → (lo ≤ x) × (x ≤ hi) × (0 < x)
unfolding parse_bounded_duration parse_duration
parse_bounded_duration_range lo hi t h = ground arith

bounded_setting :
    (o : Option Text) (lo hi : ℕ) (e : ConfigError) (old x : ℕ)
    → setting o (parse_bounded lo hi) e old ≡ ok x
    → lo ≤ old
    → old ≤ hi
    → (lo ≤ x) × (x ≤ hi)
unfolding setting
bounded_setting none lo hi e old x s l h = ground arith
bounded_setting (some t) lo hi e old x s l h = parse_bounded_range lo hi t (ok_or-eq-ok _ e s)

duration_setting :
    (o : Option Text) (lo hi : ℕ) (e : ConfigError) (old x : ℕ)
    → setting o (parse_bounded_duration lo hi) e old ≡ ok x
    → lo ≤ old
    → old ≤ hi
    → 0 < old
    → (lo ≤ x) × (x ≤ hi) × (0 < x)
unfolding setting
duration_setting none lo hi e old x s l h p = ground arith
duration_setting (some t) lo hi e old x s l h p =
    parse_bounded_duration_range lo hi t (ok_or-eq-ok _ e s)

data_dir_setting :
    (o : Option Text) (e : ConfigError) (old x : Text)
    → setting o parse_data_dir e old ≡ ok x
    → old ≢ []
    → x ≢ []
unfolding setting parse_data_dir is_blank
data_dir_setting none e old x h n = ground arith
data_dir_setting (some []) e old x h n = ground arith
data_dir_setting (some (c ∷ t)) e old x h n = ground arith

chunk_size_setting_range :
    (o : Option Text) (body old x : ℕ)
    → chunk_size_setting o body old ≡ ok x
    → old ≤ 33554432
    → (1024 ≤ x) × (x ≤ 33554432) × (x ≤ body)
unfolding chunk_size_setting
chunk_size_setting_range none body old x h p = ground arith
chunk_size_setting_range (some v) body old x h p =
    ground (arith, parse_bounded_range 1024 33554432 v {x = x})

stored_limit_setting_range :
    (o : Option Text) (chunk old x : ℕ)
    → stored_limit_setting o chunk old ≡ ok x
    → 0 < chunk
    → 1 ≤ old
    → old ≤ 8589934592
    → (1 ≤ x) × (x ≤ 8589934592) × (x ≤ chunk * 65536)
unfolding stored_limit_setting max_stored_bytes_for_chunk_size
stored_limit_setting_range none chunk old x h c l p = ground arith
stored_limit_setting_range (some v) chunk old x h c l p =
    ground (arith, parse_bounded_range 1 8589934592 v {x = x})

module _ {Addr : Type 0} (loopback : Addr) (parse_addr : Text → Option Addr) (values : Env) where
  module _ (c : Config Addr) (h : read_values loopback parse_addr values ≡ ok c) where
    data_dir_read : c.data_dir ≢ []
    unfolding read_values
    data_dir_read = ground (
      arith,
      data_dir_setting (values "PATWARI_DATA_DIR") empty_data_dir (bytes "data") c.data_dir,
    )

    chunk_read :
        (1024 ≤ c.chunk_size_bytes)
        × (c.chunk_size_bytes ≤ 33554432)
        × (c.chunk_size_bytes ≤ c.max_request_body_bytes)
    unfolding read_values
    chunk_read = ground (
      arith,
      chunk_size_setting_range (values "PATWARI_UPLOAD_CHUNK_SIZE_BYTES") c.max_request_body_bytes
          4194304 c.chunk_size_bytes,
    )

    stored_read :
        (1 ≤ c.max_artifact_stored_bytes)
        × (c.max_artifact_stored_bytes ≤ 8589934592)
        × (c.max_artifact_stored_bytes ≤ c.chunk_size_bytes * 65536)
    unfolding read_values
    stored_read = ground (
      arith,
      chunk_read.0,
      stored_limit_setting_range (values "PATWARI_MAX_ARTIFACT_STORED_BYTES") c.chunk_size_bytes
          1073741824 c.max_artifact_stored_bytes,
    )

    body_read : (1024 ≤ c.max_request_body_bytes) × (c.max_request_body_bytes ≤ 67108864)
    unfolding read_values
    body_read = ground (
      arith,
      bounded_setting (values "PATWARI_MAX_REQUEST_BODY_BYTES") 1024 67108864
          invalid_request_body_limit 33554432 c.max_request_body_bytes,
    )

    concurrency_read : (1 ≤ c.max_concurrency) × (c.max_concurrency ≤ 256)
    unfolding read_values
    concurrency_read = ground (
      arith,
      bounded_setting (values "PATWARI_MAX_CONCURRENCY") 1 256 invalid_concurrency_limit 64
          c.max_concurrency,
    )

    downloads_read : (1 ≤ c.max_download_concurrency) × (c.max_download_concurrency ≤ 64)
    unfolding read_values
    downloads_read = ground (
      arith,
      bounded_setting (values "PATWARI_MAX_DOWNLOAD_CONCURRENCY") 1 64
          invalid_download_concurrency_limit 8 c.max_download_concurrency,
    )

    original_artifact_read :
        (1 ≤ c.max_artifact_original_bytes) × (c.max_artifact_original_bytes ≤ 8589934592)
    unfolding read_values
    original_artifact_read = ground (
      arith,
      bounded_setting (values "PATWARI_MAX_ARTIFACT_ORIGINAL_BYTES") 1 8589934592
          invalid_original_artifact_limit 4294967296 c.max_artifact_original_bytes,
    )

    artifact_count_read : (1 ≤ c.max_artifact_count) × (c.max_artifact_count ≤ 1024)
    unfolding read_values
    artifact_count_read = ground (
      arith,
      bounded_setting (values "PATWARI_MAX_ARTIFACT_COUNT") 1 1024 invalid_artifact_count_limit 128
          c.max_artifact_count,
    )

    stored_snapshot_read :
        (1 ≤ c.max_snapshot_stored_bytes) × (c.max_snapshot_stored_bytes ≤ 68719476736)
    unfolding read_values
    stored_snapshot_read = ground (
      arith,
      bounded_setting (values "PATWARI_MAX_SNAPSHOT_STORED_BYTES") 1 68719476736
          invalid_stored_snapshot_limit 4294967296 c.max_snapshot_stored_bytes,
    )

    original_snapshot_read :
        (1 ≤ c.max_snapshot_original_bytes) × (c.max_snapshot_original_bytes ≤ 68719476736)
    unfolding read_values
    original_snapshot_read = ground (
      arith,
      bounded_setting (values "PATWARI_MAX_SNAPSHOT_ORIGINAL_BYTES") 1 68719476736
          invalid_original_snapshot_limit 17179869184 c.max_snapshot_original_bytes,
    )

    scan_read : (1 ≤ c.integrity_scan_concurrency) × (c.integrity_scan_concurrency ≤ 32)
    unfolding read_values
    scan_read = ground (
      arith,
      bounded_setting (values "PATWARI_INTEGRITY_SCAN_CONCURRENCY") 1 32
          invalid_integrity_scan_concurrency 4 c.integrity_scan_concurrency,
    )

    buffer_read : (4096 ≤ c.integrity_scan_buffer_bytes) × (c.integrity_scan_buffer_bytes ≤ 1048576)
    unfolding read_values
    buffer_read = ground (
      arith,
      bounded_setting (values "PATWARI_INTEGRITY_SCAN_BUFFER_BYTES") 4096 1048576
          invalid_integrity_scan_buffer 65536 c.integrity_scan_buffer_bytes,
    )

    timeout_read :
        (0 ≤ c.request_timeout) × (c.request_timeout ≤ 300000000000) × (0 < c.request_timeout)
    unfolding read_values
    timeout_read = ground (
      arith,
      duration_setting (values "PATWARI_REQUEST_TIMEOUT") 0 300000000000 invalid_request_timeout
          30000000000 c.request_timeout,
    )

    expiry_read :
        (60000000000 ≤ c.upload_expiry)
        × (c.upload_expiry ≤ 2592000000000000)
        × (0 < c.upload_expiry)
    unfolding read_values
    expiry_read = ground (
      arith,
      duration_setting (values "PATWARI_UPLOAD_EXPIRY") 60000000000 2592000000000000
          invalid_upload_expiry 86400000000000 c.upload_expiry,
    )

    grace_read :
        (60000000000 ≤ c.blob_gc_grace)
        × (c.blob_gc_grace ≤ 31536000000000000)
        × (0 < c.blob_gc_grace)
    unfolding read_values
    grace_read = ground (
      arith,
      duration_setting (values "PATWARI_BLOB_GC_GRACE") 60000000000 31536000000000000
          invalid_blob_gc_grace 7776000000000000 c.blob_gc_grace,
    )

    read_values-IsValid : IsValid c
    read_values-IsValid = record {
      has_data_dir = data_dir_read;
      body = body_read;
      concurrency = concurrency_read;
      downloads = downloads_read;
      timeout = (timeout_read.2, timeout_read.1);
      chunk = (chunk_read.0, chunk_read.1);
      chunk_fits_body = chunk_read.2;
      stored_artifact = (stored_read.0, stored_read.1);
      original_artifact = original_artifact_read;
      artifact_count = artifact_count_read;
      stored_snapshot = stored_snapshot_read;
      original_snapshot = original_snapshot_read;
      chunks = stored_read.2;
      expiry = (expiry_read.0, expiry_read.1);
      grace = (grace_read.0, grace_read.1);
      scan = scan_read;
      buffer = buffer_read;
    }

  settled :
      (r : ConfigResult (Config Addr))
      → ((c : Config Addr) → r ≡ ok c → IsValid c)
      → (do config ← r; validate config >> ok config) ≡ r
  settled (ok c) h = rw (validate_complete c (h c refl))
  settled (err e) h = refl

  -- The last check of `from_values` never rejects: what has been read is within all the bounds
  -- of the settings, so the result is that of the reading, and a configuration that comes out
  -- is valid.
  pub from_values-eq-read_values :
      (from_values loopback parse_addr values ≡ read_values loopback parse_addr values)
      × ((c : Config Addr) → from_values loopback parse_addr values ≡ ok c → IsValid c)
  unfolding from_values
  from_values-eq-read_values =
      let same = settled (read_values loopback parse_addr values) read_values-IsValid in
      (same, λ c h. read_values-IsValid c (sym same ∙ h))
