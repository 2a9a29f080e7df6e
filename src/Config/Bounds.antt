-- ===== src/Config/Bounds.antt =====
-- The limits, the settings and the errors of config.rs.
use patwari.Prelude.{Bool, Result, Text, bytes, false, ℕ, ◌*◌}

-- Nanoseconds of a whole number of seconds: `Duration::from_secs`.
abbrev pub from_secs : ℕ → ℕ
from_secs s = s * 1000000000

abbrev pub min_request_body_bytes : ℕ
min_request_body_bytes = 1024

abbrev pub max_request_body_limit : ℕ
max_request_body_limit = 64 * 1024 * 1024

abbrev pub max_concurrency_limit : ℕ
max_concurrency_limit = 256

abbrev pub max_download_concurrency_limit : ℕ
max_download_concurrency_limit = 64

abbrev pub max_request_timeout : ℕ
max_request_timeout = from_secs 300

abbrev pub min_chunk_size_bytes : ℕ
min_chunk_size_bytes = 1024

abbrev pub max_chunk_size_bytes : ℕ
max_chunk_size_bytes = 32 * 1024 * 1024

abbrev pub max_artifact_bytes : ℕ
max_artifact_bytes = 8 * 1024 * 1024 * 1024

abbrev pub max_artifact_count_limit : ℕ
max_artifact_count_limit = 1024

abbrev pub max_snapshot_bytes : ℕ
max_snapshot_bytes = 64 * 1024 * 1024 * 1024

abbrev pub min_upload_expiry : ℕ
min_upload_expiry = from_secs 60

abbrev pub max_upload_expiry : ℕ
max_upload_expiry = from_secs (720 * 3600)

abbrev pub min_blob_gc_grace : ℕ
min_blob_gc_grace = from_secs 60

abbrev pub max_blob_gc_grace : ℕ
max_blob_gc_grace = from_secs (365 * 24 * 3600)

abbrev pub max_integrity_scan_concurrency : ℕ
max_integrity_scan_concurrency = 32

abbrev pub min_integrity_scan_buffer_bytes : ℕ
min_integrity_scan_buffer_bytes = 4 * 1024

abbrev pub max_integrity_scan_buffer_bytes : ℕ
max_integrity_scan_buffer_bytes = 1024 * 1024

pub data ConfigError : Type 0 where
  empty_data_dir invalid_bind_addr invalid_request_body_limit invalid_concurrency_limit
        invalid_download_concurrency_limit invalid_request_timeout invalid_chunk_size
        chunk_exceeds_request_body invalid_stored_artifact_limit invalid_original_artifact_limit
        invalid_artifact_count_limit invalid_stored_snapshot_limit invalid_original_snapshot_limit
        too_many_chunks invalid_upload_expiry invalid_admin_deletion_enabled invalid_blob_gc_grace
        invalid_integrity_scan_concurrency invalid_integrity_scan_buffer :
      ConfigError

abbrev pub ConfigResult {ℓ} : Type ℓ → Type ℓ
ConfigResult A = Result ConfigError A

pub record Config (Addr : Type 0) : Type 0 where
  pub data_dir : Text
  pub bind_addr : Addr
  pub max_request_body_bytes : ℕ
  pub max_concurrency : ℕ
  pub max_download_concurrency : ℕ
  pub request_timeout : ℕ
  pub chunk_size_bytes : ℕ
  pub max_artifact_stored_bytes : ℕ
  pub max_artifact_original_bytes : ℕ
  pub max_artifact_count : ℕ
  pub max_snapshot_stored_bytes : ℕ
  pub max_snapshot_original_bytes : ℕ
  pub upload_expiry : ℕ
  pub admin_deletion_enabled : Bool
  pub blob_gc_grace : ℕ
  pub integrity_scan_concurrency : ℕ
  pub integrity_scan_buffer_bytes : ℕ

-- `Config::default`; its address is the parsed `DEFAULT_BIND_ADDR`.
abbrev pub default : {Addr : Type 0} → Addr → Config Addr
default loopback = record {
  data_dir = bytes "data";
  bind_addr = loopback;
  max_request_body_bytes = 32 * 1024 * 1024;
  max_concurrency = 64;
  max_download_concurrency = 8;
  request_timeout = from_secs 30;
  chunk_size_bytes = 4 * 1024 * 1024;
  max_artifact_stored_bytes = 1024 * 1024 * 1024;
  max_artifact_original_bytes = 4 * 1024 * 1024 * 1024;
  max_artifact_count = 128;
  max_snapshot_stored_bytes = 4 * 1024 * 1024 * 1024;
  max_snapshot_original_bytes = 16 * 1024 * 1024 * 1024;
  upload_expiry = from_secs (24 * 3600);
  admin_deletion_enabled = false;
  blob_gc_grace = from_secs (90 * 24 * 3600);
  integrity_scan_concurrency = 4;
  integrity_scan_buffer_bytes = 64 * 1024;
}
