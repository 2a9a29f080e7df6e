-- ===== src/Contract.antt =====
-- crates/patwari-server/src/contract.rs: the request documents and the canonical manifest.
-- A `BTreeMap` is the list of its entries in key order.
pub mod Names
use patwari.Prelude.{List, Option, Text, ℕ}

pub data Compression : Type 0 where
  identity zstd : Compression

pub record RegisterClientRequest : Type 0 where
  pub hostname : Option Text
  pub display_name : Option Text
  pub metadata : List (Text × Text)

pub record SessionInput : Type 0 where
  pub source_agent : Text
  pub source_session_id : Text

pub record CaptureInput : Type 0 where
  pub captured_at : Text
  pub source_cursor : Option Text
  pub source_state_hash : Option Text
  pub source_metadata : List (Text × Text)
  pub project : Option Text
  pub repository : Option Text
  pub branch : Option Text
  pub source_agent_version : Option Text
  pub artifact_set_version : ℕ
  pub munshi_version : Option Text

-- `Capture` has the fields of `CaptureInput`; only its serde default differs.
pub record Capture : Type 0 where
  pub captured_at : Text
  pub source_cursor : Option Text
  pub source_state_hash : Option Text
  pub source_metadata : List (Text × Text)
  pub project : Option Text
  pub repository : Option Text
  pub branch : Option Text
  pub source_agent_version : Option Text
  pub artifact_set_version : ℕ
  pub munshi_version : Option Text

pub record ArtifactInput : Type 0 where
  pub logical_path : Text
  pub media_type : Option Text
  pub original_size_bytes : ℕ
  pub original_sha256 : Text
  pub stored_size_bytes : ℕ
  pub stored_sha256 : Text
  pub compression : Compression

pub record Artifact : Type 0 where
  pub logical_path : Text
  pub media_type : Option Text
  pub original_size_bytes : ℕ
  pub original_sha256 : Text
  pub stored_size_bytes : ℕ
  pub stored_sha256 : Text
  pub compression : Compression

pub record ManifestInput : Type 0 where
  pub schema_version : ℕ
  pub session : SessionInput
  pub capture : CaptureInput
  pub artifacts : Option (List ArtifactInput)
  pub artifact : Option ArtifactInput

pub record Manifest : Type 0 where
  pub schema_version : ℕ
  pub session : SessionInput
  pub capture : Capture
  pub artifacts : List Artifact

pub record CreateUploadRequest : Type 0 where
  pub client_id : Text
  pub capture_id : Option Text
  pub idempotency_key : Option Text
  pub manifest : ManifestInput
