-- ===== src/Uploads/Reuse.antt =====
-- What a client may reuse a capture identifier for: `ensure_terminal_capture_reuse_is_equivalent`
-- and `legacy_manifest_digests` (crates/patwari-server/src/ingestion.rs).
use patwari.Prelude.{
  ApiError, ApiResult, Bool, List, Option, Text, [], any, conflict, err, false, filter,
  if◌then◌else◌, none, ok, some, text_eq, text_leb, true, ℕ, ◌&&◌, ◌==◌, ◌||◌, ◌∷◌,
}
use patwari.Contract.{Artifact, Manifest, SessionInput}
use patwari.Digest.{hex_digest}
use patwari.Uploads.World.{AuditRow, Handler, gets, lift, ◌>>=◌}
use patwari.Validation.Fields.{capture_id}

-- `LegacyManifestV1` and its `LegacyCaptureV1`, with the fields that were serialized then.
pub record LegacyManifestV1 : Type 0 where
  pub schema_version : ℕ
  pub session : SessionInput
  pub captured_at : Text
  pub source_cursor : Option Text
  pub project : Option Text
  pub repository : Option Text
  pub branch : Option Text
  pub source_agent_version : Option Text
  pub munshi_version : Option Text
  pub artifacts : List Artifact

-- What third-party code contributes: serde_json on manifests, and SHA-256.
pub record ManifestExternal : Type 0 where
  pub to_vec : Manifest → Option Text
  pub legacy_to_vec : LegacyManifestV1 → Option Text
  pub from_str : Text → Option Manifest
  pub sha256 : Text → Text

-- `contract::LEGACY_ARTIFACT_SET_VERSION`
abbrev pub legacy_artifact_set_version : ℕ
legacy_artifact_set_version = 1

abbrev pub legacy_of : Manifest → LegacyManifestV1
legacy_of manifest = record {
  schema_version = manifest.schema_version;
  session = manifest.session;
  captured_at = manifest.capture.captured_at;
  source_cursor = manifest.capture.source_cursor;
  project = manifest.capture.project;
  repository = manifest.capture.repository;
  branch = manifest.capture.branch;
  source_agent_version = manifest.capture.source_agent_version;
  munshi_version = manifest.capture.munshi_version;
  artifacts = manifest.artifacts;
}

abbrev pub is_none {ℓ} : {A : Type ℓ} → Option A → Bool
is_none none = true
is_none (some a) = false

abbrev pub is_empty {ℓ} : {A : Type ℓ} → List A → Bool
is_empty [] = true
is_empty (x ∷ xs) = false

-- What creating an upload reads of the server's state and of the clock: the times are formatted,
-- and `upload_id`, `session_id` and `manifest_id` are new UUIDs.
pub record Creation : Type 0 where
  pub owner_namespace : Text
  pub chunk_size_bytes : ℕ
  pub now : Text
  pub expires_at : Text
  pub upload_id : Text
  pub session_id : Text
  pub manifest_id : Text

abbrev pub capture_id_conflict : ApiError
capture_id_conflict =
    conflict "capture_id_conflict" "capture identifier was already used for a different manifest"

module _ (ext : ManifestExternal) where
  unfoldable pub sha256_hex : Text → Text
  unfolding hex_digest
  sha256_hex content = hex_digest (ext.sha256 content)

  -- The digests of the shapes before the current one that the manifest could have had.
  unfoldable pub legacy_manifest_digests : Manifest → List Text
  unfolding sha256_hex
  legacy_manifest_digests manifest =
      if is_none manifest.capture.source_state_hash
        && is_empty manifest.capture.source_metadata
        && manifest.capture.artifact_set_version == legacy_artifact_set_version
      then elim (ext.legacy_to_vec (legacy_of manifest)) [
        | none ↦ []
        | some json ↦ sha256_hex json ∷ []
      ]
      else []

  abbrev pub has_capture : Text → Text → Text → AuditRow → Bool
  has_capture owner client_id capture_id a =
      text_eq a.owner_namespace owner
      && text_eq a.client_id client_id
      && text_eq a.capture_id capture_id

  -- `ORDER BY terminal_at DESC LIMIT 1`
  unfoldable pub latest_audit : List AuditRow → Option AuditRow
  latest_audit [] = none
  latest_audit (a ∷ rest) = elim (latest_audit rest) [
    | none ↦ some a
    | some b ↦ some (if text_leb b.terminal_at a.terminal_at then a else b)
  ]

  unfoldable pub reuse_of : Option AuditRow → Manifest → Text → ApiResult (Unit {0})
  unfolding legacy_manifest_digests text_eq
  reuse_of none manifest manifest_sha256 = ok tt
  reuse_of (some prior) manifest manifest_sha256 = elim prior.manifest_sha256 [
    | none ↦ err (
        conflict "capture_id_conflict"
          "capture identifier was used by a historical terminal upload with unknown manifest")
    | some previous ↦
        if text_eq previous manifest_sha256
          || any (λ digest. text_eq digest previous) (legacy_manifest_digests manifest)
        then ok tt
        else err capture_id_conflict
  ]

  unfoldable pub ensure_terminal_capture_reuse_is_equivalent :
      Text → Text → Text → Manifest → Text → Handler (Unit {0})
  unfolding latest_audit reuse_of
  ensure_terminal_capture_reuse_is_equivalent owner client_id capture_id manifest manifest_sha256 =
      gets (λ w.
        latest_audit (filter (has_capture owner client_id capture_id) w.database.upload_audits))
      >>= λ prior. lift (reuse_of prior manifest manifest_sha256)
