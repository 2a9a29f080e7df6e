-- ===== src/Validation/Manifest/Defs.antt =====
-- The definitions of manifest normalization.
use mathlib.Core.Option
use patwari.Prelude.{
  ApiResult, Bool, List, Option, String, Text, [], any, checked_add, conflict, err, false,
  if◌then◌else◌, internal, invalid, length, ltb, none, not, ok, ok_or, reject_if, some,
  strip_prefix, suc, text_eq, true, zero, ℕ, ◌++◌, ◌==◌, ◌>>=◌, ◌>>◌, ◌||◌, ◌∷◌,
}
use patwari.Contract.{
  Artifact, ArtifactInput, Capture, CaptureInput, Compression, Manifest, ManifestInput,
}
use patwari.Validation.Fields.{
  max_context_value_bytes, max_metadata_entries, max_source_agent_bytes,
  max_source_session_id_bytes, sha256_prefix, validate_digest, validate_entries,
  validate_nonempty_text, validate_optional_text, validate_size, validate_text,
}
use patwari.Validation.LogicalPath.{slash, to_ascii_lowercase, validate_logical_path}
use patwari.Validation.Manifest.Sort.{sort_artifacts}

pub record ManifestLimits : Type 0 where
  pub artifact_count : ℕ
  pub artifact_stored_bytes : ℕ
  pub artifact_original_bytes : ℕ
  pub snapshot_stored_bytes : ℕ
  pub snapshot_original_bytes : ℕ

-- What third-party code contributes: `OffsetDateTime::parse` and `format` at `Rfc3339`, and
-- whether a text parses as `mime::Mime`.
pub record External : Type 1 where
  pub Time : Type 0
  pub parse_time : Text → Option Time
  pub format_time : Time → Option Text
  pub is_mime : Text → Bool

pub Compression-discrete : Discrete Compression
Compression-discrete = hlevel

abbrev pub compression_eq : Compression → Compression → Bool
compression_eq Compression.identity Compression.identity = true
compression_eq Compression.zstd Compression.zstd = true
compression_eq _ _ = false

-- The mutable arguments that `normalize_artifact` shares over the artifacts of one manifest.
pub record Progress : Type 0 where
  pub original_total : ℕ
  pub stored_total : ℕ
  pub portable_paths : List Text
  pub representations : List (Text × (ℕ × Compression))
  pub normalized : List Artifact

abbrev pub nothing_yet : Progress
nothing_yet = record {
  original_total = 0;
  stored_total = 0;
  portable_paths = [];
  representations = [];
  normalized = [];
}

-- The artifact that `normalize_artifact` pushes.
abbrev pub artifact_of : ArtifactInput → Artifact
artifact_of input = record {
  logical_path = input.logical_path;
  media_type = input.media_type;
  original_size_bytes = input.original_size_bytes;
  original_sha256 = input.original_sha256;
  stored_size_bytes = input.stored_size_bytes;
  stored_sha256 = input.stored_sha256;
  compression = input.compression;
}

-- `HashSet::contains`
unfoldable pub contains_text : Text → List Text → Bool
contains_text t [] = false
contains_text t (u ∷ us) = text_eq t u || contains_text t us

-- `BTreeMap::get` on the stored representations
unfoldable pub representation : Text → List (Text × (ℕ × Compression)) → Option (ℕ × Compression)
representation k [] = none
representation k ((j, v) ∷ m) = if text_eq j k then some v else representation k m

-- The check of a digest's representation against the earlier ones of the manifest.
unfoldable pub add_representation :
    Text
    → ℕ
    → Compression
    → List (Text × (ℕ × Compression))
    → ApiResult (List (Text × (ℕ × Compression)))
unfolding representation
add_representation digest size compression known = elim (representation digest known) [
  | none ↦ ok ((digest, (size, compression)) ∷ known)
  | some (old_size, old_compression) ↦
      reject_if (not (old_size == size) || not (compression_eq old_compression compression)) (
        conflict "blob_integrity_conflict"
          "stored digest conflicts with immutable blob size or compression metadata")
      >> ok known
]

-- Adds to a total and holds it against the limit of the snapshot.
unfoldable pub add_total : ℕ → ℕ → ℕ → String → String → ApiResult ℕ
unfolding checked_add
add_total total size limit overflow exceeded = do
  sum ← ok_or (checked_add total size) (invalid overflow)
  reject_if (ltb limit sum) (invalid exceeded)
  ok sum

module _ (ext : External) where
  unfoldable pub validate_optional_media_type : Option Text → ApiResult (Unit {0})
  validate_optional_media_type none = ok tt
  validate_optional_media_type (some value) = do
    validate_text value max_context_value_bytes "media type is invalid"
    reject_if (not (ext.is_mime value)) (invalid "media type is invalid")

  unfoldable pub normalize_artifact : ArtifactInput → ManifestLimits → Progress → ApiResult Progress
  normalize_artifact input limits p = do
    validate_logical_path input.logical_path
    let portable_path = to_ascii_lowercase input.logical_path
    reject_if (contains_text portable_path p.portable_paths)
        (invalid "manifest contains duplicate normalized logical paths")
    validate_optional_media_type input.media_type
    validate_digest input.original_sha256
    validate_digest input.stored_sha256
    validate_size input.original_size_bytes limits.artifact_original_bytes
        "artifact original size exceeds the configured bounded limit"
    validate_size input.stored_size_bytes limits.artifact_stored_bytes
        "artifact stored size exceeds the configured bounded limit"
    original_total ←
        add_total p.original_total input.original_size_bytes limits.snapshot_original_bytes
          "snapshot original size is invalid"
          "snapshot original size exceeds the configured bounded limit"
    stored_total ←
        add_total p.stored_total input.stored_size_bytes limits.snapshot_stored_bytes
          "snapshot stored size is invalid"
          "snapshot stored size exceeds the configured bounded limit"
    stored_digest ← ok_or (strip_prefix sha256_prefix input.stored_sha256) internal
    representations ←
        add_representation stored_digest input.stored_size_bytes input.compression p.representations
    ok (record {
      original_total = original_total;
      stored_total = stored_total;
      portable_paths = portable_path ∷ p.portable_paths;
      representations = representations;
      normalized = p.normalized ++ (artifact_of input ∷ []);
    })

  -- The loop over the artifacts.
  unfoldable pub normalize_artifacts :
      List ArtifactInput → ManifestLimits → Progress → ApiResult Progress
  normalize_artifacts [] limits p = ok p
  normalize_artifacts (input ∷ inputs) limits p = do
    p' ← normalize_artifact input limits p
    normalize_artifacts inputs limits p'

  unfoldable pub normalize_capture : CaptureInput → ApiResult Capture
  normalize_capture input = do
    time ← ok_or (ext.parse_time input.captured_at) (invalid "capture timestamp must be RFC 3339")
    captured_at ← ok_or (ext.format_time time) internal
    validate_optional_text input.source_cursor max_context_value_bytes
    validate_optional_text input.source_state_hash max_context_value_bytes
    validate_optional_text input.project max_context_value_bytes
    validate_optional_text input.repository max_context_value_bytes
    validate_optional_text input.branch max_context_value_bytes
    validate_optional_text input.source_agent_version max_context_value_bytes
    validate_optional_text input.munshi_version max_context_value_bytes
    reject_if (input.artifact_set_version == 0)
        (invalid "artifact set version must be a non-zero adapter contract version")
    reject_if (ltb max_metadata_entries (length input.source_metadata))
        (invalid "source metadata has too many entries")
    validate_entries "source metadata key is invalid" "source metadata value is invalid"
        input.source_metadata
    ok (record {
      captured_at = captured_at;
      source_cursor = input.source_cursor;
      source_state_hash = input.source_state_hash;
      source_metadata = input.source_metadata;
      project = input.project;
      repository = input.repository;
      branch = input.branch;
      source_agent_version = input.source_agent_version;
      artifact_set_version = input.artifact_set_version;
      munshi_version = input.munshi_version;
    })

-- `rsplit_once('/')`, its first part: the text before the last slash.
unfoldable pub rsplit_once : Text → Option Text
rsplit_once [] = none
rsplit_once (c ∷ s) = elim (rsplit_once s) [
  | some prefix ↦ some (c ∷ prefix)
  | none ↦ if c == slash then some [] else none
]

-- The loop that climbs from a path through its parents, on fuel; `none` means that the fuel ran
-- out.
unfoldable pub has_parent_in : ℕ → Text → List Text → Option Bool
unfolding rsplit_once contains_text
has_parent_in zero path paths = none
has_parent_in (suc fuel) path paths = elim (rsplit_once path) [
  | none ↦ some false
  | some prefix ↦
      let rest = has_parent_in fuel prefix paths in
      if contains_text prefix paths then some true else rest
]

-- A parent is shorter than its path, so a path's length and one is enough fuel.
abbrev pub path_conflicts : List Text → Text → Bool
path_conflicts paths path = Option.get_or (has_parent_in (suc (length path)) path paths) true

abbrev pub declared_artifacts :
    Option (List ArtifactInput) → Option ArtifactInput → ApiResult (List ArtifactInput)
declared_artifacts (some artifacts) none = ok artifacts
declared_artifacts none (some artifact) = ok (artifact ∷ [])
declared_artifacts _ _ =
    err (invalid "manifest must declare exactly one artifacts array or legacy artifact")

module _ (ext : External) where
  unfoldable pub normalize_manifest : ManifestInput → ManifestLimits → ApiResult Manifest
  normalize_manifest input limits = do
    reject_if (not (input.schema_version == 1)) (invalid "manifest schema version is not supported")
    validate_nonempty_text input.session.source_agent max_source_agent_bytes
        "source agent is invalid"
    validate_nonempty_text input.session.source_session_id max_source_session_id_bytes
        "source session identifier is invalid"
    capture ← normalize_capture ext input.capture
    artifacts ← declared_artifacts input.artifacts input.artifact
    reject_if (length artifacts == 0 || ltb limits.artifact_count (length artifacts))
        (invalid "manifest artifact count exceeds the configured bounded limit")
    p ← normalize_artifacts ext artifacts limits nothing_yet
    reject_if (any (path_conflicts p.portable_paths) p.portable_paths)
        (invalid "manifest contains conflicting regular-file logical paths")
    ok (record {
      schema_version = input.schema_version;
      session = input.session;
      capture = capture;
      artifacts = sort_artifacts p.normalized;
    })

-- The two checked sums over the artifacts of a manifest.
unfoldable pub fold_totals : List Artifact → ℕ → ℕ → ApiResult (ℕ × ℕ)
unfolding checked_add
fold_totals [] original stored = ok (original, stored)
fold_totals (a ∷ rest) original stored = do
  original' ←
      ok_or (checked_add original a.original_size_bytes)
        (invalid "snapshot original size is invalid")
  stored' ←
      ok_or (checked_add stored a.stored_size_bytes) (invalid "snapshot stored size is invalid")
  fold_totals rest original' stored'

unfoldable pub manifest_totals : Manifest → ApiResult (ℕ × ℕ)
unfolding fold_totals
manifest_totals m = fold_totals m.artifacts 0 0
