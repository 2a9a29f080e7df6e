-- ===== src/Tests/Manifests.antt =====
-- A manifest of two artifacts (crates/patwari-server/src/validation.rs).
use mathlib.Core.List.{Perm}
use patwari.Prelude.{
  List, Text, [], arith, bytes, false, map, none, ok, refl, some, true, ◌∷◌, ◌≡◌, ◌⊎◌,
}
use patwari.Contract.{ArtifactInput, Manifest, ManifestInput, identity}
use patwari.Validation.Manifest.Canonical.{
  IsCanonical, normalize_manifest-IsCanonical, normalize_manifest-perm,
}
use patwari.Validation.Manifest.Paths.{IsParent, has_parent_in-decides}
use patwari.Validation.Manifest.{
  External, ManifestLimits, artifact_of, contains_text, declared_artifacts, has_parent_in,
  normalize_manifest,
}

-- A time is its text, and every text is a media type.
abbrev texts : External
texts = record { Time = Text; parse_time = some; format_time = some; is_mime = λ t. true }

abbrev digest : Text
digest = bytes "sha256:aaaaaaaaaaaaaaaaaaaaaaaaaaaaaaaaaaaaaaaaaaaaaaaaaaaaaaaaaaaaaaaa"

abbrev file_input : Text → ArtifactInput
file_input path = record {
  logical_path = path;
  media_type = none;
  original_size_bytes = 10;
  original_sha256 = digest;
  stored_size_bytes = 10;
  stored_sha256 = digest;
  compression = identity;
}

abbrev input : ManifestInput
input = record {
  schema_version = 1;
  session = record { source_agent = bytes "agent"; source_session_id = bytes "s" };
  capture = record {
    captured_at = bytes "2026-01-01T00:00:00Z";
    source_cursor = none;
    source_state_hash = none;
    source_metadata = [];
    project = none;
    repository = none;
    branch = none;
    source_agent_version = none;
    artifact_set_version = 1;
    munshi_version = none;
  };
  artifacts = some (file_input (bytes "logs/b.txt") ∷ file_input (bytes "a.txt") ∷ []);
  artifact = none;
}

abbrev limits : ManifestLimits
limits = record {
  artifact_count = 8;
  artifact_stored_bytes = 100;
  artifact_original_bytes = 100;
  snapshot_stored_bytes = 1000;
  snapshot_original_bytes = 1000;
}

abbrev normalized : Manifest
normalized = record {
  schema_version = 1;
  session = input.session;
  capture = record {
    captured_at = bytes "2026-01-01T00:00:00Z";
    source_cursor = none;
    source_state_hash = none;
    source_metadata = [];
    project = none;
    repository = none;
    branch = none;
    source_agent_version = none;
    artifact_set_version = 1;
    munshi_version = none;
  };
  artifacts =
      artifact_of (file_input (bytes "a.txt")) ∷ artifact_of (file_input (bytes "logs/b.txt")) ∷ [];
}

accepted : normalize_manifest texts input limits ≡ ok normalized
unfolding normalize_manifest patwari.Validation.Fields.validate_nonempty_text
    patwari.Validation.Manifest.normalize_capture patwari.Validation.Fields.validate_optional_text
    patwari.Validation.Fields.validate_entries patwari.Validation.Manifest.normalize_artifacts
    patwari.Validation.Manifest.normalize_artifact
    patwari.Validation.LogicalPath.validate_logical_path contains_text
    patwari.Validation.Manifest.validate_optional_media_type
    patwari.Validation.Fields.validate_digest patwari.Validation.Fields.validate_size
    patwari.Validation.Manifest.add_total patwari.Validation.Manifest.add_representation
    patwari.Validation.LogicalPath.to_ascii_lowercase has_parent_in
    patwari.Validation.Manifest.sort_artifacts
accepted = refl

normalize_manifest-IsCanonical_example : IsCanonical limits normalized
normalize_manifest-IsCanonical_example =
    normalize_manifest-IsCanonical texts input limits normalized accepted

normalize_manifest-perm_example :
    (inputs : List ArtifactInput) × (declared_artifacts input.artifacts input.artifact ≡ ok inputs)
    × Perm normalized.artifacts (map artifact_of inputs)
normalize_manifest-perm_example = normalize_manifest-perm texts input limits normalized accepted

has_parent_in-decides_example :
    ((has_parent_in 11 (bytes "logs/b.txt") (bytes "logs" ∷ []) ≡ some true)
      × ((t : Text) × IsParent t (bytes "logs/b.txt")
          × (contains_text t (bytes "logs" ∷ []) ≡ true)))
    ⊎ ((has_parent_in 11 (bytes "logs/b.txt") (bytes "logs" ∷ []) ≡ some false)
        × ((t : Text)
            → IsParent t (bytes "logs/b.txt")
            → contains_text t (bytes "logs" ∷ []) ≡ false))
has_parent_in-decides_example =
    has_parent_in-decides 11 (bytes "logs/b.txt") (bytes "logs" ∷ []) (omega arith)
