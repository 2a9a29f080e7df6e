-- ===== src/Validation/Manifest/Artifacts.antt =====
-- What the loop over the artifacts has checked when it ends.
use patwari.Prelude.{
  Option-cases, String, Text, [], arith, false, i64_bound, inl, inr, ok, some, strip_prefix,
  u64_bound, ℕ, ◌++◌, ◌+◌, ◌<◌, ◌∷◌, ◌≡◌, ◌≤◌,
}
use patwari.Contract.{Artifact, ArtifactInput}
use patwari.Validation.Fields.{sha256_prefix, validate_digest, validate_size}
use patwari.Validation.LogicalPath.{to_ascii_lowercase, validate_logical_path}
use patwari.Validation.Manifest.{
  External, ManifestLimits, Progress, add_representation, add_total, artifact_of, contains_text,
  normalize_artifact,
}

-- The facts that one accepted artifact leaves behind.
pub record IsAccepted (limits : ManifestLimits) (a : Artifact) : Type 0 where
  pub path : validate_logical_path a.logical_path ≡ ok tt
  pub original_digest : validate_digest a.original_sha256 ≡ ok tt
  pub stored_digest : validate_digest a.stored_sha256 ≡ ok tt
  pub original_size :
      (a.original_size_bytes ≤ limits.artifact_original_bytes) × (a.original_size_bytes < i64_bound)
  pub stored_size :
      (a.stored_size_bytes ≤ limits.artifact_stored_bytes) × (a.stored_size_bytes < i64_bound)

size_ok :
    (s m : ℕ) (t : String) {u : Unit {0}} → validate_size s m t ≡ ok u → (s ≤ m) × (s < i64_bound)
unfolding validate_size
size_ok s m t h = ground arith

add_total_ok :
    (a b l : ℕ) (s t : String) (c : ℕ)
    → add_total a b l s t ≡ ok c
    → (c ≡ a + b) × (c ≤ l) × (c < u64_bound)
unfolding add_total
add_total_ok a b l s t c h = ground arith

module _ (ext : External) (limits : ManifestLimits) where
  module _ (i : ArtifactInput) (p q : Progress) (h : normalize_artifact ext i limits p ≡ ok q) where
    pub step-IsAccepted : IsAccepted limits (artifact_of i)
    unfolding normalize_artifact
    step-IsAccepted = ground (
      arith,
      size_ok i.original_size_bytes limits.artifact_original_bytes
          "artifact original size exceeds the configured bounded limit",
      size_ok i.stored_size_bytes limits.artifact_stored_bytes
          "artifact stored size exceeds the configured bounded limit",
    )

    pub step_original :
        (q.original_total ≡ p.original_total + i.original_size_bytes)
        × (q.original_total ≤ limits.snapshot_original_bytes)
        × (q.original_total < u64_bound)
    unfolding normalize_artifact
    step_original = ground (
      arith,
      add_total_ok p.original_total i.original_size_bytes limits.snapshot_original_bytes
          "snapshot original size is invalid"
          "snapshot original size exceeds the configured bounded limit" q.original_total,
    )

    pub step_stored :
        (q.stored_total ≡ p.stored_total + i.stored_size_bytes)
        × (q.stored_total ≤ limits.snapshot_stored_bytes)
        × (q.stored_total < u64_bound)
    unfolding normalize_artifact
    step_stored = ground (
      arith,
      add_total_ok p.stored_total i.stored_size_bytes limits.snapshot_stored_bytes
          "snapshot stored size is invalid"
          "snapshot stored size exceeds the configured bounded limit" q.stored_total,
    )

    pub step_paths :
        (contains_text (to_ascii_lowercase i.logical_path) p.portable_paths ≡ false)
        × (q.portable_paths ≡ to_ascii_lowercase i.logical_path ∷ p.portable_paths)
        × (q.normalized ≡ p.normalized ++ (artifact_of i ∷ []))
    unfolding normalize_artifact
    step_paths = ground arith

    pub step_digest :
        (d : Text) × (strip_prefix sha256_prefix i.stored_sha256 ≡ some d)
        × (add_representation d i.stored_size_bytes i.compression p.representations
            ≡ ok q.representations)
    unfolding normalize_artifact
    step_digest = elim (Option-cases (strip_prefix sha256_prefix i.stored_sha256)) [
      | inl absent ↦ absurd (ground arith)
      | inr (d, e) ↦ (d, e, ground arith)
    ]
