-- ===== src/Completion/Checks.antt =====
-- The checks of `complete_upload` before it reads a chunk: `validate_current_manifest_limits` and
-- `validate_upload_projection` (crates/patwari-server/src/ingestion.rs).
use patwari.Prelude.{
  ◌>>=◌, ◌>>◌, ApiError, ApiResult, Bool, List, Option, Text, [], conflict, false, i64_bound,
  if◌then◌else◌, int_eq, internal, invalid, length, ltb, none, not, ok, ok_or, pos, reject_if, some,
  text_eq, to_u64, true, ℕ, ◌+◌, ◌==◌, ◌||◌, ◌∷◌,
}
use patwari.Chunks.{UploadArtifactRow, chunk_count, to_sqlite_i64}
use patwari.Contract.{Artifact, Manifest}
use patwari.Digest.{compression_name, digest_storage_value}
use patwari.Uploads.Layout.{upload_layout}
use patwari.Uploads.World.{ActiveUploadRow}
use patwari.Validation.Manifest.{manifest_totals}

-- The settings of `AppState` that bound a manifest now.
pub record CurrentLimits : Type 0 where
  pub max_artifact_count : ℕ
  pub max_snapshot_original_bytes : ℕ
  pub max_snapshot_stored_bytes : ℕ
  pub max_artifact_stored_bytes : ℕ
  pub max_artifact_original_bytes : ℕ
  pub chunk_size_bytes : ℕ

-- The loop over the artifacts.
unfoldable pub check_artifact_limits : CurrentLimits → List Artifact → ApiResult (Unit {0})
check_artifact_limits limits [] = ok tt
check_artifact_limits limits (artifact ∷ rest) =
    reject_if (ltb limits.max_artifact_stored_bytes artifact.stored_size_bytes)
      (invalid "artifact stored size exceeds the configured bounded limit")
    >> reject_if (ltb limits.max_artifact_original_bytes artifact.original_size_bytes)
        (invalid "artifact original size exceeds the configured bounded limit")
    >> check_artifact_limits limits rest

unfoldable pub validate_current_manifest_limits : CurrentLimits → Manifest → ApiResult (Unit {0})
unfolding check_artifact_limits manifest_totals upload_layout
validate_current_manifest_limits limits manifest =
    reject_if
      (length manifest.artifacts == 0 || ltb limits.max_artifact_count (length manifest.artifacts))
      (invalid "manifest artifact count exceeds the configured bounded limit")
    >> manifest_totals manifest
    >>= λ totals.
        reject_if (ltb limits.max_snapshot_original_bytes totals.0)
          (invalid "snapshot original size exceeds the configured bounded limit")
        >> reject_if (ltb limits.max_snapshot_stored_bytes totals.1)
            (invalid "snapshot stored size exceeds the configured bounded limit")
        >> check_artifact_limits limits manifest.artifacts
        >> upload_layout manifest limits.chunk_size_bytes
        >>= λ layout. ok tt

abbrev pub projection_invalid : ApiError
projection_invalid =
    conflict "upload_artifact_projection_invalid"
      "upload artifact metadata does not match the canonical manifest"

abbrev pub option_text_eq : Option Text → Option Text → Bool
option_text_eq none none = true
option_text_eq (some s) (some t) = text_eq s t
option_text_eq _ _ = false

-- The condition of the loop at an index; `||` evaluates no test after one that is true, so that a
-- number that cannot be converted is an error only if no column before it differs.
unfoldable pub differs_from : ℕ → ℕ → Artifact → UploadArtifactRow → ApiResult Bool
unfolding to_sqlite_i64 chunk_count digest_storage_value compression_name
differs_from chunk_size index artifact row =
    ok_or (if ltb index i64_bound then some (pos index) else none) internal >>= λ i.
    if not (int_eq row.artifact_index i)
      || not (text_eq row.logical_path artifact.logical_path)
      || not (option_text_eq row.media_type artifact.media_type)
    then ok true
    else to_sqlite_i64 artifact.original_size_bytes >>= λ original.
        if not (int_eq row.original_size_bytes original)
          || not (text_eq row.original_sha256 (digest_storage_value artifact.original_sha256))
        then ok true
        else to_sqlite_i64 artifact.stored_size_bytes >>= λ stored.
            if not (int_eq row.stored_size_bytes stored)
              || not (text_eq row.stored_sha256 (digest_storage_value artifact.stored_sha256))
              || not (text_eq row.compression (compression_name artifact.compression))
            then ok true
            else chunk_count artifact.stored_size_bytes chunk_size >>= λ count.
                to_sqlite_i64 count >>= λ column. ok (not (int_eq row.chunk_count column))

-- The loop over the artifacts zipped with the rows, from an index on.
unfoldable pub check_projection :
    ℕ → ℕ → List Artifact → List UploadArtifactRow → ApiResult (Unit {0})
unfolding differs_from
check_projection chunk_size index (artifact ∷ artifacts) (row ∷ rows) =
    differs_from chunk_size index artifact row >>= λ differs.
    reject_if differs projection_invalid >> check_projection chunk_size (index + 1) artifacts rows
check_projection chunk_size index _ _ = ok tt

unfoldable pub validate_upload_projection :
    Manifest → List UploadArtifactRow → ActiveUploadRow → ApiResult (Unit {0})
unfolding check_projection
validate_upload_projection manifest rows upload =
    (if not (length manifest.artifacts == length rows)
      then ok true
      else ok_or (if ltb (length rows) i64_bound then some (pos (length rows)) else none) internal
        >>= λ count. ok (not (int_eq count upload.artifact_count)))
    >>= λ differs.
        reject_if differs projection_invalid
        >> ok_or (to_u64 upload.chunk_size_bytes) internal
        >>= λ chunk_size. check_projection chunk_size 0 manifest.artifacts rows
