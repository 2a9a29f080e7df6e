-- ===== src/Completion/Prepare.antt =====
-- `prepare_artifacts` and `cleanup_prepared`: the files that the artifacts of an upload are assembled
-- in (crates/patwari-server/src/ingestion.rs).
use patwari.Prelude.{
  ◌>>=◌, ApiResult, Bool, List, Text, [], any, err, filter, internal, none, not, ok, reject_if,
  some, storage_error, text_eq, ℕ, ℤ, ◌&&◌, ◌++◌, ◌==◌, ◌∷◌,
}
use patwari.Chunks.{UploadArtifactRow}
use patwari.Completion.Assemble.{assemble_artifact, verify_artifact}
use patwari.Completion.Layout.{accepted_chunk_layout}
use patwari.Completion.{Streams}
use patwari.Contract.{Artifact, Manifest}
use patwari.Uploads.Status.{to_u32}
use patwari.Uploads.World.{ActiveUploadRow, World}

-- A file at `assembled_artifact_path`, by what its path is made of.
pub record AssembledFile : Type 0 where
  pub upload_id : Text
  pub artifact_index : ℕ
  pub content : Text

-- The path of a prepared artifact is that of its upload and its index.
pub record PreparedArtifact : Type 0 where
  pub artifact_index : ℕ
  pub artifact : Artifact

abbrev pub is_assembled : Text → ℕ → AssembledFile → Bool
is_assembled upload_id index f = text_eq f.upload_id upload_id && f.artifact_index == index

-- `StorageLayout::remove_file` at the path
abbrev pub remove_file : Text → ℕ → List AssembledFile → List AssembledFile
remove_file upload_id index files = filter (λ f. not (is_assembled upload_id index f)) files

unfoldable pub cleanup_prepared :
    Text → List PreparedArtifact → List AssembledFile → List AssembledFile
cleanup_prepared upload_id [] files = files
cleanup_prepared upload_id (p ∷ prepared) files =
    cleanup_prepared upload_id prepared (remove_file upload_id p.artifact_index files)

-- The file of an artifact
abbrev pub assembled_file : Text → ℕ → Text → AssembledFile
assembled_file upload_id index content = record {
  upload_id = upload_id;
  artifact_index = index;
  content = content;
}

-- `partial` is what stands in the file of an artifact when assembling it fails.
module _ (streams : Streams) (partial : ℕ → Text) where
  -- `assemble_artifact` and `verify_artifact`, and the files that they leave. The file is opened
  -- with `create_new` after the layout of the chunks is checked, and stays there on every error
  -- after that.
  unfoldable pub prepare_content :
      Text
      → ℤ
      → UploadArtifactRow
      → Artifact
      → ℕ
      → World
      → List AssembledFile
      → ApiResult (Unit {0}) × List AssembledFile
  unfolding accepted_chunk_layout assemble_artifact verify_artifact
  prepare_content upload_id chunk_size row artifact index world files =
      elim (accepted_chunk_layout upload_id row chunk_size world.database >>= λ _.
      reject_if (any (is_assembled upload_id index) files) storage_error) [
        | err e ↦ (err e, files)
        | ok _ ↦ elim (assemble_artifact streams upload_id chunk_size row artifact world) [
          | err e ↦ (err e, assembled_file upload_id index (partial index) ∷ files)
          | ok content ↦ (
            verify_artifact streams content artifact,
            assembled_file upload_id index content ∷ files,
          )
        ]
      ]

  -- The loop over the artifacts zipped with their rows, from what is prepared so far.
  unfoldable pub prepare_from :
      Text
      → ℤ
      → World
      → List Artifact
      → List UploadArtifactRow
      → List PreparedArtifact
      → List AssembledFile
      → ApiResult (List PreparedArtifact) × List AssembledFile
  unfolding prepare_content cleanup_prepared to_u32
  prepare_from upload_id chunk_size world (artifact ∷ artifacts) (row ∷ rows) prepared files =
      elim (to_u32 row.artifact_index) [
        | none ↦ (err internal, files)
        | some index ↦
            let written = prepare_content upload_id chunk_size row artifact index world files in
            elim written.0 [
              | err e ↦ (
                err e,
                cleanup_prepared upload_id prepared (remove_file upload_id index written.1),
              )
              | ok _ ↦
                  prepare_from upload_id chunk_size world artifacts rows
                    (prepared ++ (record { artifact_index = index; artifact = artifact } ∷ []))
                    written.1
            ]
      ]
  prepare_from upload_id chunk_size world _ _ prepared files = (ok prepared, files)

  unfoldable pub prepare_artifacts :
      ActiveUploadRow
      → Manifest
      → List UploadArtifactRow
      → World
      → List AssembledFile
      → ApiResult (List PreparedArtifact) × List AssembledFile
  unfolding prepare_from
  prepare_artifacts upload manifest rows world files =
      prepare_from upload.id upload.chunk_size_bytes world manifest.artifacts rows [] files
