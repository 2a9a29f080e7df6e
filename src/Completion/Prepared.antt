-- ===== src/Completion/Prepared.antt =====
-- What `prepare_artifacts` leaves in the directory of the upload
-- (crates/patwari-server/src/ingestion.rs).
use patwari.Prelude.{
  ◌>>=◌, All, ApiError, ApiResult, List, Option-cases, Result-cases, Text, [], any, ap, arith, err,
  false, inl, inr, none, ok, refl, reject_if, some, storage_error, sym, text_eq, text_eq_iff, ℕ, ℤ,
  ◌++◌, ◌∙◌, ◌∷◌, ◌≡◌, ◌≢◌,
}
use patwari.Chunks.{UploadArtifactRow}
use patwari.Completion.Assemble.{assemble_artifact}
use patwari.Completion.Layout.{accepted_chunk_layout}
use patwari.Completion.Prepare.{
  AssembledFile, PreparedArtifact, cleanup_prepared, is_assembled, prepare_artifacts,
  prepare_content, prepare_from, remove_file,
}
use patwari.Completion.{Streams}
use patwari.Contract.{Artifact, Manifest}
use patwari.Uploads.Status.{to_u32}
use patwari.Uploads.World.{ActiveUploadRow, World}

-- Removals at different places commute.
remove-remove :
    (id : Text) (i j : ℕ) (files : List AssembledFile)
    → remove_file id i (remove_file id j files) ≡ remove_file id j (remove_file id i files)
remove-remove id i j [] = refl
remove-remove id i j (f ∷ files) = ground (arith, remove-remove id i j files)

cleanup_prepared-remove :
    (id : Text) (prepared : List PreparedArtifact) (i : ℕ) (files : List AssembledFile)
    → cleanup_prepared id prepared (remove_file id i files)
      ≡ remove_file id i (cleanup_prepared id prepared files)
unfolding cleanup_prepared
cleanup_prepared-remove id [] i files = refl
cleanup_prepared-remove id (p ∷ prepared) i files =
    ap (cleanup_prepared id prepared) (remove-remove id p.artifact_index i files)
    ∙ cleanup_prepared-remove id prepared i (remove_file id p.artifact_index files)

cleanup_prepared-append :
    (id : Text) (prepared : List PreparedArtifact) (p : PreparedArtifact)
    (files : List AssembledFile)
    → cleanup_prepared id (prepared ++ (p ∷ [])) files
      ≡ remove_file id p.artifact_index (cleanup_prepared id prepared files)
unfolding cleanup_prepared
cleanup_prepared-append id [] p files = refl
cleanup_prepared-append id (q ∷ prepared) p files =
    cleanup_prepared-append id prepared p (remove_file id q.artifact_index files)

-- A file at the place is removed, whatever stands there.
remove-cons :
    (id : Text) (i : ℕ) (content : Text) (files : List AssembledFile)
    → remove_file id i (record { upload_id = id; artifact_index = i; content = content } ∷ files)
      ≡ remove_file id i files
remove-cons id i content files = ground (arith, text_eq_iff id id)

-- No file is one of the upload.
abbrev pub HasNoAssembled : Text → List AssembledFile → Type 0
HasNoAssembled id files = All (λ f. text_eq f.upload_id id ≡ false) files

remove_nothing :
    (id : Text) (i : ℕ) (files : List AssembledFile)
    → HasNoAssembled id files
    → remove_file id i files ≡ files
remove_nothing id i [] h = refl
remove_nothing id i (f ∷ files) h = ground (arith, h.0, remove_nothing id i files h.1)

module _ (streams : Streams) (partial : ℕ → Text) (id : Text) (size : ℤ) (world : World) where
  abbrev written :
      UploadArtifactRow
      → Artifact
      → ℕ
      → List AssembledFile
      → ApiResult (Unit {0}) × List AssembledFile
  written row a i files = prepare_content streams partial id size row a i world files

  -- What stands at the place of the artifact aside, its files are those that were there.
  prepare_content-remove :
      (row : UploadArtifactRow) (a : Artifact) (i : ℕ) (files : List AssembledFile)
      → remove_file id i (written row a i files).1 ≡ remove_file id i files
  unfolding prepare_content
  prepare_content-remove row a i files =
      elim (Result-cases (
        accepted_chunk_layout id row size world.database >>= λ _.
        reject_if (any (is_assembled id i) files) storage_error)) [
          | inl (e, x) ↦ rw (x, prepare_content) refl
          | inr (_, x) ↦ elim (Result-cases (assemble_artifact streams id size row a world)) [
            | inl (e, y) ↦ rw (x, prepare_content) (rw y (remove-cons id i (partial i) files))
            | inr (content, y) ↦ rw (x, prepare_content) (rw y (remove-cons id i content files))
          ]
        ]

  stops :
      (row : UploadArtifactRow) (a : Artifact) (artifacts : List Artifact)
      (rows : List UploadArtifactRow) (prepared : List PreparedArtifact)
      (files : List AssembledFile) {i : ℕ} {error : ApiError}
      → to_u32 row.artifact_index ≡ some i
      → (written row a i files).0 ≡ err error
      → prepare_from streams partial id size world (a ∷ artifacts) (row ∷ rows) prepared files
        ≡ (err error, cleanup_prepared id prepared (remove_file id i (written row a i files).1))
  unfolding prepare_from
  stops row a artifacts rows prepared files {i = i} x y = rw (x, prepare_from) (rw y refl)

  goes_on :
      (row : UploadArtifactRow) (a : Artifact) (artifacts : List Artifact)
      (rows : List UploadArtifactRow) (prepared : List PreparedArtifact)
      (files : List AssembledFile) {i : ℕ}
      → to_u32 row.artifact_index ≡ some i
      → (written row a i files).0 ≡ ok tt
      → prepare_from streams partial id size world (a ∷ artifacts) (row ∷ rows) prepared files
        ≡ prepare_from streams partial id size world artifacts rows
            (prepared ++ (record { artifact_index = i; artifact = a } ∷ []))
            (written row a i files).1
  unfolding prepare_from
  goes_on row a artifacts rows prepared files {i = i} x y = rw (x, prepare_from) (rw y refl)

  -- Whatever was written at a place, its removal and the cleanup give the files before.
  cleaned :
      (prepared : List PreparedArtifact) (i : ℕ) (files files' before : List AssembledFile)
      → HasNoAssembled id before
      → cleanup_prepared id prepared files ≡ before
      → remove_file id i files' ≡ remove_file id i files
      → cleanup_prepared id prepared (remove_file id i files') ≡ before
  cleaned prepared i files files' before n c same =
      ap (cleanup_prepared id prepared) same
      ∙ cleanup_prepared-remove id prepared i files
      ∙ ap (remove_file id i) c
      ∙ remove_nothing id i before n

  prepare_from-cleans :
      (artifacts : List Artifact) (rows : List UploadArtifactRow) (prepared : List PreparedArtifact)
      (files before : List AssembledFile) {e : ApiError}
      → All (λ r. to_u32 r.artifact_index ≢ none) rows
      → HasNoAssembled id before
      → cleanup_prepared id prepared files ≡ before
      → (prepare_from streams partial id size world artifacts rows prepared files).0 ≡ err e
      → (prepare_from streams partial id size world artifacts rows prepared files).1 ≡ before
  unfolding prepare_from
  prepare_from-cleans [] rows prepared files before h n c f = ground (arith, f)
  prepare_from-cleans (a ∷ artifacts) [] prepared files before h n c f = ground (arith, f)
  prepare_from-cleans (a ∷ artifacts) (row ∷ rows) prepared files before {e} h n c f =
      elim (Option-cases (to_u32 row.artifact_index)) [
        | inl x ↦ absurd (h.0 x)
        | inr (i, x) ↦
            let clean =
              cleaned prepared i files (written row a i files).1 before n c
                (prepare_content-remove row a i files) in
            elim (Result-cases (written row a i files).0) [
              | inl (error, y) ↦
                  ap (λ r. r.1) (stops row a artifacts rows prepared files x y) ∙ clean
              | inr (_, y) ↦
                  let step = goes_on row a artifacts rows prepared files x y in
                  let p : PreparedArtifact = record { artifact_index = i; artifact = a } in
                  ap (λ r. r.1) step
                  ∙ prepare_from-cleans artifacts rows _ _ before {e = e} h.1 n
                      (cleanup_prepared-append id prepared p (written row a i files).1
                        ∙ sym (cleanup_prepared-remove id prepared i (written row a i files).1)
                        ∙ clean)
                      (ap (λ r. r.0) (sym step) ∙ f)
            ]
      ]

-- When `prepare_artifacts` fails, at whichever artifact and however much of its file is written, it
-- leaves the files as they were, if none of them was one of the upload; assumed is that the rows'
-- indexes are u32s.
pub prepare_artifacts-cleans :
    (streams : Streams) (partial : ℕ → Text) (upload : ActiveUploadRow) (manifest : Manifest)
    (rows : List UploadArtifactRow) (world : World) (files : List AssembledFile) {e : ApiError}
    → All (λ r. to_u32 r.artifact_index ≢ none) rows
    → HasNoAssembled upload.id files
    → (prepare_artifacts streams partial upload manifest rows world files).0 ≡ err e
    → (prepare_artifacts streams partial upload manifest rows world files).1 ≡ files
unfolding prepare_artifacts cleanup_prepared
prepare_artifacts-cleans streams partial upload manifest rows world files {e} h n f =
    prepare_from-cleans streams partial upload.id upload.chunk_size_bytes world manifest.artifacts
      rows [] files files {e = e} h n refl f
