-- ===== src/Completion/Assembled.antt =====
-- What `assemble_artifact` writes: the chunk files of the artifact in the order of their indexes
-- (crates/patwari-server/src/ingestion.rs).
use patwari.Prelude.{
  ◌>>◌, ==_iff, >>=-eq-ok, List, Text, [], ap, arith, conflict, internal, length, negsuc, not, ok,
  ok-injective, ok_or, ok_or-eq-ok, pos, reject_if, reject_if-eq-ok, some, subst, sym, text_eq,
  text_eq_iff, to_u64, to_u64-eq_some, ℕ, ℤ, ◌<◌, ◌==◌, ◌||◌, ◌∙◌, ◌≡◌,
}
use patwari.Chunks.{UploadArtifactRow, expected_chunk_length}
use patwari.Completion.Assemble.{assemble_artifact, copy_chunks}
use patwari.Completion.Copying.{
  AreLaid, as_equal, as_expected, check_layout-AreLaid, chunk_text, chunk_texts, copy_chunks-texts,
  not-false,
}
use patwari.Completion.Layout.{accepted_chunk_layout, check_layout}
use patwari.Completion.{ReadsAll, Streams, join}
use patwari.Contract.{Artifact}
use patwari.Digest.{digest_storage_value, hex_digest}
use patwari.Uploads.Ordered.{artifact_chunks}
use patwari.Uploads.Status.{to_u32}
use patwari.Uploads.World.{ChunkFile, ChunkRow, Database, World}

-- The content is the chunk files in the order of their indexes.
pub record IsAssembled (streams : Streams) (id : Text) (size : ℤ) (row : UploadArtifactRow)
    (artifact : Artifact) (files : List ChunkFile) (content : Text) : Type 0 where
  pub index : ℕ
  pub count : ℕ
  pub artifact_index : row.artifact_index ≡ pos index
  pub chunk_count : row.chunk_count ≡ pos count
  pub parts : content ≡ join (chunk_texts id index files 0 count)
  pub lengths :
      (i : ℕ)
      → i < count
      → expected_chunk_length size row i ≡ ok (length (chunk_text id index files i))
  pub stored_size : length content ≡ artifact.stored_size_bytes
  pub stored_digest :
      hex_digest (streams.sha256 content) ≡ digest_storage_value artifact.stored_sha256

to_u32-eq_some : (z : ℤ) {n : ℕ} → to_u32 z ≡ some n → z ≡ pos n
unfolding to_u32
to_u32-eq_some (pos m) e = ground (arith, e)
to_u32-eq_some (negsuc m) e = ground (arith, e)

layout_laid :
    (id : Text) (row : UploadArtifactRow) (size : ℤ) (d : Database) {rows : List ChunkRow}
    → accepted_chunk_layout id row size d ≡ ok rows
    → (row.chunk_count ≡ pos (length rows)) × AreLaid size row 0 rows
unfolding accepted_chunk_layout
layout_laid id row size d {rows} e =
    let found = artifact_chunks id row.artifact_index d in
    let (count, x, e1) = >>=-eq-ok (ok_or (to_u64 row.chunk_count) internal) _ e in
    let (_, y, e2) =
      >>=-eq-ok
        (reject_if (not (length found == count)) (
            conflict "artifact_incomplete"
              "all negotiated chunks must be accepted before completion")
          >> check_layout size row 0 found)
        _ e1 in
    let (same, laid) = reject_if-eq-ok (not (length found == count)) _ _ y in
    let is : found ≡ rows = ok-injective e2 in
    (
      to_u64-eq_some row.chunk_count (ok_or-eq-ok _ _ x)
          ∙ ap pos (sym ((==_iff (length found) count).0 (not-false _ same)) ∙ ap length is),
      subst (λ r. AreLaid size row 0 r) is (check_layout-AreLaid size row 0 found laid),
    )

-- If an artifact is assembled, its content is the contents of its chunk files in the order of
-- their indexes, each of the length that the layout expects, and it has the size and the digest that
-- the manifest declares; assumed is that reading a file delivers its content.
pub assemble_artifact-IsAssembled :
    (streams : Streams)
    → ReadsAll streams
    → (id : Text) (size : ℤ) (row : UploadArtifactRow) (artifact : Artifact) (world : World)
      {content : Text}
    → assemble_artifact streams id size row artifact world ≡ ok content
    → IsAssembled streams id size row artifact world.chunk_files content
unfolding assemble_artifact
assemble_artifact-IsAssembled streams reads_all id size row artifact world {content} e =
    let (rows, x, e1) = >>=-eq-ok (accepted_chunk_layout id row size world.database) _ e in
    let (index, y, e2) = >>=-eq-ok (ok_or (to_u32 row.artifact_index) internal) _ e1 in
    let ((total, written), z, e3) =
      >>=-eq-ok
        (copy_chunks streams id index artifact.stored_size_bytes world.chunk_files rows 0 []) _
        e2 in
    let (fits, e4) =
      reject_if-eq-ok
        (not (total == artifact.stored_size_bytes)
          || not (
              text_eq (hex_digest (streams.sha256 written))
                (digest_storage_value artifact.stored_sha256)))
        _ _ e3 in
    let (count, laid) = layout_laid id row size world.database x in
    let (c1, c2, c3) =
      copy_chunks-texts streams reads_all id index artifact.stored_size_bytes world.chunk_files size
        row 0 rows 0 [] laid z in
    let is : written ≡ content = ok-injective e4 in
    let whole : content ≡ join (chunk_texts id index world.chunk_files 0 (length rows)) =
      sym is ∙ c1 in
    record {
      index = index;
      count = length rows;
      artifact_index = to_u32-eq_some row.artifact_index (ok_or-eq-ok _ _ y);
      chunk_count = count;
      parts = whole;
      lengths = λ i b. c3 i (omega arith) (omega (arith, b));
      stored_size =
          ap length whole
          ∙ sym (c2 ∙ omega arith)
          ∙ as_expected total artifact.stored_size_bytes _ fits;
      stored_digest =
          ap (λ t. hex_digest (streams.sha256 t)) (sym is)
          ∙ (text_eq_iff _ _).0 (as_equal (not (total == artifact.stored_size_bytes)) _ fits);
    }
