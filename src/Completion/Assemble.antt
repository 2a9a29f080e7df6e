-- ===== src/Completion/Assemble.antt =====
-- `assemble_artifact` and `verify_artifact`: the chunk files of an artifact put together, and
-- checked against the manifest (crates/patwari-server/src/ingestion.rs).
use patwari.Prelude.{
  ◌>>=◌, ◌>>◌, ApiError, ApiResult, Bool, List, String, Text, [], checked_add, err, false,
  if◌then◌else◌, internal, invalid, length, ltb, not, ok, ok_or, reject_if, storage_error, text_eq,
  to_u64, ℕ, ℤ, ◌&&◌, ◌++◌, ◌==◌, ◌||◌, ◌∷◌,
}
use patwari.Chunks.{UploadArtifactRow}
use patwari.Completion.Layout.{accepted_chunk_layout}
use patwari.Completion.{Reader, Streams, unprocessable}
use patwari.Contract.{Artifact, Compression, identity, zstd}
use patwari.Digest.{digest_storage_value, hex_digest}
use patwari.Uploads.Status.{to_u32}
use patwari.Uploads.World.{ChunkFile, ChunkRow, World, find}

abbrev pub chunk_checksum_error : ApiError
chunk_checksum_error =
    unprocessable "chunk_checksum_mismatch"
      "accepted chunk bytes no longer match their checksum or length"

abbrev pub chunk_missing : ApiError
chunk_missing = unprocessable "chunk_missing" "an accepted chunk is no longer available"

abbrev pub stored_mismatch : String → ApiError
stored_mismatch m = unprocessable "artifact_stored_checksum_mismatch" m

-- The loop variables of `assemble_artifact`: what the hashers and the writer got, and the sizes.
pub record Copied : Type 0 where
  pub chunk_size : ℕ
  pub chunk_bytes : Text
  pub artifact_size : ℕ
  pub artifact_bytes : Text

-- The loop over the reads of a chunk file.
unfoldable pub copy_blocks : ℕ → ℕ → List Text → Copied → ApiResult Copied
unfolding checked_add
copy_blocks expected_length stored_size [] c = ok c
copy_blocks expected_length stored_size (block ∷ blocks) c =
    ok_or (checked_add c.chunk_size (length block)) (invalid "chunk size is invalid")
    >>= λ chunk_size.
        reject_if (ltb expected_length chunk_size) chunk_checksum_error
        >> ok_or (checked_add c.artifact_size (length block)) (invalid "artifact size is invalid")
        >>= λ artifact_size.
            reject_if (ltb stored_size artifact_size)
              (stored_mismatch "assembled artifact exceeds its declared stored size")
            >> copy_blocks expected_length stored_size blocks (record {
              chunk_size = chunk_size;
              chunk_bytes = c.chunk_bytes ++ block;
              artifact_size = artifact_size;
              artifact_bytes = c.artifact_bytes ++ block;
            })

abbrev pub is_chunk_file : Text → ℕ → ℕ → ChunkFile → Bool
is_chunk_file upload_id artifact chunk f =
    text_eq f.upload_id upload_id && f.artifact_index == artifact && f.chunk_index == chunk

module _ (streams : Streams) where
  -- The loop over the chunks of an artifact, from what is written so far.
  unfoldable pub copy_chunks :
      Text → ℕ → ℕ → List ChunkFile → List ChunkRow → ℕ → Text → ApiResult (ℕ × Text)
  unfolding copy_blocks hex_digest
  copy_chunks upload_id artifact_index stored_size files [] size written = ok (size, written)
  copy_chunks upload_id artifact_index stored_size files (chunk ∷ chunks) size written =
      ok_or (to_u64 chunk.byte_length) internal >>= λ expected_length.
      ok_or (to_u64 chunk.chunk_index) internal >>= λ chunk_index.
      ok_or (find (is_chunk_file upload_id artifact_index chunk_index) files) chunk_missing
      >>= λ file.
          copy_blocks expected_length stored_size (streams.read_file file.content) (record {
            chunk_size = 0;
            chunk_bytes = [];
            artifact_size = size;
            artifact_bytes = written;
          })
          >>= λ c.
              reject_if
                (not (c.chunk_size == expected_length)
                  || not (text_eq (hex_digest (streams.sha256 c.chunk_bytes)) chunk.sha256))
                chunk_checksum_error
              >> copy_chunks upload_id artifact_index stored_size files chunks c.artifact_size
                  c.artifact_bytes

  -- `assemble_artifact` after its destination is open: the content that it writes.
  unfoldable pub assemble_artifact :
      Text → ℤ → UploadArtifactRow → Artifact → World → ApiResult Text
  unfolding accepted_chunk_layout copy_chunks to_u32 hex_digest digest_storage_value
  assemble_artifact upload_id chunk_size row artifact world =
      accepted_chunk_layout upload_id row chunk_size world.database >>= λ chunks.
      ok_or (to_u32 row.artifact_index) internal >>= λ artifact_index.
      copy_chunks upload_id artifact_index artifact.stored_size_bytes world.chunk_files chunks 0 []
      >>= λ c.
          reject_if
            (not (c.0 == artifact.stored_size_bytes)
              || not (
                  text_eq (hex_digest (streams.sha256 c.1))
                    (digest_storage_value artifact.stored_sha256)))
            (stored_mismatch
              "assembled artifact stored size or checksum does not match the manifest")
          >> ok c.1

  -- The loop of `hash_reader`, from what is hashed so far.
  unfoldable pub hash_blocks : List Text → Bool → ℕ → ApiError → ℕ → Text → ApiResult (ℕ × Text)
  unfolding checked_add hex_digest
  hash_blocks [] fails maximum_size io_error total hashed =
      if fails then err io_error else ok (total, hex_digest (streams.sha256 hashed))
  hash_blocks (block ∷ blocks) fails maximum_size io_error total hashed =
      ok_or (checked_add total (length block)) (invalid "artifact size is invalid") >>= λ sum.
      reject_if (ltb maximum_size sum) (invalid "artifact size exceeds its declared bound")
      >> hash_blocks blocks fails maximum_size io_error sum (hashed ++ block)

  unfoldable pub hash_reader : Reader → ℕ → ApiError → ApiResult (ℕ × Text)
  unfolding hash_blocks
  hash_reader reader maximum_size io_error =
      hash_blocks reader.blocks reader.fails maximum_size io_error 0 []

  abbrev pub file_reader : Text → Reader
  file_reader content = record { blocks = streams.read_file content; fails = false }

  -- The reader of the original content, with the error of its reads.
  unfoldable pub original_reader : Compression → Text → ApiResult (Reader × ApiError)
  original_reader identity content = ok (file_reader content, storage_error)
  original_reader zstd content =
      ok_or (streams.zstd_decoder content) (invalid "artifact is not a valid zstd stream")
      >>= λ reader. ok (reader, invalid "artifact zstd stream is corrupt or truncated")

  -- `verify_artifact_blocking`, on the content of the file
  unfoldable pub verify_artifact : Text → Artifact → ApiResult (Unit {0})
  unfolding hash_reader original_reader digest_storage_value
  verify_artifact content artifact =
      hash_reader (file_reader content) artifact.stored_size_bytes storage_error >>= λ stored.
      reject_if
        (not (stored.0 == artifact.stored_size_bytes)
          || not (text_eq stored.1 (digest_storage_value artifact.stored_sha256)))
        (stored_mismatch "artifact stored size or checksum does not match the manifest")
      >> original_reader artifact.compression content
      >>= λ original. hash_reader original.0 artifact.original_size_bytes original.1 >>= λ hashed.
          reject_if
            (not (hashed.0 == artifact.original_size_bytes)
              || not (text_eq hashed.1 (digest_storage_value artifact.original_sha256)))
            (unprocessable "artifact_original_checksum_mismatch"
              "artifact original size or checksum does not match the manifest")
