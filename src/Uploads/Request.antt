-- ===== src/Uploads/Request.antt =====
-- A chunk as a client sends it: its headers, its body and its file
-- (crates/patwari-server/src/ingestion.rs). The file operations succeed, and the temporary file of
-- a chunk, which every path removes, is left out.
use patwari.Prelude.{
  ApiError, ApiResult, List, Option, Text, [], bytes, checked_add, conflict, err, if◌then◌else◌,
  invalid, length, ltb, none, not, ok, reject_if, some, storage_error, text_eq, u32_bound, ℕ, ◌&&◌,
  ◌++◌, ◌==◌, ◌||◌, ◌∷◌,
}
use patwari.Config.{parse_u64}
use patwari.Digest.{digest_storage_value, hex_digest}
use patwari.Uploads.World.{
  ChunkFile, Handler, UploadExternal, World, find, lift, modify_files, ◌>>=◌,
}
use patwari.Validation.Fields.{validate_digest}

pub record ChunkRequest : Type 0 where
  pub byte_length : ℕ
  pub sha256 : Text

-- The headers that the handler reads, as bytes.
pub record Headers : Type 0 where
  pub content_type : Option Text
  pub chunk_sha256 : Option Text
  pub chunk_length : Option Text

-- A frame of the request body: its data, trailers, or a failure of the connection.
pub data Frame : Type 0 where
  payload : Text → Frame
  trailers failed : Frame

-- `str::parse::<u32>`
unfoldable pub parse_artifact_index : Text → ApiResult ℕ
unfolding parse_u64
parse_artifact_index value = elim (parse_u64 value) [
  | none ↦ err (invalid "artifact index is not a non-negative integer")
  | some n ↦
      if ltb n u32_bound then ok n else err (invalid "artifact index is not a non-negative integer")
]

module _ (ext : UploadExternal) where
  abbrev bad_content_type : ApiError
  bad_content_type = invalid "artifact upload requires application/octet-stream content type"

  unfoldable pub validate_octet_stream : Headers → ApiResult (Unit {0})
  unfolding text_eq
  validate_octet_stream headers = elim headers.content_type [
    | none ↦ err bad_content_type
    | some value ↦ elim (ext.to_str value) [
      | none ↦ err bad_content_type
      | some text ↦
          reject_if (not (text_eq text (bytes "application/octet-stream"))) bad_content_type
    ]
  ]

  unfoldable pub optional_header : Option Text → ApiResult (Option Text)
  optional_header none = ok none
  optional_header (some value) = elim (ext.to_str value) [
    | none ↦ err (invalid "chunk headers must be valid text")
    | some text ↦ ok (some text)
  ]

  -- The two headers, once each is text.
  unfoldable pub chunk_request : Option Text → Option Text → ApiResult (Option ChunkRequest)
  unfolding validate_digest parse_u64
  chunk_request none none = ok none
  chunk_request (some sha256) (some byte_length) = elim (validate_digest sha256) [
    | err e ↦ err e
    | ok _ ↦ elim (parse_u64 byte_length) [
      | none ↦ err (invalid "chunk length header must be a non-negative integer")
      | some n ↦ ok (some (record { byte_length = n; sha256 = sha256 }))
    ]
  ]
  chunk_request _ _ = err (invalid "chunk checksum and length headers must be supplied together")

  unfoldable pub parse_chunk_headers : Headers → ApiResult (Option ChunkRequest)
  unfolding optional_header chunk_request
  parse_chunk_headers headers = elim (optional_header headers.chunk_sha256) [
    | err e ↦ err e
    | ok sha256 ↦ elim (optional_header headers.chunk_length) [
      | err e ↦ err e
      | ok byte_length ↦ chunk_request sha256 byte_length
    ]
  ]

  -- `write_chunk_body` from the bytes that are already written on: the content of the file.
  unfoldable pub write_frames : List Frame → Text → ChunkRequest → ApiResult Text
  unfolding hex_digest digest_storage_value checked_add
  write_frames [] written expected =
      if not (length written == expected.byte_length)
        || not (text_eq (hex_digest (ext.sha256 written)) (digest_storage_value expected.sha256))
      then err (invalid "chunk body length or checksum does not match its headers")
      else ok written
  write_frames (failed ∷ frames) written expected =
      err (invalid "chunk request body could not be read")
  write_frames (trailers ∷ frames) written expected = write_frames frames written expected
  write_frames (payload content ∷ frames) written expected =
      let rest = write_frames frames (written ++ content) expected in
      elim (checked_add (length written) (length content)) [
        | none ↦ err (invalid "chunk size is invalid")
        | some size ↦
            if ltb expected.byte_length size
            then err (invalid "chunk body exceeds its declared negotiated length")
            else rest
      ]

  -- `hash_reader` and the comparison of `verify_stored_file`, on the content of a file.
  unfoldable pub verify_content : Text → ChunkRequest → ApiResult (Unit {0})
  unfolding hex_digest digest_storage_value
  verify_content content expected =
      if ltb expected.byte_length (length content)
      then err (invalid "artifact size exceeds its declared bound")
      else if length content == expected.byte_length
          && text_eq (hex_digest (ext.sha256 content)) (digest_storage_value expected.sha256)
      then ok tt
      else err storage_error

  abbrev pub chunk_file : Text → ℕ → ℕ → World → Option ChunkFile
  chunk_file id artifact chunk world =
      find (λ f. text_eq f.upload_id id && f.artifact_index == artifact && f.chunk_index == chunk)
        world.chunk_files

  unfoldable pub verify_stored_file : Text → ℕ → ℕ → ChunkRequest → Handler (Unit {0})
  unfolding verify_content
  verify_stored_file id artifact chunk expected world = elim (chunk_file id artifact chunk world) [
    | none ↦ (err storage_error, world)
    | some file ↦ (verify_content file.content expected, world)
  ]

  -- A file that is there already is compared with the request, and kept.
  unfoldable pub link_chunk_file : Text → ℕ → ℕ → Text → ChunkRequest → Handler (Unit {0})
  unfolding verify_content
  link_chunk_file id artifact chunk content expected world =
      elim (chunk_file id artifact chunk world) [
        | none ↦
            modify_files
              (λ files.
                record {
                  upload_id = id;
                  artifact_index = artifact;
                  chunk_index = chunk;
                  content = content;
                }
                ∷ files)
              world
        | some file ↦ elim (verify_content file.content expected) [
          | ok _ ↦ (ok tt, world)
          | err _ ↦ (
            err (
                conflict "chunk_conflict"
                  "this chunk index was already accepted with a different length or checksum"),
            world,
          )
        ]
      ]

  unfoldable pub store_chunk_file : Text → ℕ → ℕ → List Frame → ChunkRequest → Handler (Unit {0})
  unfolding write_frames link_chunk_file
  store_chunk_file id artifact chunk body expected =
      lift (write_frames body [] expected) >>= λ content.
      link_chunk_file id artifact chunk content expected
