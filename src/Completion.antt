-- ===== src/Completion.antt =====
-- `complete_upload` (crates/patwari-server/src/ingestion.rs): an upload whose chunks have arrived
-- becomes a snapshot. Here: what it asks of the outside, and the streams that it reads.
pub mod Layout
pub mod Assemble
pub mod Copying
pub mod Assembled
pub mod Hashing
pub mod Verified
pub mod Checks
pub mod Prepare
pub mod Prepared
pub mod Cleanup
pub mod Store
pub mod Provenance
pub mod Blobs
pub mod Finalize
pub mod Commit
pub mod Frame
pub mod Recording
pub mod Recorded
pub mod Undone
pub mod Projection
use patwari.Prelude.{ApiError, Bool, List, Option, String, Text, [], ◌++◌, ◌∷◌, ◌≡◌}
use patwari.Uploads.Terminal.{error_code}

-- What the reads of a file or of a decoder deliver, in order, none of them empty, and whether a
-- read fails after them.
pub record Reader : Type 0 where
  pub blocks : List Text
  pub fails : Bool

-- The bytes that the reads deliver.
unfoldable pub join : List Text → Text
join [] = []
join (block ∷ blocks) = block ++ join blocks

-- SHA-256, how the reads of a file cut its content, and zstd: the decoder of a content, if it has
-- a header that one can be made for.
pub record Streams : Type 0 where
  pub sha256 : Text → Text
  pub read_file : Text → List Text
  pub zstd_decoder : Text → Option Reader

-- Reading a file to its end delivers its content.
abbrev pub ReadsAll : Streams → Type 0
ReadsAll streams = (content : Text) → join (streams.read_file content) ≡ content

-- `StatusCode::UNPROCESSABLE_ENTITY` with a code of its own
abbrev pub unprocessable : String → String → ApiError
unprocessable c m = record { status = 422; error_code = c; message = m }
