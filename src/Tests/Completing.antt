-- ===== src/Tests/Completing.antt =====
-- The completion of the upload of Tests/Uploading (crates/patwari-server/src/ingestion.rs).
use patwari.Prelude.{
  List, Text, [], append-nil, arith, bytes, checked_mul, checked_sub, err, false, map, none, ok,
  pos, refl, some, suc, text_eq, zero, ℕ, ◌↔◌, ◌∷◌, ◌≡◌, ◌≢◌,
}
use patwari.Chunks.{UploadArtifactRow}
use patwari.Completion.Assemble.{chunk_missing, assemble_artifact, verify_artifact}
use patwari.Completion.Assembled.{IsAssembled, assemble_artifact-IsAssembled}
use patwari.Completion.Checks.{validate_upload_projection}
use patwari.Completion.Prepare.{AssembledFile, assembled_file, prepare_artifacts}
use patwari.Completion.Prepared.{prepare_artifacts-cleans}
use patwari.Completion.Projection.{validate_upload_projection-created}
use patwari.Completion.Verified.{IsVerified, verify_artifact_iff}
use patwari.Completion.{ReadsAll, Streams, join}
use patwari.Contract.{Artifact, Manifest, identity}
use patwari.Tests.Uploading.{layout, layout_fits, manifest, request, upload}
use patwari.Uploads.Create.{upload_artifact_rows}
use patwari.Uploads.NewRow.{upload_row}
use patwari.Uploads.Status.{to_u32}
use patwari.Uploads.World.{ArtifactRow, ChunkFile, ChunkRow, World}

-- SHA-256 gives 32 bytes; a file is read at once, and a zstd stream decodes to itself.
abbrev zeros : ℕ → Text
zeros zero = []
zeros (suc n) = 0 ∷ zeros n

abbrev zero_digest : Text
zero_digest = bytes "0000000000000000000000000000000000000000000000000000000000000000"

abbrev streams : Streams
streams = record {
  sha256 = λ t. zeros 32;
  read_file = λ t. t ∷ [];
  zstd_decoder = λ t. some (record { blocks = t ∷ []; fails = false });
}

streams-ReadsAll : ReadsAll streams
unfolding join
streams-ReadsAll t = append-nil t

-- The artifact in the digest that `streams` gives, and the row and the files of its chunks.
abbrev zero_artifact : Artifact
zero_artifact = record {
  logical_path = bytes "log.txt";
  media_type = none;
  original_size_bytes = 10;
  original_sha256 = zero_digest;
  stored_size_bytes = 10;
  stored_sha256 = zero_digest;
  compression = identity;
}

abbrev zero_row : UploadArtifactRow
zero_row = record {
  artifact_index = pos 0;
  logical_path = bytes "log.txt";
  media_type = none;
  original_size_bytes = pos 10;
  original_sha256 = zero_digest;
  stored_size_bytes = pos 10;
  stored_sha256 = zero_digest;
  compression = bytes "identity";
  chunk_count = pos 3;
}

abbrev chunk : ℕ → ℕ → ChunkRow
chunk i n = record {
  upload_id = bytes "u1";
  artifact_index = pos 0;
  chunk_index = pos i;
  byte_length = pos n;
  sha256 = zero_digest;
  accepted_at = bytes "now";
}

abbrev chunk_of : ℕ → Text → ChunkFile
chunk_of i content = record {
  upload_id = bytes "u1";
  artifact_index = 0;
  chunk_index = i;
  content = content;
}

-- The chunks arrived in another order.
abbrev arrived : World
arrived = record {
  database = record {
    clients = [];
    sessions = [];
    uploads = upload ∷ [];
    upload_artifacts = (bytes "u1", zero_row) ∷ [];
    upload_chunks = chunk 2 2 ∷ chunk 0 4 ∷ chunk 1 4 ∷ [];
    manifests = [];
    upload_audits = [];
  };
  chunk_files =
      chunk_of 1 (bytes "efgh") ∷ chunk_of 2 (bytes "ij") ∷ chunk_of 0 (bytes "abcd") ∷ [];
}

assembled :
    assemble_artifact streams (bytes "u1") (pos 4) zero_row zero_artifact arrived
    ≡ ok (bytes "abcdefghij")
unfolding assemble_artifact checked_mul checked_sub text_eq
assembled = refl

assemble_artifact-IsAssembled_example :
    IsAssembled streams
      (bytes "u1")
      (pos 4)
      zero_row
      zero_artifact
      arrived.chunk_files
      (bytes "abcdefghij")
assemble_artifact-IsAssembled_example =
    assemble_artifact-IsAssembled streams streams-ReadsAll (bytes "u1") (pos 4) zero_row
      zero_artifact arrived assembled

verify_artifact_iff_example :
    (verify_artifact streams (bytes "abcdefghij") zero_artifact ≡ ok tt)
    ↔ IsVerified streams (bytes "abcdefghij") zero_artifact
verify_artifact_iff_example =
    verify_artifact_iff streams streams-ReadsAll (bytes "abcdefghij") zero_artifact (omega arith)
      (omega arith)

abbrev rows : List ArtifactRow
rows =
    (
      bytes "u1",
      record {
        artifact_index = pos 0;
        logical_path = bytes "log.txt";
        media_type = none;
        original_size_bytes = pos 10;
        original_sha256 = bytes "aa";
        stored_size_bytes = pos 10;
        stored_sha256 = bytes "aa";
        compression = bytes "identity";
        chunk_count = pos 3;
      },
    )
    ∷ []

new_row :
    upload_row request (bytes "s1") (bytes "c1") (bytes "capture") (bytes "mm") manifest layout
    ≡ ok upload
unfolding upload_row
new_row = refl

new_rows : upload_artifact_rows upload.id 0 manifest.artifacts layout.chunk_counts ≡ ok rows
unfolding upload_artifact_rows
new_rows = refl

validate_upload_projection-created_example :
    validate_upload_projection manifest (map (λ r. r.1) rows) upload ≡ ok tt
validate_upload_projection-created_example =
    validate_upload_projection-created request (bytes "s1") (bytes "c1") (bytes "capture")
      (bytes "mm") manifest {layout = layout} {upload = upload} {rows = rows} layout_fits new_row
      new_rows

-- The file of the last chunk is gone; another upload's file stays.
abbrev other_file : List AssembledFile
other_file = assembled_file (bytes "u2") 0 [] ∷ []

abbrev without_file : World
without_file = record {
  database = arrived.database;
  chunk_files = chunk_of 1 (bytes "efgh") ∷ chunk_of 0 (bytes "abcd") ∷ [];
}

abbrev zero_manifest : Manifest
zero_manifest = record {
  schema_version = 1;
  session = manifest.session;
  capture = manifest.capture;
  artifacts = zero_artifact ∷ [];
}

-- What the copy has written when it stops.
abbrev begun : ℕ → Text
begun i = bytes "abcdefgh"

missing :
    (prepare_artifacts streams begun upload zero_manifest (zero_row ∷ []) without_file other_file).0
    ≡ err chunk_missing
unfolding prepare_artifacts checked_mul checked_sub text_eq
missing = refl

is_u32 : to_u32 (pos 0) ≢ none
unfolding to_u32
is_u32 e = ground (arith, e)

prepare_artifacts-cleans_example :
    (prepare_artifacts streams begun upload zero_manifest (zero_row ∷ []) without_file other_file).1
    ≡ other_file
unfolding text_eq
prepare_artifacts-cleans_example =
    prepare_artifacts-cleans streams begun upload zero_manifest (zero_row ∷ []) without_file
      other_file (is_u32, tt) (refl, tt) missing
