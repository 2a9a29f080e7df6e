-- ===== src/Uploads/Record.antt =====
-- The rows of the chunks, and the status that follows from them: `persist_chunk_record`,
-- `upload_is_complete` and `refresh_upload_status` (crates/patwari-server/src/ingestion.rs).
use patwari.Prelude.{
  ApiError, ApiResult, Bool, List, Option, Text, [], conflict, database_error, err, false, filter,
  if◌then◌else◌, int_eq, int_ltb, length, map, negsuc, none, not, ok, pos, reject_if, some, suc,
  text_eq, true, zero, ℕ, ℤ, ◌&&◌, ◌++◌, ◌||◌, ◌∷◌,
}
use patwari.Chunks.{UploadArtifactRow, chunk_count, to_sqlite_i64}
use patwari.Digest.{digest_storage_value}
use patwari.Uploads.Terminal.{get_active_upload}
use patwari.Uploads.World.{
  ActiveUploadRow, ArtifactRow, ChunkRow, Database, Handler, UploadState, artifact_uploaded,
  completed, created, find, gets, lift, modify_database, state_eq, transaction, ◌>>=◌, ◌>>◌,
}

abbrev pub chunk_conflict : ApiError
chunk_conflict =
    conflict "chunk_conflict"
      "this chunk index was already accepted with a different length or checksum"

-- A row's key, `(upload_id, artifact_index, chunk_index)`.
abbrev pub has_chunk_key : Text → ℤ → ℤ → ChunkRow → Bool
has_chunk_key id artifact chunk row =
    text_eq row.upload_id id && int_eq row.artifact_index artifact && int_eq row.chunk_index chunk

unfoldable pub get_chunk : Text → ℕ → ℤ → Database → Option ChunkRow
get_chunk id artifact chunk database =
    find (has_chunk_key id (pos artifact) chunk) database.upload_chunks

unfoldable pub get_upload_artifact : Text → ℕ → Database → Option ArtifactRow
get_upload_artifact id artifact database =
    find (λ a. text_eq a.0 id && int_eq a.1.artifact_index (pos artifact)) database.upload_artifacts

unfoldable pub get_upload_artifacts : Text → Database → List UploadArtifactRow
get_upload_artifacts id database =
    map (λ a. a.1) (filter (λ a. text_eq a.0 id) database.upload_artifacts)

-- Whether a row that was accepted before differs from a request.
abbrev pub differs : ChunkRow → ℤ → Text → Bool
differs row byte_length sha256 =
    not (int_eq row.byte_length byte_length) || not (text_eq row.sha256 sha256)

abbrev pub set_chunks : List ChunkRow → Database → Database
set_chunks chunks database = record {
  clients = database.clients;
  sessions = database.sessions;
  uploads = database.uploads;
  upload_artifacts = database.upload_artifacts;
  upload_chunks = chunks;
  manifests = database.manifests;
  upload_audits = database.upload_audits;
}

abbrev pub set_uploads : List ActiveUploadRow → Database → Database
set_uploads uploads database = record {
  clients = database.clients;
  sessions = database.sessions;
  uploads = uploads;
  upload_artifacts = database.upload_artifacts;
  upload_chunks = database.upload_chunks;
  manifests = database.manifests;
  upload_audits = database.upload_audits;
}

abbrev pub accepts_chunks : Option ActiveUploadRow → Bool
accepts_chunks none = false
accepts_chunks (some row) = not (state_eq row.status completed)

-- `INSERT .. ON CONFLICT DO NOTHING`, and the comparison with the row that is in the way.
unfoldable pub insert_chunk : ChunkRow → Handler (Unit {0})
insert_chunk row world =
    elim (find (has_chunk_key row.upload_id row.artifact_index row.chunk_index)
      world.database.upload_chunks) [
        | none ↦ modify_database (λ d. set_chunks (d.upload_chunks ++ (row ∷ [])) d) world
        | some existing ↦
            (reject_if (differs existing row.byte_length row.sha256) chunk_conflict, world)
      ]

unfoldable pub persist_chunk_record : ActiveUploadRow → ℕ → ℕ → ℕ → Text → Text → Handler (Unit {0})
unfolding to_sqlite_i64 digest_storage_value get_active_upload insert_chunk
persist_chunk_record upload artifact_index chunk_index byte_length sha256 accepted_at =
    transaction (
      gets (λ w. get_active_upload upload.id w.database) >>= λ current.
      lift (
        reject_if (not (accepts_chunks current))
          (conflict "upload_state_conflict" "upload state changed while the chunk was submitted"))
      >> lift (to_sqlite_i64 chunk_index)
      >>= λ chunk. lift (to_sqlite_i64 byte_length) >>= λ size. insert_chunk (record {
        upload_id = upload.id;
        artifact_index = pos artifact_index;
        chunk_index = chunk;
        byte_length = size;
        sha256 = digest_storage_value sha256;
        accepted_at = accepted_at;
      }))

-- COUNT(*), MIN and MAX of the chunk indexes.
abbrev pub count_indexes : List ℤ → ℤ
count_indexes l = pos (length l)

unfoldable pub min_index : List ℤ → Option ℤ
min_index [] = none
min_index (i ∷ is) = elim (min_index is) [
  | none ↦ some i
  | some j ↦ some (if int_ltb j i then j else i)
]

unfoldable pub max_index : List ℤ → Option ℤ
max_index [] = none
max_index (i ∷ is) = elim (max_index is) [
  | none ↦ some i
  | some j ↦ some (if int_ltb i j then j else i)
]

unfoldable pub chunk_indexes : Text → ℤ → List ChunkRow → List ℤ
chunk_indexes id artifact chunks =
    map (λ c. c.chunk_index)
      (filter (λ c. text_eq c.upload_id id && int_eq c.artifact_index artifact) chunks)

-- `checked_sub(1)` on an i64 column whose CHECK keeps it from being negative.
abbrev pub expected_last : ℤ → Option ℤ
expected_last (pos zero) = some (negsuc 0)
expected_last (pos (suc n)) = some (pos n)
expected_last (negsuc n) = some (negsuc (suc n))

abbrev pub option_int_eq : Option ℤ → Option ℤ → Bool
option_int_eq none none = true
option_int_eq (some a) (some b) = int_eq a b
option_int_eq _ _ = false

-- Whether an artifact's chunks have the wrong count, minimum or maximum.
unfoldable pub lacks_chunks : ℤ → List ℤ → Bool
unfolding min_index max_index
lacks_chunks chunk_count indexes =
    not (int_eq (count_indexes indexes) chunk_count)
    || (int_eq chunk_count (pos 0)
        && (not (option_int_eq (min_index indexes) none)
            || not (option_int_eq (max_index indexes) none)))
    || (int_ltb (pos 0) chunk_count
        && (not (option_int_eq (min_index indexes) (some (pos 0)))
            || not (option_int_eq (max_index indexes) (expected_last chunk_count))))

unfoldable pub artifacts_complete : Text → List ChunkRow → List UploadArtifactRow → Bool
unfolding lacks_chunks chunk_indexes
artifacts_complete id chunks [] = true
artifacts_complete id chunks (a ∷ rest) =
    not (lacks_chunks a.chunk_count (chunk_indexes id a.artifact_index chunks))
    && artifacts_complete id chunks rest

unfoldable pub upload_is_complete : Text → Database → ApiResult Bool
unfolding artifacts_complete get_upload_artifacts
upload_is_complete id database = elim (get_upload_artifacts id database) [
  | [] ↦ err database_error
  | a ∷ rest ↦ ok (artifacts_complete id database.upload_chunks (a ∷ rest))
]

abbrev pub set_status : UploadState → ActiveUploadRow → ActiveUploadRow
set_status status row = record {
  id = row.id;
  owner_namespace = row.owner_namespace;
  session_id = row.session_id;
  client_id = row.client_id;
  capture_id = row.capture_id;
  manifest_sha256 = row.manifest_sha256;
  status = status;
  snapshot_id = row.snapshot_id;
  created_at = row.created_at;
  completed_at = row.completed_at;
  chunk_size_bytes = row.chunk_size_bytes;
  chunk_count = row.chunk_count;
  declared_stored_size_bytes = row.declared_stored_size_bytes;
  declared_original_size_bytes = row.declared_original_size_bytes;
  expires_at = row.expires_at;
  artifact_count = row.artifact_count;
  total_stored_size_bytes = row.total_stored_size_bytes;
  total_original_size_bytes = row.total_original_size_bytes;
}

-- `UPDATE uploads SET status .. WHERE id .. AND status IN ('created', 'artifact_uploaded')`
unfoldable pub update_status : Text → UploadState → List ActiveUploadRow → List ActiveUploadRow
update_status id status [] = []
update_status id status (u ∷ rest) =
    (if text_eq u.id id && not (state_eq u.status completed) then set_status status u else u)
    ∷ update_status id status rest

unfoldable pub refresh_upload_status : Text → Handler (Unit {0})
unfolding upload_is_complete update_status
refresh_upload_status id = gets (λ w. upload_is_complete id w.database) >>= λ result.
    lift result >>= λ complete. modify_database (λ d.
      set_uploads (update_status id (if complete then artifact_uploaded else created) d.uploads) d)
