-- ===== src/Uploads/World.antt =====
-- What the upload handlers of crates/patwari-server/src/ingestion.rs read and change: the tables
-- of the database, and the chunk files.
use patwari.Prelude.{
  ApiResult, Bool, List, Option, String, Text, [], err, false, if◌then◌else◌, none, ok, some, true,
  ℕ, ℤ, ◌∷◌,
}
use patwari.Chunks.{UploadArtifactRow}

-- The values that the CHECK of `uploads.status` allows.
pub data UploadState : Type 0 where
  created artifact_uploaded completed : UploadState

abbrev pub state_eq : UploadState → UploadState → Bool
state_eq UploadState.created UploadState.created = true
state_eq UploadState.artifact_uploaded UploadState.artifact_uploaded = true
state_eq UploadState.completed UploadState.completed = true
state_eq _ _ = false

pub record ActiveUploadRow : Type 0 where
  pub id : Text
  pub owner_namespace : Text
  pub session_id : Text
  pub client_id : Text
  pub capture_id : Text
  pub manifest_sha256 : Text
  pub status : UploadState
  pub snapshot_id : Option Text
  pub created_at : Text
  pub completed_at : Option Text
  pub chunk_size_bytes : ℤ
  pub chunk_count : ℤ
  pub declared_stored_size_bytes : ℤ
  pub declared_original_size_bytes : ℤ
  pub expires_at : Text
  pub artifact_count : ℤ
  pub total_stored_size_bytes : ℤ
  pub total_original_size_bytes : ℤ

-- A row of `upload_chunks`.
pub record ChunkRow : Type 0 where
  pub upload_id : Text
  pub artifact_index : ℤ
  pub chunk_index : ℤ
  pub byte_length : ℤ
  pub sha256 : Text
  pub accepted_at : Text

pub record ManifestRow : Type 0 where
  pub id : Text
  pub upload_id : Text
  pub canonical_json : Text
  pub sha256 : Text
  pub created_at : Text

pub data TerminalReason : Type 0 where
  abandoned expired : TerminalReason

pub record AuditRow : Type 0 where
  pub upload_id : Text
  pub owner_namespace : Text
  pub client_id : Text
  pub capture_id : Text
  pub session_id : Text
  pub declared_original_size_bytes : ℤ
  pub declared_stored_size_bytes : ℤ
  pub chunk_size_bytes : ℤ
  pub chunk_count : ℤ
  pub created_at : Text
  pub terminal_at : Text
  pub terminal_reason : TerminalReason
  pub error_code : String
  pub artifact_count : ℤ
  pub total_original_size_bytes : ℤ
  pub total_stored_size_bytes : ℤ
  pub manifest_sha256 : Option Text

-- A row of `upload_artifacts` with the upload it belongs to.
abbrev pub ArtifactRow : Type 0
ArtifactRow = Text × UploadArtifactRow

pub record SessionRow : Type 0 where
  pub id : Text
  pub owner_namespace : Text
  pub source_agent : Text
  pub source_session_id : Text
  pub updated_at : Text

pub record Database : Type 0 where
  pub clients : List (Text × Text)
  pub sessions : List SessionRow
  pub uploads : List ActiveUploadRow
  pub upload_artifacts : List ArtifactRow
  pub upload_chunks : List ChunkRow
  pub manifests : List ManifestRow
  pub upload_audits : List AuditRow

-- The file of a chunk: its upload, artifact and chunk index, and its bytes.
pub record ChunkFile : Type 0 where
  pub upload_id : Text
  pub artifact_index : ℕ
  pub chunk_index : ℕ
  pub content : Text

pub record World : Type 0 where
  pub database : Database
  pub chunk_files : List ChunkFile

-- What third-party code contributes: RFC 3339 times, the text of a UUID (`Uuid::parse_str` and
-- `to_string`), the text of a header value, and SHA-256.
pub record UploadExternal : Type 1 where
  pub Time : Type 0
  pub parse_time : Text → Option Time
  pub format_time : Time → Option Text
  pub time_leb : Time → Time → Bool
  pub parse_uuid : Text → Option Text
  pub to_str : Text → Option Text
  pub sha256 : Text → Text

-- A handler: what it changed stays changed when it fails, except within a transaction.
abbrev pub Handler {ℓ} : Type ℓ → Type ℓ
Handler A = World → ApiResult A × World

abbrev pub after {ℓ κ} :
    {A : Type ℓ} {B : Type κ} → ApiResult A × World → (A → Handler B) → ApiResult B × World
after (ok a, world) f = f a world
after (err e, world) f = (err e, world)

infixr 5 ◌>>=◌ ◌>>◌
unfoldable pub ◌>>=◌ {ℓ κ} : {A : Type ℓ} {B : Type κ} → Handler A → (A → Handler B) → Handler B
◌>>=◌ m f world = after (m world) f

abbrev pub ◌>>◌ {ℓ} : {B : Type ℓ} → Handler (Unit {0}) → Handler B → Handler B
m >> k = m >>= λ _. k

unfoldable pub lift {ℓ} : {A : Type ℓ} → ApiResult A → Handler A
lift r world = (r, world)

unfoldable pub gets {ℓ} : {A : Type ℓ} → (World → A) → Handler A
gets f world = (ok (f world), world)

abbrev pub set_database : Database → World → World
set_database database world = record { database = database; chunk_files = world.chunk_files }

unfoldable pub modify_database : (Database → Database) → Handler (Unit {0})
modify_database f world = (ok tt, set_database (f world.database) world)

unfoldable pub modify_files : (List ChunkFile → List ChunkFile) → Handler (Unit {0})
modify_files f world =
    (ok tt, record { database = world.database; chunk_files = f world.chunk_files })

-- `begin` to `commit`: an error on the way rolls the database back.
abbrev pub rolled_back {ℓ} : {A : Type ℓ} → World → ApiResult A × World → ApiResult A × World
rolled_back before (ok a, world) = (ok a, world)
rolled_back before (err e, world) = (err e, set_database before.database world)

unfoldable pub transaction {ℓ} : {A : Type ℓ} → Handler A → Handler A
transaction m world = rolled_back world (m world)

-- The first row that a test accepts: a SELECT by a unique key.
abbrev pub find {ℓ} : {A : Type ℓ} → (A → Bool) → List A → Option A
find p [] = none
find p (x ∷ xs) = if p x then some x else find p xs
