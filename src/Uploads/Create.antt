-- ===== src/Uploads/Create.antt =====
-- `persist_upload` and what it inserts (crates/patwari-server/src/ingestion.rs).
use patwari.Prelude.{
  ApiResult, Bool, List, Text, [], database_error, err, false, if◌then◌else◌, internal, none, not,
  ok, pos, reject_if, some, text_eq, true, ℕ, ◌&&◌, ◌++◌, ◌+◌, ◌∷◌,
}
use patwari.Chunks.{to_sqlite_i64}
use patwari.Contract.{Artifact, Manifest}
use patwari.Digest.{compression_name, digest_storage_value}
use patwari.Uploads.Layout.{UploadLayout}
use patwari.Uploads.NewRow.{upload_row}
use patwari.Uploads.Reuse.{
  Creation, ManifestExternal, capture_id_conflict, ensure_terminal_capture_reuse_is_equivalent,
  sha256_hex,
}
use patwari.Uploads.Session.{get_or_create_session}
use patwari.Uploads.World.{
  ActiveUploadRow, ArtifactRow, Database, Handler, ManifestRow, find, gets, lift, modify_database,
  transaction, ◌>>=◌, ◌>>◌,
}
use patwari.Validation.Fields.{capture_id}

-- The row of `upload_artifacts` for one artifact.
unfoldable pub upload_artifact : Text → ℕ → Artifact → ℕ → ApiResult ArtifactRow
unfolding to_sqlite_i64 digest_storage_value compression_name
upload_artifact upload_id index artifact count = elim (to_sqlite_i64 artifact.original_size_bytes) [
  | err e ↦ err e
  | ok original ↦ elim (to_sqlite_i64 artifact.stored_size_bytes) [
    | err e ↦ err e
    | ok stored ↦ elim (to_sqlite_i64 count) [
      | err e ↦ err e
      | ok chunks ↦ ok (
        upload_id,
        record {
          artifact_index = pos index;
          logical_path = artifact.logical_path;
          media_type = artifact.media_type;
          original_size_bytes = original;
          original_sha256 = digest_storage_value artifact.original_sha256;
          stored_size_bytes = stored;
          stored_sha256 = digest_storage_value artifact.stored_sha256;
          compression = compression_name artifact.compression;
          chunk_count = chunks;
        },
      )
    ]
  ]
]

-- The artifacts zipped with their chunk counts, from an index on.
unfoldable pub upload_artifact_rows :
    Text → ℕ → List Artifact → List ℕ → ApiResult (List ArtifactRow)
unfolding upload_artifact
upload_artifact_rows upload_id index (a ∷ artifacts) (count ∷ counts) =
    elim (upload_artifact upload_id index a count) [
      | err e ↦ err e
      | ok row ↦ elim (upload_artifact_rows upload_id (index + 1) artifacts counts) [
        | err e ↦ err e
        | ok rows ↦ ok (row ∷ rows)
      ]
    ]
upload_artifact_rows upload_id index _ _ = ok []

abbrev pub add_upload : ActiveUploadRow → ManifestRow → List ArtifactRow → Database → Database
add_upload upload manifest artifacts database = record {
  clients = database.clients;
  sessions = database.sessions;
  uploads = database.uploads ++ (upload ∷ []);
  upload_artifacts = database.upload_artifacts ++ artifacts;
  upload_chunks = database.upload_chunks;
  manifests = database.manifests ++ (manifest ∷ []);
  upload_audits = database.upload_audits;
}

abbrev pub owns_capture : Text → Text → Text → ActiveUploadRow → Bool
owns_capture owner client_id capture_id u =
    text_eq u.owner_namespace owner
    && text_eq u.client_id client_id
    && text_eq u.capture_id capture_id

module _ (ext : ManifestExternal) where
  unfoldable pub legacy_manifest_equivalent : Text → Text → Database → ApiResult Bool
  unfolding sha256_hex text_eq
  legacy_manifest_equivalent upload_id expected database =
      elim (find (λ m. text_eq m.upload_id upload_id) database.manifests) [
        | none ↦ ok false
        | some row ↦ elim (ext.from_str row.canonical_json) [
          | none ↦ err database_error
          | some manifest ↦ elim (ext.to_vec manifest) [
            | none ↦ err internal
            | some canonical ↦ ok (text_eq (sha256_hex ext canonical) expected)
          ]
        ]
      ]

  -- The id of the upload, and whether it was created: `CreatedUpload`.
  unfoldable pub persist_row :
      Creation → ActiveUploadRow → Manifest → Text → UploadLayout → Handler (Text × Bool)
  unfolding upload_artifact_rows legacy_manifest_equivalent
  persist_row creation row manifest canonical_json layout =
      gets (λ w.
        find (owns_capture row.owner_namespace row.client_id row.capture_id) w.database.uploads)
      >>= λ existing. elim existing [
        | none ↦
            lift (upload_artifact_rows row.id 0 manifest.artifacts layout.chunk_counts) >>= λ rows.
            modify_database (
              add_upload row
                (record {
                  id = creation.manifest_id;
                  upload_id = row.id;
                  canonical_json = canonical_json;
                  sha256 = row.manifest_sha256;
                  created_at = creation.now;
                })
                rows)
            >> lift (ok (row.id, true))
        | some old ↦
            gets (λ w.
              if text_eq old.manifest_sha256 row.manifest_sha256
              then ok true
              else legacy_manifest_equivalent old.id row.manifest_sha256 w.database)
            >>= λ compared. lift compared >>= λ equivalent.
                lift (reject_if (not equivalent) capture_id_conflict) >> lift (ok (old.id, false))
      ]

  unfoldable pub persist_upload :
      Creation → Text → Text → Manifest → Text → Text → UploadLayout → Handler (Text × Bool)
  unfolding get_or_create_session ensure_terminal_capture_reuse_is_equivalent upload_row persist_row
  persist_upload creation client_id capture_id manifest canonical_json manifest_sha256 layout =
      transaction (
        get_or_create_session creation client_id manifest.session >>= λ session_id.
        ensure_terminal_capture_reuse_is_equivalent ext creation.owner_namespace client_id
          capture_id manifest manifest_sha256
        >> lift
            (upload_row creation session_id client_id capture_id manifest_sha256 manifest layout)
        >>= λ row. persist_row creation row manifest canonical_json layout)
