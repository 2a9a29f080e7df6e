-- ===== src/Uploads/Session.antt =====
-- `get_or_create_session` (crates/patwari-server/src/ingestion.rs).
use mathlib.Core.Option
use patwari.Prelude.{
  Bool, List, Text, [], any, database_error, if◌then◌else◌, not, not_found, ok_or, reject_if,
  text_eq, ◌&&◌, ◌∷◌,
}
use patwari.Contract.{SessionInput}
use patwari.Uploads.Reuse.{Creation}
use patwari.Uploads.World.{
  Database, Handler, SessionRow, find, gets, lift, modify_database, ◌>>=◌, ◌>>◌,
}

abbrev pub set_sessions : List SessionRow → Database → Database
set_sessions sessions database = record {
  clients = database.clients;
  sessions = sessions;
  uploads = database.uploads;
  upload_artifacts = database.upload_artifacts;
  upload_chunks = database.upload_chunks;
  manifests = database.manifests;
  upload_audits = database.upload_audits;
}

abbrev pub is_session : Text → SessionInput → SessionRow → Bool
is_session owner session row =
    text_eq row.owner_namespace owner
    && text_eq row.source_agent session.source_agent
    && text_eq row.source_session_id session.source_session_id

-- `ON CONFLICT(owner_namespace, source_agent, source_session_id) DO UPDATE SET updated_at`
unfoldable pub upsert_session : SessionRow → List SessionRow → List SessionRow
upsert_session row [] = row ∷ []
upsert_session row (s ∷ rest) =
    let others = upsert_session row rest in
    if text_eq s.owner_namespace row.owner_namespace
      && text_eq s.source_agent row.source_agent
      && text_eq s.source_session_id row.source_session_id
    then record {
      id = s.id;
      owner_namespace = s.owner_namespace;
      source_agent = s.source_agent;
      source_session_id = s.source_session_id;
      updated_at = row.updated_at;
    }
      ∷ rest
    else s ∷ others

-- `clients` holds the id and the owner of each registered client.
unfoldable pub get_or_create_session : Creation → Text → SessionInput → Handler Text
unfolding upsert_session
get_or_create_session creation client_id session =
    gets (λ w.
      any (λ c. text_eq c.0 client_id && text_eq c.1 creation.owner_namespace) w.database.clients)
    >>= λ exists.
        lift
          (reject_if (not exists) (not_found "client_not_found" "client must be registered first"))
        >> modify_database (λ d.
          set_sessions
            (upsert_session
              (record {
                id = creation.session_id;
                owner_namespace = creation.owner_namespace;
                source_agent = session.source_agent;
                source_session_id = session.source_session_id;
                updated_at = creation.now;
              })
              d.sessions)
            d)
        >> gets (λ w. find (is_session creation.owner_namespace session) w.database.sessions)
        >>= λ row. lift (ok_or (Option.map (λ r. r.id) row) database_error)
