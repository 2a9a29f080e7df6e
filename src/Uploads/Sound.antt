-- ===== src/Uploads/Sound.antt =====
-- The state that the upload handlers keep (crates/patwari-server/src/ingestion.rs): what the
-- constraints of the tables say, and that a status `artifact_uploaded` is never ahead of the chunks.
pub mod Accepted
pub mod Ending
mod Rows
pub mod Arrival
pub mod Creation
pub mod Persist
pub mod Reachable
use patwari.Prelude.{
  All, All-map, List, Text, [], any, arith, filter, not, pos, refl, subst, sym, text_eq,
  text_eq_iff, true, ℕ, ℤ, ◌∷◌, ◌≡◌, ◌≢◌,
}
use patwari.Uploads.Invariant.{AreColumns, HasCount, HasEveryChunk, UniqueChunks}
use patwari.Uploads.Record.{get_upload_artifacts, has_chunk_key}
use patwari.Uploads.World.{ActiveUploadRow, ArtifactRow, ChunkRow, Database, artifact_uploaded}

-- An upload that says `artifact_uploaded` has every chunk of its artifacts; assumed is that their
-- counts are not negative. The status may stay `created` although all of the chunks are there.
abbrev pub StatusHolds : Database → ActiveUploadRow → Type 0
StatusHolds d u =
    u.status ≡ artifact_uploaded
    → All HasCount (get_upload_artifacts u.id d)
    → All (HasEveryChunk u.id d.upload_chunks) (get_upload_artifacts u.id d)

pub record IsSound (d : Database) : Type 0 where
  pub columns : AreColumns d.upload_chunks
  pub unique : UniqueChunks d.upload_chunks
  pub statuses : All (StatusHolds d) d.uploads

-- The status holds in a database with the same artifacts of the upload and no fewer chunks.
pub StatusHolds-grows :
    (d d' : Database) (u : ActiveUploadRow)
    → get_upload_artifacts u.id d ≡ get_upload_artifacts u.id d'
    → ((artifact : ℤ) (i : ℕ)
        → any (has_chunk_key u.id artifact (pos i)) d.upload_chunks ≡ true
        → any (has_chunk_key u.id artifact (pos i)) d'.upload_chunks ≡ true)
    → StatusHolds d u
    → StatusHolds d' u
StatusHolds-grows d d' u same more h s counts =
    All-map (HasEveryChunk u.id d.upload_chunks) (HasEveryChunk u.id d'.upload_chunks)
      (get_upload_artifacts u.id d') (λ a has i b. more a.artifact_index i (has i b))
      (subst (All (HasEveryChunk u.id d.upload_chunks)) same
        (h s (subst (All HasCount) (sym same) counts)))

module _ (id : Text) where
  pub any-key_filter :
      (artifact : ℤ) (i : ℕ) (other : Text) (rows : List ChunkRow)
      → id ≢ other
      → any (has_chunk_key id artifact (pos i)) rows ≡ true
      → any (has_chunk_key id artifact (pos i)) (filter (λ c. not (text_eq c.upload_id other)) rows)
        ≡ true
  any-key_filter artifact i other [] n h = h
  any-key_filter artifact i other (c ∷ rows) n h = ground (
    arith,
    any-key_filter artifact i other rows n,
    text_eq_iff c.upload_id id,
    text_eq_iff c.upload_id other,
  )

  pub get_upload_artifacts-filter :
      (other : Text) (rows : List ArtifactRow)
      → id ≢ other
      → filter (λ a. text_eq a.0 id) (filter (λ a. not (text_eq a.0 other)) rows)
        ≡ filter (λ a. text_eq a.0 id) rows
  get_upload_artifacts-filter other [] n = refl
  get_upload_artifacts-filter other (a ∷ rows) n =
      ground
        (arith, get_upload_artifacts-filter other rows n, text_eq_iff a.0 id, text_eq_iff a.0 other)
