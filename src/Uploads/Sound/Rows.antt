-- ===== src/Uploads/Sound/Rows.antt =====
-- A chunk's row and the status that follows from it (crates/patwari-server/src/ingestion.rs).
use patwari.Prelude.{
  All, All-map, Bool, Bool-cases, List, Option-cases, Result-cases, Text, [], any, any-snoc, arith,
  conflict, false, if◌then◌else◌, inl, inr, int_eq-sym, none, not, ok, pos, refl, reject_if, subst,
  text_eq, text_eq-sym, text_eq_iff, true, ℕ, ℤ, ◌&&◌, ◌++◌, ◌∙◌, ◌∷◌, ◌≡◌, ◌≢◌,
}
use patwari.Chunks.{to_sqlite_i64}
use patwari.Completion.Provenance.{complete_rows, is_open}
use patwari.Digest.{digest_storage_value}
use patwari.Uploads.Invariant.{
  AreColumns, HasCount, HasEveryChunk, UniqueChunks, to_nat, upload_is_complete_iff,
}
use patwari.Uploads.Keeps.{Keeps, Keeps-gets, Keeps-lift}
use patwari.Uploads.Record.{
  accepts_chunks, get_upload_artifacts, has_chunk_key, insert_chunk, refresh_upload_status,
  set_chunks, set_uploads, update_status, upload_is_complete,
}
use patwari.Uploads.Sound.{IsSound, StatusHolds, StatusHolds-grows}
use patwari.Uploads.Terminal.{get_active_upload}
use patwari.Uploads.World.{
  ActiveUploadRow, ChunkRow, Database, UploadState, World, artifact_uploaded, completed, created,
  find, gets, lift, modify_database, state_eq, ◌>>=◌, ◌>>◌,
}

find-none : (p : ChunkRow → Bool) (rows : List ChunkRow) → find p rows ≡ none → any p rows ≡ false
find-none p [] h = refl
find-none p (c ∷ rows) h = ground (arith, find-none p rows)

key-sym :
    (a b : ChunkRow)
    → has_chunk_key a.upload_id a.artifact_index a.chunk_index b
      ≡ has_chunk_key b.upload_id b.artifact_index b.chunk_index a
key-sym a b = rw (text_eq-sym b.upload_id a.upload_id) (
    rw (int_eq-sym b.artifact_index a.artifact_index)
      (rw (int_eq-sym b.chunk_index a.chunk_index) refl))

append-UniqueChunks :
    (rows : List ChunkRow) (row : ChunkRow)
    → UniqueChunks rows
    → any (has_chunk_key row.upload_id row.artifact_index row.chunk_index) rows ≡ false
    → UniqueChunks (rows ++ (row ∷ []))
append-UniqueChunks [] row u n = (refl, tt)
append-UniqueChunks (c ∷ rows) row u n = (
  any-snoc (has_chunk_key c.upload_id c.artifact_index c.chunk_index) rows row
      ∙ ground (arith, key-sym c row),
  append-UniqueChunks rows row u.1 (ground arith),
)

append-AreColumns :
    (rows : List ChunkRow) (row : ChunkRow)
    → AreColumns rows
    → row.chunk_index ≡ pos (to_nat row.chunk_index)
    → AreColumns (rows ++ (row ∷ []))
append-AreColumns [] row h e = (e, tt)
append-AreColumns (c ∷ rows) row h e = (h.0, append-AreColumns rows row h.1 e)

insert_chunk-Keeps :
    (row : ChunkRow)
    → row.chunk_index ≡ pos (to_nat row.chunk_index)
    → Keeps IsSound (insert_chunk row)
unfolding insert_chunk modify_database get_upload_artifacts
insert_chunk-Keeps row e = record {
  run = λ w s.
      elim (Option-cases (
        find (has_chunk_key row.upload_id row.artifact_index row.chunk_index)
          w.database.upload_chunks)) [
            | inl n ↦
                rw (n, insert_chunk)
                  (record {
                    columns = append-AreColumns w.database.upload_chunks row s.columns e;
                    unique =
                        append-UniqueChunks w.database.upload_chunks row s.unique
                          (find-none _ w.database.upload_chunks n);
                    statuses =
                        All-map _ _ w.database.uploads
                          (λ u h.
                            StatusHolds-grows w.database
                              (set_chunks (w.database.upload_chunks ++ (row ∷ [])) w.database) u
                              refl
                              (λ artifact i t.
                                any-snoc (has_chunk_key u.id artifact (pos i))
                                  w.database.upload_chunks row
                                ∙ ground (arith, t))
                              h)
                          s.statuses;
                  })
            | inr (old, f) ↦ rw (f, insert_chunk) s
          ];
}

to_sqlite_i64-pos : (n : ℕ) {c : ℤ} → to_sqlite_i64 n ≡ ok c → c ≡ pos (to_nat c)
unfolding to_sqlite_i64
to_sqlite_i64-pos n h = ground (arith)

pub insertion-Keeps :
    (upload : ActiveUploadRow) (artifact chunk size : ℕ) (sha256 at : Text)
    → Keeps IsSound (
        gets (λ w. get_active_upload upload.id w.database) >>= λ current.
        lift (
          reject_if
            (not (accepts_chunks current))
            (conflict "upload_state_conflict" "upload state changed while the chunk was submitted"))
        >> lift (to_sqlite_i64 chunk)
        >>= λ c. lift (to_sqlite_i64 size) >>= λ z. insert_chunk (record {
          upload_id = upload.id;
          artifact_index = pos artifact;
          chunk_index = c;
          byte_length = z;
          sha256 = digest_storage_value sha256;
          accepted_at = at;
        }))
insertion-Keeps upload artifact chunk size sha256 at = Keeps-gets _ (λ current. Keeps-lift (λ _ _.
    Keeps-lift (λ c e. Keeps-lift (λ _ _. insert_chunk-Keeps _ (to_sqlite_i64-pos chunk e)))))

pub complete-some :
    (id : Text) (d : Database) {b : Bool}
    → get_upload_artifacts id d ≡ []
    → upload_is_complete id d ≢ ok b
unfolding upload_is_complete
complete-some id d {b} n e = ground (arith, n, e)

-- A status that `refresh_upload_status` may write.
abbrev FitsStatus : Text → Database → UploadState → Type 0
FitsStatus id d status =
    status ≡ artifact_uploaded
    → All HasCount (get_upload_artifacts id d)
    → All (HasEveryChunk id d.upload_chunks) (get_upload_artifacts id d)

module _ (id : Text) (d : Database) where
  updated :
      (status : UploadState)
      → FitsStatus id d status
      → (us vs : List ActiveUploadRow) → All (StatusHolds d) us
      → All (StatusHolds (set_uploads vs d)) (update_status id status us)
  unfolding update_status get_upload_artifacts
  updated status f [] vs h = tt
  updated status f (u ∷ us) vs h = (
    elim (Bool-cases (text_eq u.id id && not (state_eq u.status completed))) [
      | inl t ↦
          let same : id ≡ u.id = ground (arith, text_eq_iff u.id id) in
          rw t (subst (λ j. FitsStatus j d status) same f)
      | inr t ↦ rw t h.0
    ],
    updated status f us vs h.1,
  )

  -- The upload that a completion finds is completed; the others are what they were.
  pub completed-StatusHolds :
      (snapshot now : Text) (us vs : List ActiveUploadRow)
      → All (StatusHolds d) us
      → All (StatusHolds (set_uploads vs d)) (complete_rows id snapshot now us).1
  unfolding complete_rows get_upload_artifacts
  completed-StatusHolds snapshot now [] vs h = tt
  completed-StatusHolds snapshot now (u ∷ us) vs h =
      elim (Bool-cases (text_eq u.id id && is_open u)) [
        | inl t ↦ rw t (λ e. ground (arith, e), All-map _ _ us (λ _ k. k) h.1)
        | inr f ↦ rw f (h.0, completed-StatusHolds snapshot now us vs h.1)
      ]

  -- What counts as complete has every chunk.
  complete_fits :
      (b : Bool)
      → upload_is_complete id d ≡ ok b
      → AreColumns d.upload_chunks
      → UniqueChunks d.upload_chunks
      → FitsStatus id d (if b then artifact_uploaded else created)
  complete_fits false e h u s counts = ground (arith, s)
  complete_fits true e h u s counts =
      All-map _ _ (get_upload_artifacts id d) (λ a has i b. has i ∙ b)
        ((upload_is_complete_iff id d h u counts (λ n. complete-some id d n e)).0 e)

-- Refreshing a status keeps the state sound, whether or not it was right before.
pub refresh-IsSound :
    (id : Text) (w : World) → IsSound w.database → IsSound (refresh_upload_status id w).1.database
unfolding refresh_upload_status ◌>>=◌ gets lift modify_database
refresh-IsSound id w s = elim (Result-cases (upload_is_complete id w.database)) [
  | inl (e, f) ↦ rw f s
  | inr (b, f) ↦ rw f (record {
    columns = s.columns;
    unique = s.unique;
    statuses =
        updated id w.database (if b then artifact_uploaded else created)
          (complete_fits id w.database b f s.columns s.unique) w.database.uploads
          (update_status id (if b then artifact_uploaded else created) w.database.uploads)
          s.statuses;
  })
]
