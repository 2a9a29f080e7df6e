-- ===== src/Uploads/Sound/Accepted.antt =====
-- A chunk that is accepted leaves the status that the recorded chunks call for
-- (crates/patwari-server/src/ingestion.rs, `put_artifact_chunk`).
use patwari.Prelude.{
  All, ApiResult, Bool, Bool-cases, List, Result-cases, ApiError, Text, [], arith, err, false,
  if◌then◌else◌, inl, inr, not, ok, refl, text_eq, text_eq_iff, true, ℕ, ◌&&◌, ◌↔◌, ◌∷◌, ◌≡◌, ◌≢◌,
}
use patwari.Chunks.{UploadArtifactRow}
use patwari.Uploads.Invariant.{
  AreColumns, HasAllChunks, HasCount, UniqueChunks, upload_is_complete_iff,
}
use patwari.Uploads.Keeps.{Keeps, Keeps-pure}
use patwari.Uploads.Record.{
  get_upload_artifacts, refresh_upload_status, set_uploads, update_status, upload_is_complete,
}
use patwari.Uploads.Request.{ChunkRequest, Frame}
use patwari.Uploads.Sound.Arrival.{persist_chunk_record-Keeps, store_chunk_file-Keeps}
use patwari.Uploads.Sound.Rows.{complete-some}
use patwari.Uploads.Sound.{IsSound}
use patwari.Uploads.Transfer.{accept_chunk}
use patwari.Uploads.World.{
  ActiveUploadRow, Database, Handler, UploadExternal, UploadState, World, after, artifact_uploaded,
  completed, created, gets, lift, modify_database, state_eq, ◌>>=◌,
}

-- What the chunks say of the status of an upload that is not completed.
abbrev pub StatusMatches : Text → Database → ActiveUploadRow → Type 0
StatusMatches id d u =
    u.id ≡ id
    → u.status ≢ completed
    → All HasCount (get_upload_artifacts id d)
    → (u.status ≡ artifact_uploaded)
      ↔ All (HasAllChunks id d.upload_chunks) (get_upload_artifacts id d)

state_eq-completed : (s : UploadState) → state_eq s completed ≡ true → s ≡ completed
state_eq-completed created h = ground arith
state_eq-completed artifact_uploaded h = ground arith
state_eq-completed completed h = refl

status-decided :
    {C : Type 0} {r : ApiResult Bool} (b : Bool)
    → r ≡ ok b
    → ((r ≡ ok true) ↔ C)
    → ((if b then artifact_uploaded else created) ≡ artifact_uploaded) ↔ C
status-decided true y d = (λ _. d.0 y, λ _. refl)
status-decided false y d = (λ h. ground (arith, h), λ k. ground (arith, y, d.1 k))

module _ (id : Text) (d : Database) where
  updated-StatusMatches :
      (b : Bool)
      → upload_is_complete id d ≡ ok b
      → AreColumns d.upload_chunks
      → UniqueChunks d.upload_chunks
      → (us vs : List ActiveUploadRow)
      → All
          (StatusMatches id (set_uploads vs d))
          (update_status id (if b then artifact_uploaded else created) us)
  unfolding update_status get_upload_artifacts
  updated-StatusMatches b e h n [] vs = tt
  updated-StatusMatches b e h n (u ∷ us) vs = (
    elim (Bool-cases (text_eq u.id id && not (state_eq u.status completed))) [
      | inl t ↦ rw t (λ _ _ counts.
          status-decided b e
            (upload_is_complete_iff id d h n counts (λ none. complete-some id d none e)))
      | inr t ↦ rw t (λ same active _.
          absurd
            (active (state_eq-completed u.status (ground (arith, t, text_eq_iff u.id id, same)))))
    ],
    updated-StatusMatches b e h n us vs,
  )

refresh_upload_status-StatusMatches :
    (id : Text) (w : World)
    → IsSound w.database
    → (refresh_upload_status id w).0 ≡ ok tt
    → All
        (StatusMatches id (refresh_upload_status id w).1.database)
        (refresh_upload_status id w).1.database.uploads
unfolding refresh_upload_status ◌>>=◌ gets lift modify_database
refresh_upload_status-StatusMatches id w s h =
    elim (Result-cases (upload_is_complete id w.database)) [
      | inl (e, f) ↦ absurd (unknown f h)
      | inr (b, f) ↦ rw f (
          updated-StatusMatches id w.database b f s.columns s.unique w.database.uploads
            (update_status id (if b then artifact_uploaded else created) w.database.uploads))
    ]
  where
    unknown :
        {e : ApiError}
        → upload_is_complete id w.database ≡ err e
        → (refresh_upload_status id w).0 ≢ ok tt
    unknown f = rw f (λ h. ground (arith, h))

-- What a handler that succeeds makes true of the database.
record Succeeds {κ μ} (P : Database → Type κ) (Q : Database → Type μ) (m : Handler (Unit {0}))
    : Type (κ ⊔ μ) where
  pub run : (w : World) → P w.database → (m w).0 ≡ ok tt → Q (m w).1.database

after-succeeds {κ μ ℓ} :
    {A : Type ℓ} {P : Database → Type κ} {Q : Database → Type μ} (x : ApiResult A × World)
    (f : A → Handler (Unit {0}))
    → ((a : A) → Succeeds P Q (f a))
    → P x.1.database
    → (after x f).0 ≡ ok tt
    → Q (after x f).1.database
after-succeeds (ok a, w) f k p h = (k a).run w p h
after-succeeds (err e, w) f k p h = absurd (ground (arith, h))

Succeeds->>= {κ μ ℓ} :
    {A : Type ℓ} {P : Database → Type κ} {Q : Database → Type μ} {m : Handler A}
    {f : A → Handler (Unit {0})}
    → Keeps P m
    → ((a : A) → Succeeds P Q (f a))
    → Succeeds P Q (m >>= f)
unfolding ◌>>=◌
Succeeds->>= {m = m} {f = f} k l = record { run = λ w p h. after-succeeds (m w) f l (k.run w p) h }

-- A chunk that is accepted with success, in a state that is sound (`IsSound`, what `Reach-IsSound`
-- keeps), leaves every upload with that id, if it is not completed, with the status
-- `artifact_uploaded` just when each of its artifacts has exactly the chunks below its chunk count;
-- assumed is that these counts are not negative.
pub accept_chunk-StatusMatches :
    (ext : UploadExternal) (upload : ActiveUploadRow) (artifact : UploadArtifactRow)
    (artifact_index chunk_index : ℕ) (request : ChunkRequest) (body : List Frame) (removed : Bool)
    (at : ext.Time) (w : World)
    → IsSound w.database
    → let result =
        accept_chunk ext upload artifact artifact_index chunk_index request body removed at w in
      result.0 ≡ ok tt → All (StatusMatches upload.id result.1.database) result.1.database.uploads
unfolding accept_chunk
accept_chunk-StatusMatches ext upload artifact artifact_index chunk_index request body removed at w
      s h =
    succeeds.run w s h
  where
    Q : Database → Type 0
    Q d = All (StatusMatches upload.id d) d.uploads

    refreshed : Succeeds IsSound Q (refresh_upload_status upload.id)
    refreshed = record { run = λ v t e. refresh_upload_status-StatusMatches upload.id v t e }

    succeeds :
        Succeeds IsSound Q
          (accept_chunk ext upload artifact artifact_index chunk_index request body removed at)
    succeeds = Succeeds->>= (Keeps-pure _) (λ _. Succeeds->>= (Keeps-pure _) (λ _.
        Succeeds->>= (store_chunk_file-Keeps ext upload.id artifact_index chunk_index body request)
          (λ _. Succeeds->>= (Keeps-pure _) (λ now.
            Succeeds->>=
              (persist_chunk_record-Keeps upload artifact_index chunk_index request.byte_length
                request.sha256 now)
              (λ _. Succeeds->>= (Keeps-pure _) (λ _. refreshed))))))
