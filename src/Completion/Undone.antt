-- ===== src/Completion/Undone.antt =====
-- What `record_completed_upload` leaves when it fails
-- (crates/patwari-server/src/ingestion.rs).
use patwari.Prelude.{
  ApiError, ApiResult, Bool, List, Text, ap, arith, database_error, err, false, if◌then◌else◌, inl,
  inr, internal, ok, ok_or, refl, sym, true, ℕ, ◌∙◌, ◌≡◌, ◌≢◌, ◌⊎◌,
}
use patwari.Completion.Blobs.{BlobPromotion, cleanup_uncommitted_promotions}
use patwari.Completion.Cleanup.{cleanup-tables}
use patwari.Completion.Commit.{
  commit_snapshot, in_transaction, record_completed_upload, rolled_back_if_lost,
}
use patwari.Completion.Finalize.{
  finalize_upload_for_existing_snapshot, find_snapshot_by_fingerprint,
}
use patwari.Completion.Prepare.{PreparedArtifact}
use patwari.Completion.Provenance.{Drawn}
use patwari.Completion.Store.{
  Commit, Store, Tables, atomically, changes, continue_with, reads, returns, undone, ◌>>>=◌,
}
use patwari.Contract.{Manifest}
use patwari.Pagination.{CursorExternal, sort_key_from_rfc3339}
use patwari.Uploads.World.{ActiveUploadRow}

continue-err {ℓ κ} :
    {A : Type ℓ} {B : Type κ} (x : ApiResult A × Store) (k : A → Commit B) {e : ApiError}
    → (continue_with x k).0 ≡ err e
    → ((continue_with x k).1 ≡ x.1)
      ⊎ ((a : A) × (x.0 ≡ ok a) × ((k a x.1).0 ≡ err e) × ((continue_with x k).1 ≡ (k a x.1).1))
continue-err (ok a, s) k h = inr (a, refl, h, refl)
continue-err (err x, s) k h = inl refl

undone-err {ℓ} :
    {A : Type ℓ} (before : Store) (x : ApiResult A × Store) {e : ApiError}
    → (undone before x).0 ≡ err e
    → (undone before x).1.tables ≡ before.tables
undone-err before (ok a, s) h = ground (arith, h)
undone-err before (err x, s) h = refl

-- A handler that restores the tables when it fails.
abbrev Restores {ℓ} : {A : Type ℓ} → Commit A → Type ℓ
Restores m =
    (store : Store) (e : ApiError) → (m store).0 ≡ err e → (m store).1.tables ≡ store.tables

module _ {ℓ} {A : Type ℓ} where
  Restores-atomically : (m : Commit A) → Restores (atomically m)
  unfolding atomically
  Restores-atomically m store e h = undone-err store (m store) h

  -- A result, and then a handler that restores them.
  Restores-returns {κ} :
      {B : Type κ} (r : ApiResult A) (k : A → Commit B)
      → ((a : A) → Restores (k a))
      → Restores (returns r >>>= k)
  unfolding returns ◌>>>=◌
  Restores-returns (ok a) k h store e f = h a store e f
  Restores-returns (err x) k h store e f = refl

module _ (ext : CursorExternal) (owner : Text) where
  finalize_existing-Restores :
      (drawn : Drawn) (upload : ActiveUploadRow) (manifest : Manifest) (snapshot : Text)
      (transfer : ℕ)
      → Restores
          (finalize_upload_for_existing_snapshot ext owner drawn upload manifest snapshot transfer)
  unfolding finalize_upload_for_existing_snapshot
  finalize_existing-Restores drawn upload manifest snapshot transfer =
      Restores-returns _ _ (λ now. Restores-atomically _)

  -- After the rollback of a completion that lost.
  loser :
      Drawn
      → ActiveUploadRow
      → Manifest
      → List BlobPromotion
      → Text
      → ℕ
      → (Store → Store)
      → (Store → Store)
      → Commit (Unit {0})
  loser drawn upload manifest promotions fingerprint transfer others later =
      changes others >>>= λ _.
      reads (find_snapshot_by_fingerprint upload.session_id fingerprint) >>>= λ winner.
      returns (ok_or winner database_error) >>>= λ id.
      changes (cleanup_uncommitted_promotions owner promotions) >>>= λ _. changes later >>>= λ _.
      finalize_upload_for_existing_snapshot ext owner drawn upload manifest id transfer

  -- The tables that others left, before or after the winner was looked up.
  abbrev AreOthers : (Store → Store) → (Store → Store) → Store → Tables → Type 0
  AreOthers others later store t =
      (t ≡ (others store).tables)
      ⊎ ((s : Store) × (s.tables ≡ (others store).tables) × (t ≡ (later s).tables))

  AreOthers-returns :
      (others later : Store → Store) (store : Store) (r : ApiResult Text)
      (k : Text → Commit (Unit {0}))
      → ((id : Text) (e : ApiError)
          → (k id (others store)).0 ≡ err e
          → AreOthers others later store (k id (others store)).1.tables)
      → (e : ApiError) → ((returns r >>>= k) (others store)).0 ≡ err e
      → AreOthers others later store ((returns r >>>= k) (others store)).1.tables
  unfolding returns ◌>>>=◌
  AreOthers-returns others later store (ok a) k h e f = h a e f
  AreOthers-returns others later store (err x) k h e f = inl refl

  loser-tables :
      (drawn : Drawn) (upload : ActiveUploadRow) (manifest : Manifest)
      (promotions : List BlobPromotion) (fingerprint : Text) (transfer : ℕ)
      (others later : Store → Store) (store : Store) (e : ApiError)
      → (loser drawn upload manifest promotions fingerprint transfer others later store).0 ≡ err e
      → AreOthers others later store
          (loser drawn upload manifest promotions fingerprint transfer others later store).1.tables
  unfolding loser changes reads ◌>>>=◌
  loser-tables drawn upload manifest promotions fingerprint transfer others later store e h =
      AreOthers-returns others later store
        (ok_or (find_snapshot_by_fingerprint upload.session_id fingerprint (others store).tables)
          database_error)
        _
        (λ id x g. inr (
          cleanup_uncommitted_promotions owner promotions (others store),
          cleanup-tables owner promotions (others store),
          finalize_existing-Restores drawn upload manifest id transfer
              (later (cleanup_uncommitted_promotions owner promotions (others store))) x g,
        ))
        e h

  -- The tables after a failure: those before it, or what others made of them.
  abbrev pub AreUndone : (Store → Store) → (Store → Store) → Store → Tables → Type 0
  AreUndone others later store t =
      (t ≡ store.tables) ⊎ ((s : Store) × (s.tables ≡ store.tables) × AreOthers others later s t)

  Undone-returns {ℓ} :
      {A : Type ℓ} (others later : Store → Store) (r : ApiResult A) (k : A → Commit (Unit {0}))
      → ((a : A) (store : Store) (e : ApiError)
          → (k a store).0 ≡ err e
          → AreUndone others later store (k a store).1.tables)
      → (store : Store) (e : ApiError) → ((returns r >>>= k) store).0 ≡ err e
      → AreUndone others later store ((returns r >>>= k) store).1.tables
  unfolding returns ◌>>>=◌
  Undone-returns others later (ok a) k h store e f = h a store e f
  Undone-returns others later (err x) k h store e f = inl refl

  rolled_back_if_lost-tables :
      (before : Store) (x : ApiResult Bool × Store)
      → x.0 ≢ ok true
      → (rolled_back_if_lost ext owner before x).1.tables ≡ before.tables
  rolled_back_if_lost-tables before (ok true, s) n = absurd (n refl)
  rolled_back_if_lost-tables before (ok false, s) n = refl
  rolled_back_if_lost-tables before (err e, s) n = refl

  rolled_back_if_lost-result :
      (before : Store) (x : ApiResult Bool × Store)
      → (rolled_back_if_lost ext owner before x).0 ≡ x.0
  rolled_back_if_lost-result before (ok true, s) = refl
  rolled_back_if_lost-result before (ok false, s) = refl
  rolled_back_if_lost-result before (err e, s) = refl

  transaction-undone :
      (m : Commit Bool) (l : Commit (Unit {0})) (others later : Store → Store)
      → ((store : Store) (e : ApiError)
          → (l store).0 ≡ err e
          → AreOthers others later store (l store).1.tables)
      → (store : Store) (e : ApiError)
      → ((in_transaction ext owner m >>>= λ won. if won then returns (ok tt) else l) store).0
        ≡ err e
      → AreUndone others later store
          ((in_transaction ext owner m >>>= λ won. if won then returns (ok tt) else l)
            store).1.tables
  unfolding in_transaction returns ◌>>>=◌
  transaction-undone m l others later h store e f =
      go (rolled_back_if_lost ext owner store (m store)) refl f
    where
      go :
          (x : ApiResult Bool × Store)
          → rolled_back_if_lost ext owner store (m store) ≡ x
          → (continue_with x (λ won. if won then returns (ok tt) else l)).0 ≡ err e
          → AreUndone others later store
              (continue_with x (λ won. if won then returns (ok tt) else l)).1.tables
      go (ok true, s) is f = ground (arith, f)
      go (ok false, s) is f = inr (
        s,
        ap (λ x. x.1.tables) (sym is)
            ∙ rolled_back_if_lost-tables store (m store) (λ z.
              ground
                (arith, z, sym (rolled_back_if_lost-result store (m store)) ∙ ap (λ x. x.0) is)),
        h s e f,
      )
      go (err x, s) is f = inl (
          ap (λ x. x.1.tables) (sym is)
          ∙ rolled_back_if_lost-tables store (m store) (λ z.
            ground (arith, z, sym (rolled_back_if_lost-result store (m store)) ∙ ap (λ x. x.0) is)))

  -- When the record of a completion fails, no table is changed but by what other handlers did after
  -- its rollback, before or after the winner was looked up.
  pub record_completed_upload-undone :
      (drawn : Drawn) (upload : ActiveUploadRow) (manifest : Manifest)
      (prepared : List PreparedArtifact) (promotions : List BlobPromotion) (fingerprint : Text)
      (transfer persisted : ℕ) (others later : Store → Store) (store : Store) {e : ApiError}
      → (record_completed_upload ext owner drawn upload manifest prepared promotions fingerprint
          transfer persisted others later store).0
        ≡ err e
      → AreUndone others later store
          (record_completed_upload ext owner drawn upload manifest prepared promotions fingerprint
            transfer persisted others later store).1.tables
  unfolding record_completed_upload loser
  record_completed_upload-undone drawn upload manifest prepared promotions fingerprint transfer
        persisted others later store {e} h =
      Undone-returns others later (ok_or drawn.now internal) _
        (λ now.
          Undone-returns others later (ok_or (sort_key_from_rfc3339 ext now) internal) _ (λ seq.
            transaction-undone
              (commit_snapshot ext owner drawn upload manifest prepared fingerprint now seq transfer
                persisted)
              (loser drawn upload manifest promotions fingerprint transfer others later) others
              later
              (loser-tables drawn upload manifest promotions fingerprint transfer others later)))
        store e h
