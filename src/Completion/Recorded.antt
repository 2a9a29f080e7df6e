-- ===== src/Completion/Recorded.antt =====
-- What `record_completed_upload` leaves when it succeeds
-- (crates/patwari-server/src/ingestion.rs).
use patwari.Prelude.{
  ApiResult, Bool, Bool-cases, List, Option, Text, [], any, arith, database_error, err, false, inl,
  inr, none, ok, ok_or-eq-ok, refl, some, subst, sym, text_eq, text_eq_iff, true, ℕ, ℤ, ◌&&◌, ◌++◌,
  ◌||◌, ◌∙◌, ◌∷◌, ◌≡◌,
}
use patwari.Completion.Blobs.{BlobPromotion, cleanup_uncommitted_promotions}
use patwari.Completion.Cleanup.{cleanup-tables}
use patwari.Completion.Commit.{
  commit_snapshot, commit_winner, in_transaction, insert_snapshot, record_completed_upload,
  rolled_back_if_lost,
}
use patwari.Completion.Finalize.{
  finalize_upload_for_existing_snapshot, find_snapshot_by_fingerprint,
}
use patwari.Completion.Frame.{
  Ensures, Ensures-bind, Ensures-changes, Ensures-if, Ensures-nothing, Ensures-reads,
  Ensures-returns, Ensures-weaken, Ensures-writes,
}
use patwari.Completion.Prepare.{PreparedArtifact}
use patwari.Completion.Provenance.{Drawn}
use patwari.Completion.Recording.{
  HasSnapshot, IfLive, IsRecorded, finalize_existing-ensures, finalize_winning_snapshot-ensures,
}
use patwari.Completion.Store.{Commit, Snapshot, Store, Tables, TombstoneRow, has_fingerprint}
use patwari.Contract.{Manifest}
use patwari.Pagination.{CursorExternal}
use patwari.Uploads.World.{ActiveUploadRow, find}

-- The session and the fingerprint of a snapshot do not change while it is live.
abbrev pub KeepsIdentity : (Store → Store) → Type 0
KeepsIdentity later =
    (session fingerprint id : Text) (store : Store)
    → HasSnapshot session fingerprint id store.tables
    → IfLive session fingerprint id (later store).tables

any-last {ℓ} :
    {A : Type ℓ} (p : A → Bool) (xs : List A) (x : A) → p x ≡ true → any p (xs ++ (x ∷ [])) ≡ true
any-last p [] x h = ground (arith, h)
any-last p (y ∷ xs) x h = ground (arith, any-last p xs x h)

itself :
    (row : Snapshot)
    → row.deleted_at ≡ none
    → (text_eq row.id row.id && has_fingerprint row.session_id row.fingerprint_sha256 row) ≡ true
itself row live = rw ((text_eq_iff row.id row.id).1 refl) (
    rw ((text_eq_iff row.session_id row.session_id).1 refl)
      (rw ((text_eq_iff row.fingerprint_sha256 row.fingerprint_sha256).1 refl) (rw live refl)))

module _ (ext : CursorExternal) (owner session fingerprint : Text) where
  insert_snapshot-ensures {κ} :
      {P : Tables → Type κ} (row : Snapshot)
      → row.deleted_at ≡ none
      → Ensures P (insert_snapshot ext owner row) (λ inserted t.
        inserted ≡ true → HasSnapshot row.session_id row.fingerprint_sha256 row.id t)
  unfolding insert_snapshot
  insert_snapshot-ensures row live = record { run = λ store p a e h. go store a e h }
    where
      go :
          (store : Store) (a : Bool)
          → (insert_snapshot ext owner row store).0 ≡ ok a
          → a ≡ true
          → HasSnapshot row.session_id row.fingerprint_sha256 row.id
              (insert_snapshot ext owner row store).1.tables
      go store a e h =
          elim (Bool-cases (
            any
              (λ s. text_eq s.id row.id || has_fingerprint row.session_id row.fingerprint_sha256 s)
              store.tables.snapshots)) [
                | inl t ↦ ground (arith, t, e, h)
                | inr f ↦ rw f (any-last _ store.tables.snapshots row (itself row live))
              ]

  commit_winner-ensures :
      (drawn : Drawn) (upload : ActiveUploadRow) (manifest : Manifest) (m : Text)
      (prepared : List PreparedArtifact) (ids : List (Text × Text)) (prior : Option TombstoneRow)
      (now : Text) (seq : ℤ) (transfer persisted : ℕ)
      → Ensures
          (HasSnapshot session fingerprint drawn.snapshot_id)
          (commit_winner ext owner drawn upload manifest m prepared ids prior now seq transfer
            persisted)
          (λ _. IsRecorded upload.id session fingerprint drawn.snapshot_id)
  unfolding commit_winner
  commit_winner-ensures drawn upload manifest m prepared ids none now seq transfer persisted =
      Ensures-bind
        (finalize_winning_snapshot-ensures ext owner session fingerprint drawn upload manifest m
          prepared ids now seq transfer persisted)
        (λ _. Ensures-returns _ (λ a t e p. p))
  commit_winner-ensures drawn upload manifest m prepared ids (some tombstone) now seq transfer
        persisted =
      Ensures-bind
        (finalize_winning_snapshot-ensures ext owner session fingerprint drawn upload manifest m
          prepared ids now seq transfer persisted)
        (λ _. Ensures-writes _ (λ t p. p))

  in_transaction-ensures :
      {P : Tables → Type 0} {Q : Tables → Type 0} (m : Commit Bool)
      → Ensures P m (λ won t. won ≡ true → Q t)
      → Ensures P (in_transaction ext owner m) (λ won t. won ≡ true → Q t)
  unfolding in_transaction
  in_transaction-ensures {Q = Q} m f = record {
    run = λ store p a e. go store (m store) (f.run store p) a e;
  }
    where
      go :
          (before : Store) (x : ApiResult Bool × Store)
          → ((a : Bool) → x.0 ≡ ok a → a ≡ true → Q x.1.tables)
          → (a : Bool) → (rolled_back_if_lost ext owner before x).0 ≡ ok a
          → a ≡ true
          → Q (rolled_back_if_lost ext owner before x).1.tables
      go before (ok true, s) h a e t = h true refl refl
      go before (ok false, s) h a e t = ground (arith, e, t)
      go before (err b, s) h a e t = ground (arith, e)

module _ (ext : CursorExternal) (owner : Text) (drawn : Drawn) (upload : ActiveUploadRow)
    (manifest : Manifest) (fingerprint : Text) where
  commit_snapshot-ensures :
      (prepared : List PreparedArtifact) (now : Text) (seq : ℤ) (transfer persisted : ℕ)
      → Ensures
          (λ _. Unit {0})
          (commit_snapshot ext owner drawn upload manifest prepared fingerprint now seq transfer
            persisted)
          (λ won t.
            won ≡ true → IsRecorded upload.id upload.session_id fingerprint drawn.snapshot_id t)
  unfolding commit_snapshot
  commit_snapshot-ensures prepared now seq transfer persisted =
      Ensures-bind (Ensures-nothing _) (λ ids. Ensures-bind (Ensures-nothing _) (λ m.
        Ensures-bind (Ensures-nothing _) (λ prior.
          Ensures-bind (Ensures-nothing _) (λ (totals : ℕ × ℕ).
            Ensures-bind (Ensures-nothing _) (λ count. Ensures-bind (Ensures-nothing _) (λ original.
              Ensures-bind (Ensures-nothing _) (λ stored.
                Ensures-bind
                  (insert_snapshot-ensures ext owner upload.session_id fingerprint _ refl)
                  (λ inserted.
                    Ensures-if inserted
                      (λ h.
                        Ensures-weaken (λ t p. p h)
                          (Ensures-bind
                            (commit_winner-ensures ext owner upload.session_id fingerprint drawn
                              upload manifest m prepared ids prior now seq transfer persisted)
                            (λ _. Ensures-returns _ (λ a t e p _. p))))
                      (λ h. Ensures-returns _ (λ a t e p w. ground (arith, e, w)))))))))))

  found_id :
      (t : Tables) (id : Text)
      → find_snapshot_by_fingerprint upload.session_id fingerprint t ≡ some id
      → HasSnapshot upload.session_id fingerprint id t
  unfolding find_snapshot_by_fingerprint
  found_id t id e = go t.snapshots e
    where
      go :
          (rows : List Snapshot)
          → (elim (find (has_fingerprint upload.session_id fingerprint) rows) [
            | none ↦ none
            | some s ↦ some s.id
          ])
            ≡ some id
          → any (λ s. text_eq s.id id && has_fingerprint upload.session_id fingerprint s) rows
            ≡ true
      go [] e = ground (arith, e)
      go (s ∷ rows) e = elim (Bool-cases (has_fingerprint upload.session_id fingerprint s)) [
        | inl h ↦ ground (arith, h, e, text_eq_iff s.id id)
        | inr h ↦ ground (arith, h, e, go rows)
      ]

  record_completed_upload-ensures :
      (prepared : List PreparedArtifact) (promotions : List BlobPromotion) (transfer persisted : ℕ)
      (others later : Store → Store)
      → KeepsIdentity later
      → Ensures
          (λ _. Unit {0})
          (record_completed_upload ext owner drawn upload manifest prepared promotions fingerprint
            transfer persisted others later)
          (λ _ t. (id : Text) × IsRecorded upload.id upload.session_id fingerprint id t)
  unfolding record_completed_upload
  record_completed_upload-ensures prepared promotions transfer persisted others later keeps =
      Ensures-bind (Ensures-nothing _) (λ now. Ensures-bind (Ensures-nothing _) (λ seq.
        Ensures-bind
          (in_transaction-ensures ext owner upload.session_id fingerprint _
            (commit_snapshot-ensures prepared now seq transfer persisted))
          (λ won.
            Ensures-if won (λ h. Ensures-returns _ (λ a t e p. (drawn.snapshot_id, p h)))
              (λ h. Ensures-bind (Ensures-nothing _) (λ _.
                Ensures-bind
                  (Ensures-reads (find_snapshot_by_fingerprint upload.session_id fingerprint)
                    {Q = λ winner t.
                      winner ≡ find_snapshot_by_fingerprint upload.session_id fingerprint t}
                    (λ t p. refl))
                  (λ winner.
                    Ensures-bind {R = λ id. HasSnapshot upload.session_id fingerprint id}
                      (Ensures-returns _
                        (λ id t e p. found_id t id (sym p ∙ ok_or-eq-ok winner database_error e)))
                      (λ id.
                        Ensures-bind
                          (Ensures-changes (cleanup_uncommitted_promotions owner promotions)
                            (λ store p.
                              subst (λ t. HasSnapshot upload.session_id fingerprint id t)
                                (sym (cleanup-tables owner promotions store)) p))
                          (λ _.
                            Ensures-bind {R = λ _. IfLive upload.session_id fingerprint id}
                              (Ensures-changes later (keeps upload.session_id fingerprint id))
                              (λ _. finishes id)))))))))
    where
      finishes :
          (id : Text)
          → Ensures
              (IfLive upload.session_id fingerprint id)
              (finalize_upload_for_existing_snapshot ext owner drawn upload manifest id transfer)
              (λ _ t. (id : Text) × IsRecorded upload.id upload.session_id fingerprint id t)
      finishes id = record {
        run = λ store p a e. (
          id,
          (finalize_existing-ensures ext owner upload.session_id fingerprint drawn upload manifest
                id transfer).run
              store p a e,
        );
      }

-- If the record of a completion succeeds, the upload is completed, with a snapshot that is live and
-- has the session of the upload and the fingerprint of the completion, whether the completion
-- inserted it or another one did; `others` is what other handlers did before the winner was looked
-- up, `later` what they did between that and its transaction. Assumed of `later` is only that a
-- snapshot with these keeps them as long as it is live; it may be deleted.
pub record_completed_upload-IsRecorded :
    (ext : CursorExternal) (owner : Text) (drawn : Drawn) (upload : ActiveUploadRow)
    (manifest : Manifest) (fingerprint : Text) (prepared : List PreparedArtifact)
    (promotions : List BlobPromotion) (transfer persisted : ℕ) (others later : Store → Store)
    (store : Store)
    → KeepsIdentity later
    → (record_completed_upload ext owner drawn upload manifest prepared promotions fingerprint
        transfer persisted others later store).0
      ≡ ok tt
    → (id : Text) × IsRecorded upload.id upload.session_id fingerprint id
        (record_completed_upload ext owner drawn upload manifest prepared promotions fingerprint
          transfer persisted others later store).1.tables
record_completed_upload-IsRecorded ext owner drawn upload manifest fingerprint prepared promotions
      transfer persisted others later store keeps e =
    (record_completed_upload-ensures ext owner drawn upload manifest fingerprint prepared promotions
        transfer persisted others later keeps).run
      store tt tt e
