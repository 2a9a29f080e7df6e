-- ===== src/Completion/Recording.antt =====
-- What the statements of a completion leave of the snapshot and the row of the upload
-- (crates/patwari-server/src/ingestion.rs).
use patwari.Prelude.{
  ApiError, Bool, Bool-cases, List, Text, [], any, arith, bytes, false, inl, inr, not, ok,
  ok-injective, pos, refl, reject_if, text_eq, text_eq_iff, true, ℕ, ℤ, ◌&&◌, ◌∙◌, ◌∷◌, ◌≡◌,
}
use patwari.Completion.Commit.{finalize_winning_snapshot, insert_artifacts}
use patwari.Completion.Finalize.{
  conclude_upload, finalize_upload_for_existing_snapshot, find_manifest_id, is_completed_with,
}
use patwari.Completion.Frame.{
  Ensures, Ensures-atomically, Ensures-bind, Ensures-if, Ensures-insert_capture_provenance,
  Ensures-reads, Ensures-returns, Ensures-weaken, Ensures-writes,
}
use patwari.Completion.Prepare.{PreparedArtifact}
use patwari.Completion.Provenance.{Drawn, complete_rows, complete_upload_row, is_open}
use patwari.Completion.Store.{Tables, has_fingerprint, is_live_snapshot}
use patwari.Contract.{Manifest}
use patwari.Pagination.{CursorExternal}
use patwari.Uploads.World.{ActiveUploadRow, ManifestRow}

-- A live snapshot of the session has the fingerprint and this identifier.
abbrev pub HasSnapshot : Text → Text → Text → Tables → Type 0
HasSnapshot session fingerprint id t =
    any (λ s. text_eq s.id id && has_fingerprint session fingerprint s) t.snapshots ≡ true

-- The upload is completed, with this snapshot.
abbrev pub HasCompleted : Text → Text → Tables → Type 0
HasCompleted upload_id snapshot_id t =
    any (is_completed_with upload_id snapshot_id) t.uploads ≡ true

abbrev pub IsRecorded : Text → Text → Text → Text → Tables → Type 0
IsRecorded upload_id session fingerprint id t =
    HasSnapshot session fingerprint id t × HasCompleted upload_id id t

-- The snapshot has the session and the fingerprint if it is live.
abbrev pub IfLive : Text → Text → Text → Tables → Type 0
IfLive session fingerprint id t =
    any (λ s. text_eq s.id id && is_live_snapshot s) t.snapshots ≡ true
    → HasSnapshot session fingerprint id t

not_rejected :
    (b : Bool) (error : ApiError) {a : Unit {0}} → reject_if (not b) error ≡ ok a → b ≡ true
not_rejected true error e = refl
not_rejected false error e = ground (arith, e)

complete_rows-completed :
    (id snapshot now : Text) (uploads : List ActiveUploadRow)
    → (complete_rows id snapshot now uploads).0 ≡ true
    → any (is_completed_with id snapshot) (complete_rows id snapshot now uploads).1 ≡ true
unfolding complete_rows
complete_rows-completed id snapshot now [] h = ground (arith, h)
complete_rows-completed id snapshot now (u ∷ uploads) h =
    elim (Bool-cases (text_eq u.id id && is_open u)) [
      | inl t ↦ rw t (ground (arith, t, (text_eq_iff snapshot snapshot).1 refl))
      | inr f ↦ ground (arith, f, h, complete_rows-completed id snapshot now uploads)
    ]

module _ (ext : CursorExternal) (owner session fingerprint : Text) where
  find_manifest_id-ensures {κ} :
      {P : Tables → Type κ} (id : Text) → Ensures P (find_manifest_id ext owner id) (λ _. P)
  unfolding find_manifest_id
  find_manifest_id-ensures {P = P} id =
      Ensures-bind {R = λ _. P} (Ensures-reads _ (λ t p. p)) (λ found.
        Ensures-bind {R = λ _. P} (Ensures-returns _ (λ a t e p. p))
          (λ (row : ManifestRow). Ensures-returns _ (λ a t e p. p)))

  pub complete_upload_row-ensures :
      (id snapshot now : Text) (bytes persisted : ℤ)
      → Ensures
          (HasSnapshot session fingerprint snapshot)
          (complete_upload_row id snapshot now bytes persisted)
          (λ found t.
            HasSnapshot session fingerprint snapshot t
            × (found ≡ true → HasCompleted id snapshot t))
  unfolding complete_upload_row
  complete_upload_row-ensures id snapshot now bytes persisted = record {
    run = λ store p a e.
        (p, λ h. complete_rows-completed id snapshot now store.tables.uploads (ok-injective e ∙ h));
  }

  pub conclude_upload-ensures :
      (drawn : Drawn) (upload : ActiveUploadRow) (manifest : Manifest) (m snapshot now : Text)
      (updated : Bool)
      → Ensures
          (λ t.
            HasSnapshot session fingerprint snapshot t
            × (updated ≡ true → HasCompleted upload.id snapshot t))
          (conclude_upload ext owner drawn upload manifest m snapshot now updated)
          (λ _. IsRecorded upload.id session fingerprint snapshot)
  unfolding conclude_upload
  conclude_upload-ensures drawn upload manifest m snapshot now updated =
      Ensures-if updated
        (λ h.
          Ensures-weaken (λ t p. (p.0, p.1 h))
            (Ensures-insert_capture_provenance (λ t c l p. p) ext owner drawn upload manifest m
              snapshot now))
        (λ h.
          Ensures-bind
            {R = λ same t.
              HasSnapshot session fingerprint snapshot t
              × (same ≡ true → HasCompleted upload.id snapshot t)}
            (Ensures-reads _ (λ t p. (p.0, λ e. e)))
            (λ same. Ensures-returns _ (λ a t e p. (p.0, p.1 (not_rejected same _ e)))))

  insert_artifacts-ensures :
      (drawn : Drawn) (snapshot now : Text) (seq : ℤ) (ids : List (Text × Text))
      (prepared : List PreparedArtifact)
      → Ensures
          (HasSnapshot session fingerprint snapshot)
          (insert_artifacts ext owner drawn snapshot now seq ids prepared)
          (λ _. HasSnapshot session fingerprint snapshot)
  unfolding insert_artifacts
  insert_artifacts-ensures drawn snapshot now seq ids [] = Ensures-returns _ (λ a t e p. p)
  insert_artifacts-ensures drawn snapshot now seq ids (q ∷ prepared) =
      Ensures-bind {R = λ _. HasSnapshot session fingerprint snapshot}
        (Ensures-returns _ (λ a t e p. p))
        (λ blob_id.
          Ensures-bind {R = λ _. HasSnapshot session fingerprint snapshot}
            (Ensures-returns _ (λ a t e p. p))
            (λ original.
              Ensures-bind {R = λ _. HasSnapshot session fingerprint snapshot}
                (Ensures-writes _ (λ t p. p))
                (λ _. insert_artifacts-ensures drawn snapshot now seq ids prepared)))

  pub finalize_winning_snapshot-ensures :
      (drawn : Drawn) (upload : ActiveUploadRow) (manifest : Manifest) (m : Text)
      (prepared : List PreparedArtifact) (ids : List (Text × Text)) (now : Text) (seq : ℤ)
      (transfer persisted : ℕ)
      → Ensures
          (HasSnapshot session fingerprint drawn.snapshot_id)
          (finalize_winning_snapshot ext owner drawn upload manifest m prepared ids now seq transfer
            persisted)
          (λ _. IsRecorded upload.id session fingerprint drawn.snapshot_id)
  unfolding finalize_winning_snapshot
  finalize_winning_snapshot-ensures drawn upload manifest m prepared ids now seq transfer
        persisted =
      Ensures-bind (insert_artifacts-ensures drawn drawn.snapshot_id now seq ids prepared) (λ _.
        Ensures-bind {R = λ _. HasSnapshot session fingerprint drawn.snapshot_id}
          (Ensures-returns _ (λ a t e p. p))
          (λ b.
            Ensures-bind {R = λ _. HasSnapshot session fingerprint drawn.snapshot_id}
              (Ensures-returns _ (λ a t e p. p))
              (λ q.
                Ensures-bind (complete_upload_row-ensures upload.id drawn.snapshot_id now b q)
                  (λ updated.
                    conclude_upload-ensures drawn upload manifest m drawn.snapshot_id now
                      updated))))

  -- The snapshot, if it is still live when the transaction looks.
  pub finalize_existing-ensures :
      (drawn : Drawn) (upload : ActiveUploadRow) (manifest : Manifest) (snapshot : Text)
      (transfer : ℕ)
      → Ensures
          (IfLive session fingerprint snapshot)
          (finalize_upload_for_existing_snapshot ext owner drawn upload manifest snapshot transfer)
          (λ _. IsRecorded upload.id session fingerprint snapshot)
  unfolding finalize_upload_for_existing_snapshot
  finalize_existing-ensures drawn upload manifest snapshot transfer =
      Ensures-bind {R = λ _. IfLive session fingerprint snapshot} (Ensures-returns _ (λ a t e p. p))
        (λ now. Ensures-atomically (
          Ensures-bind {R = λ live t. live ≡ true → HasSnapshot session fingerprint snapshot t}
            (Ensures-reads _ (λ t p. p))
            (λ live.
              Ensures-bind {R = λ _. HasSnapshot session fingerprint snapshot}
                (Ensures-returns _ (λ a t e p. p (not_rejected live _ e)))
                (λ _.
                  Ensures-bind {R = λ _. HasSnapshot session fingerprint snapshot}
                    (Ensures-returns _ (λ a t e p. p))
                    (λ b.
                      Ensures-bind (complete_upload_row-ensures upload.id snapshot now b (pos 0))
                        (λ updated.
                          Ensures-bind
                            {R = λ _ t.
                              HasSnapshot session fingerprint snapshot t
                              × (updated ≡ true → HasCompleted upload.id snapshot t)}
                            (Ensures-if updated (λ _. find_manifest_id-ensures upload.id)
                              (λ _. Ensures-returns _ (λ a t e p. p)))
                            (λ m.
                              conclude_upload-ensures drawn upload manifest m snapshot now
                                updated)))))))
