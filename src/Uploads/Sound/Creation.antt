-- ===== src/Uploads/Sound/Creation.antt =====
-- The creation of an upload keeps the state sound (crates/patwari-server/src/ingestion.rs).
use patwari.Prelude.{
  All, All-map, List, Result-cases, Text, [], all, ap, append-All, append-nil, arith, filter,
  filter-append, filter-every, filter-no, inl, inr, length, ltb, map, ok, pos, subst, sym, text_eq,
  text_eq_iff, true, ℕ, ◌++◌, ◌+◌, ◌==◌, ◌∙◌, ◌∷◌, ◌≡◌, ◌≢◌,
}
use patwari.Chunks.{to_sqlite_i64}
use patwari.Contract.{Artifact, Manifest}
use patwari.Uploads.Create.{add_upload, upload_artifact, upload_artifact_rows}
use patwari.Uploads.Invariant.{HasEveryChunk, to_nat}
use patwari.Uploads.Layout.{UploadLayout}
use patwari.Uploads.NewRow.{initial_status, upload_row}
use patwari.Uploads.Record.{get_upload_artifacts}
use patwari.Uploads.Reuse.{Creation}
use patwari.Uploads.Sound.{IsSound, StatusHolds, StatusHolds-grows}
use patwari.Uploads.World.{
  ActiveUploadRow, ArtifactRow, ChunkRow, Database, ManifestRow, artifact_uploaded,
}

-- A new UUID is the id of no row.
pub record IsFresh (id : Text) (d : Database) : Type 0 where
  pub no_upload : All (λ u. u.id ≢ id) d.uploads
  pub no_artifact : All (λ a. a.0 ≢ id) d.upload_artifacts

upload_artifact-row :
    (id : Text) (index : ℕ) (a : Artifact) (count : ℕ) {row : ArtifactRow}
    → upload_artifact id index a count ≡ ok row
    → (row.0 ≡ id) × (row.1.chunk_count ≡ pos count)
unfolding upload_artifact to_sqlite_i64
upload_artifact-row id index a count {row} h =
    elim (Result-cases (to_sqlite_i64 a.original_size_bytes)) [
      | inl (e, x) ↦ ground (arith, x)
      | inr (o, x) ↦ elim (Result-cases (to_sqlite_i64 a.stored_size_bytes)) [
        | inl (e, y) ↦ ground (arith, x, y)
        | inr (s, y) ↦ elim (Result-cases (to_sqlite_i64 count)) [
          | inl (e, z) ↦ ground (arith, x, y, z)
          | inr (c, z) ↦ ground (arith, x, y, z)
        ]
      ]
    ]

-- The rows that are inserted are the upload's; where all their counts are 0, no chunk is wanting.
new_artifacts :
    (id : Text) (index : ℕ) (artifacts : List Artifact) (counts : List ℕ) (chunks : List ChunkRow)
    (rows : List ArtifactRow)
    → length artifacts ≡ length counts
    → upload_artifact_rows id index artifacts counts ≡ ok rows
    → All (λ a. a.0 ≡ id) rows
      × (all (λ c. c == 0) counts ≡ true → All (HasEveryChunk id chunks) (map (λ a. a.1) rows))
unfolding upload_artifact_rows
new_artifacts id index [] [] chunks [] l h = (tt, λ _. tt)
new_artifacts id index [] [] chunks (r ∷ rows) l h = ground arith
new_artifacts id index [] (c ∷ counts) chunks rows l h = ground arith
new_artifacts id index (a ∷ artifacts) [] chunks rows l h = ground arith
new_artifacts id index (a ∷ artifacts) (c ∷ counts) chunks rows l h =
    elim (Result-cases (upload_artifact id index a c)) [
      | inl (e, x) ↦ ground (arith, x)
      | inr (row, x) ↦ elim (Result-cases (upload_artifact_rows id (index + 1) artifacts counts)) [
        | inl (e, y) ↦ ground (arith, x, y)
        | inr (rest, y) ↦
            let (same, count) = upload_artifact-row id index a c x in
            let (all_same, complete) =
              new_artifacts id (index + 1) artifacts counts chunks rest (ground arith) y in
            let whole : rows ≡ row ∷ rest = ground (arith, x, y) in
            rw whole (
              (same, all_same),
              λ z. (
                λ i b. ground (arith, z, ap (λ n. ltb i (to_nat n)) count),
                complete (ground (arith, z)),
              ),
            )
      ]
    ]

pub upload_row-id :
    (c : Creation) (s k i h : Text) (m : Manifest) (l : UploadLayout) {row : ActiveUploadRow}
    → upload_row c s k i h m l ≡ ok row
    → (row.id ≡ c.upload_id) × (row.status ≡ initial_status l.chunk_counts)
unfolding upload_row
upload_row-id c s k i h m l {row} e = ground arith

-- The other uploads do not see the new rows.
add_upload-other :
    (id other : Text) (u : ActiveUploadRow) (m : ManifestRow) (rows : List ArtifactRow)
    (d : Database)
    → other ≢ id
    → All (λ a. a.0 ≡ id) rows
    → get_upload_artifacts other (add_upload u m rows d) ≡ get_upload_artifacts other d
unfolding get_upload_artifacts
add_upload-other id other u m rows d n r = ap (map (λ a. a.1)) (
    filter-append (λ a. text_eq a.0 other) d.upload_artifacts rows
    ∙ ap (λ l. filter (λ a. text_eq a.0 other) d.upload_artifacts ++ l)
        (filter-no (λ a. text_eq a.0 other) rows
          (All-map _ _ rows (λ a e. ground (arith, text_eq_iff a.0 other)) r))
    ∙ append-nil (filter (λ a. text_eq a.0 other) d.upload_artifacts))

-- The new upload sees its rows, and no others.
add_upload-own :
    (id : Text) (u : ActiveUploadRow) (m : ManifestRow) (rows : List ArtifactRow) (d : Database)
    → All (λ a. a.0 ≢ id) d.upload_artifacts
    → All (λ a. a.0 ≡ id) rows
    → get_upload_artifacts id (add_upload u m rows d) ≡ map (λ a. a.1) rows
unfolding get_upload_artifacts
add_upload-own id u m rows d f r = ap (map (λ a. a.1)) (
    filter-append (λ a. text_eq a.0 id) d.upload_artifacts rows
    ∙ ap (λ l. l ++ filter (λ a. text_eq a.0 id) rows)
        (filter-no (λ a. text_eq a.0 id) d.upload_artifacts
          (All-map _ _ d.upload_artifacts (λ a e. ground (arith, text_eq_iff a.0 id)) f))
    ∙ filter-every (λ a. text_eq a.0 id) rows
        (All-map _ _ rows (λ a e. ground (arith, text_eq_iff a.0 id)) r))

initial-uploaded :
    (counts : List ℕ) → initial_status counts ≡ artifact_uploaded → all (λ c. c == 0) counts ≡ true
initial-uploaded counts h = ground (arith, h)

pub add_upload-IsSound :
    (u : ActiveUploadRow) (m : ManifestRow) (artifacts : List Artifact) (counts : List ℕ)
    (rows : List ArtifactRow) (d : Database)
    → IsSound d
    → IsFresh u.id d
    → u.status ≡ initial_status counts
    → length artifacts ≡ length counts
    → upload_artifact_rows u.id 0 artifacts counts ≡ ok rows
    → IsSound (add_upload u m rows d)
add_upload-IsSound u m artifacts counts rows d s f st l h =
    let (own, complete) = new_artifacts u.id 0 artifacts counts d.upload_chunks rows l h in
    record {
      columns = s.columns;
      unique = s.unique;
      statuses = append-All _ d.uploads (u ∷ []) (kept d.uploads f.no_upload s.statuses own) (
        λ e _.
            subst (All (HasEveryChunk u.id d.upload_chunks))
              (sym (add_upload-own u.id u m rows d f.no_artifact own))
              (complete (initial-uploaded counts (sym st ∙ e))),
        tt,
      );
    }
  where
    kept :
        (us : List ActiveUploadRow)
        → All (λ v. v.id ≢ u.id) us
        → All (StatusHolds d) us
        → All (λ a. a.0 ≡ u.id) rows
        → All (StatusHolds (add_upload u m rows d)) us
    kept [] n k own = tt
    kept (v ∷ us) n k own = (
      StatusHolds-grows d (add_upload u m rows d) v
          (sym (add_upload-other u.id v.id u m rows d n.0 own)) (λ _ _ t. t) k.0,
      kept us n.1 k.1 own,
    )
