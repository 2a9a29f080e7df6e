-- ===== src/Completion/Projection.antt =====
-- The rows that `persist_upload` writes pass the check of `complete_upload` against the manifest
-- (crates/patwari-server/src/ingestion.rs).
use patwari.Prelude.{
  ==_iff, Bool-cases, List, Option, Option-cases, Result-cases, Text, [], ap, arith, checked_add,
  false, i64_bound, inl, inr, int_eq_refl, length, length-map, ltb, ltb→lt, lt→ltb, map, none, ok,
  ok-injective, pos, refl, some, subst, suc, sym, text_eq, text_eq_iff, true, ℕ, ℤ, ◌+◌, ◌<◌, ◌∙◌,
  ◌∷◌, ◌≡◌,
}
use patwari.Chunks.{UploadArtifactRow, chunk_count, to_sqlite_i64}
use patwari.Completion.Checks.{
  check_projection, differs_from, option_text_eq, validate_upload_projection,
}
use patwari.Contract.{Artifact, Manifest}
use patwari.Digest.{compression_name, digest_storage_value}
use patwari.Uploads.Create.{upload_artifact, upload_artifact_rows}
use patwari.Uploads.Layout.{UploadLayout, layout_counts, max_snapshot_chunk_count, upload_layout}
use patwari.Uploads.NewRow.{upload_row}
use patwari.Uploads.Reuse.{Creation}
use patwari.Uploads.World.{ActiveUploadRow, ArtifactRow}
use patwari.Validation.Manifest.{manifest_totals}

to_sqlite_i64_below : (n : ℕ) → ltb n i64_bound ≡ true → to_sqlite_i64 n ≡ ok (pos n)
unfolding to_sqlite_i64
to_sqlite_i64_below n h = ground (arith, h)

option_text_eq_refl : (o : Option Text) → option_text_eq o o ≡ true
option_text_eq_refl none = refl
option_text_eq_refl (some t) = (text_eq_iff t t).1 refl

text_eq_refl : (t : Text) → text_eq t t ≡ true
text_eq_refl t = (text_eq_iff t t).1 refl

abbrev written : ℕ → Artifact → ℤ → ℤ → ℤ → UploadArtifactRow
written index a original stored chunks = record {
  artifact_index = pos index;
  logical_path = a.logical_path;
  media_type = a.media_type;
  original_size_bytes = original;
  original_sha256 = digest_storage_value a.original_sha256;
  stored_size_bytes = stored;
  stored_sha256 = digest_storage_value a.stored_sha256;
  compression = compression_name a.compression;
  chunk_count = chunks;
}

written_differs :
    (chunk_size index : ℕ) (a : Artifact) (count : ℕ) {original stored chunks : ℤ}
    → ltb index i64_bound ≡ true
    → to_sqlite_i64 a.original_size_bytes ≡ ok original
    → to_sqlite_i64 a.stored_size_bytes ≡ ok stored
    → chunk_count a.stored_size_bytes chunk_size ≡ ok count
    → to_sqlite_i64 count ≡ ok chunks
    → differs_from chunk_size index a (written index a original stored chunks) ≡ ok false
unfolding differs_from
written_differs chunk_size index a count {original} {stored} {chunks} h y z c w =
    let o = int_eq_refl original in
    let p = int_eq_refl stored in
    let q = int_eq_refl chunks in
    rw h (
      rw (int_eq_refl (pos index)) (
        rw (option_text_eq_refl a.media_type) (
          rw (text_eq_refl a.logical_path) (
            rw y (
              rw o (
                rw (text_eq_refl (digest_storage_value a.original_sha256)) (
                  rw z (
                    rw p (
                      rw (text_eq_refl (digest_storage_value a.stored_sha256)) (
                        rw (text_eq_refl (compression_name a.compression))
                          (rw c (rw w (rw q refl)))))))))))))

-- A row that was written for an artifact does not differ from it.
row_differs :
    (id : Text) (chunk_size index : ℕ) (a : Artifact) (count : ℕ) {row : ArtifactRow}
    → ltb index i64_bound ≡ true
    → chunk_count a.stored_size_bytes chunk_size ≡ ok count
    → upload_artifact id index a count ≡ ok row
    → differs_from chunk_size index a row.1 ≡ ok false
unfolding upload_artifact differs_from
row_differs id chunk_size index a count {row} h c e =
    elim (Result-cases (to_sqlite_i64 a.original_size_bytes)) [
      | inl (x, y) ↦ ground (arith, y, e)
      | inr (original, y) ↦ elim (Result-cases (to_sqlite_i64 a.stored_size_bytes)) [
        | inl (x, z) ↦ ground (arith, y, z, e)
        | inr (stored, z) ↦ elim (Result-cases (to_sqlite_i64 count)) [
          | inl (x, w) ↦ ground (arith, y, z, w, e)
          | inr (chunks, w) ↦
              let is : (id, written index a original stored chunks) ≡ row =
                ground (arith, y, z, w, e) in
              subst (λ r. differs_from chunk_size index a r.1 ≡ ok false) is
                (written_differs chunk_size index a count h y z c w)
        ]
      ]
    ]

layout_counts-cons :
    (a : Artifact) (artifacts : List Artifact) (chunk_size total : ℕ) {counts : List ℕ}
    → layout_counts (a ∷ artifacts) chunk_size total ≡ ok counts
    → (count : ℕ) × (rest : List ℕ) × (sum : ℕ) × (chunk_count a.stored_size_bytes chunk_size
        ≡ ok count)
      × (layout_counts artifacts chunk_size sum ≡ ok rest)
      × (counts ≡ count ∷ rest)
unfolding layout_counts
layout_counts-cons a artifacts chunk_size total e =
    elim (Result-cases (chunk_count a.stored_size_bytes chunk_size)) [
      | inl (x, y) ↦ ground (arith, y, e)
      | inr (count, y) ↦ elim (Option-cases (checked_add total count)) [
        | inl z ↦ ground (arith, y, z, e)
        | inr (sum, z) ↦ elim (Bool-cases (ltb max_snapshot_chunk_count sum)) [
          | inl t ↦ ground (arith, y, z, t, e)
          | inr f ↦ elim (Result-cases (layout_counts artifacts chunk_size sum)) [
            | inl (x, w) ↦ ground (arith, y, z, f, w, e)
            | inr (rest, w) ↦ (count, rest, sum, y, w, ground (arith, y, z, f, w, e))
          ]
        ]
      ]
    ]

upload_artifact_rows-cons :
    (id : Text) (index : ℕ) (a : Artifact) (artifacts : List Artifact) (count : ℕ) (counts : List ℕ)
    {rows : List ArtifactRow}
    → upload_artifact_rows id index (a ∷ artifacts) (count ∷ counts) ≡ ok rows
    → (row : ArtifactRow) × (rest : List ArtifactRow) × (upload_artifact id index a count ≡ ok row)
      × (upload_artifact_rows id (index + 1) artifacts counts ≡ ok rest)
      × (rows ≡ row ∷ rest)
unfolding upload_artifact_rows
upload_artifact_rows-cons id index a artifacts count counts e =
    elim (Result-cases (upload_artifact id index a count)) [
      | inl (x, y) ↦ ground (arith, y, e)
      | inr (row, y) ↦ elim (Result-cases (upload_artifact_rows id (index + 1) artifacts counts)) [
        | inl (x, z) ↦ ground (arith, y, z, e)
        | inr (rest, z) ↦ (row, rest, y, z, ground (arith, y, z, e))
      ]
    ]

-- The rows of a whole manifest, from an index on.
rows_projection :
    (id : Text) (chunk_size index : ℕ) (artifacts : List Artifact) (counts : List ℕ) (total : ℕ)
    {rows : List ArtifactRow}
    → index + length artifacts < i64_bound
    → layout_counts artifacts chunk_size total ≡ ok counts
    → upload_artifact_rows id index artifacts counts ≡ ok rows
    → (length rows ≡ length artifacts)
      × (check_projection chunk_size index artifacts (map (λ r. r.1) rows) ≡ ok tt)
unfolding layout_counts upload_artifact_rows check_projection
rows_projection id chunk_size index [] counts total {rows} b l e =
    let none_left : rows ≡ [] = sym (ok-injective e) in (ap length none_left, refl)
rows_projection id chunk_size index (a ∷ artifacts) counts total {rows} b l e =
    let (count, counts', sum, c, l', cs) =
      layout_counts-cons a artifacts chunk_size total {counts = counts} l in
    let (row, rest, r, e', rs) =
      upload_artifact_rows-cons id index a artifacts count counts' {rows = rows}
        (subst (λ x. upload_artifact_rows id index (a ∷ artifacts) x ≡ ok rows) cs e) in
    let (n, checked) =
      rows_projection id chunk_size (index + 1) artifacts counts' sum {rows = rest}
        (omega (arith, b)) l' e' in
    let passes =
      row_differs id chunk_size index a count {row = row}
        (lt→ltb index i64_bound (omega (arith, b))) c r in
    rw rs (ap suc n, rw passes checked)

upload_row-columns :
    (c : Creation) (s k i h : Text) (m : Manifest) (l : UploadLayout) {row : ActiveUploadRow}
    → upload_row c s k i h m l ≡ ok row
    → (row.artifact_count ≡ pos (length m.artifacts))
      × (ltb (length m.artifacts) i64_bound ≡ true)
      × (row.chunk_size_bytes ≡ pos c.chunk_size_bytes)
unfolding upload_row to_sqlite_i64
upload_row-columns c s k i h m l {row} e = ground arith

upload_layout-counts :
    (m : Manifest) (chunk_size : ℕ) {layout : UploadLayout}
    → upload_layout m chunk_size ≡ ok layout
    → layout_counts m.artifacts chunk_size 0 ≡ ok layout.chunk_counts
unfolding upload_layout
upload_layout-counts m chunk_size {layout} e = elim (Result-cases (manifest_totals m)) [
  | inl (x, y) ↦ ground (arith, y, e)
  | inr (t, y) ↦ elim (Result-cases (layout_counts m.artifacts chunk_size 0)) [
    | inl (x, z) ↦ ground (arith, y, z, e)
    | inr (counts, z) ↦ ground (arith, y, z, e)
  ]
]

-- The rows that the creation of an upload writes for a manifest and its negotiated chunk size pass the
-- check that its completion makes of them against the same manifest.
pub validate_upload_projection-created :
    (creation : Creation) (session client capture digest : Text) (manifest : Manifest)
    {layout : UploadLayout} {upload : ActiveUploadRow} {rows : List ArtifactRow}
    → upload_layout manifest creation.chunk_size_bytes ≡ ok layout
    → upload_row creation session client capture digest manifest layout ≡ ok upload
    → upload_artifact_rows upload.id 0 manifest.artifacts layout.chunk_counts ≡ ok rows
    → validate_upload_projection manifest (map (λ r. r.1) rows) upload ≡ ok tt
unfolding validate_upload_projection
validate_upload_projection-created creation session client capture digest manifest {layout} {upload}
      {rows} l u e =
    let (count, bound, size) =
      upload_row-columns creation session client capture digest manifest layout {row = upload} u in
    let (n, checked) =
      rows_projection upload.id creation.chunk_size_bytes 0 manifest.artifacts layout.chunk_counts 0
        {rows = rows} (omega (arith, ltb→lt (length manifest.artifacts) i64_bound bound))
        (upload_layout-counts manifest creation.chunk_size_bytes l) e in
    let m : length (map (λ r. r.1) rows) ≡ length manifest.artifacts =
      length-map rows (λ r. r.1) ∙ n in
    rw m (
      rw count (
        rw size (
          rw bound (
            rw ((==_iff (length manifest.artifacts) (length manifest.artifacts)).1 refl) checked))))
