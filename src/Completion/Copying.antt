-- ===== src/Completion/Copying.antt =====
-- The loops of `assemble_artifact` over the chunks and over the reads of their files
-- (crates/patwari-server/src/ingestion.rs).
use patwari.Prelude.{
  ◌>>◌, ==_iff, >>=-eq-ok, Bool, Bool-cases, List, Text, [], ap, append-nil, append_assoc, arith,
  checked_add, checked_add-eq_some, conflict, false, inl, inr, int_eq, int_eq_iff, internal,
  invalid, length, length-append, ltb, map, none, not, ok, ok-injective, ok_or, ok_or-eq-ok, pos,
  refl, reject_if, reject_if-eq-ok, some, subst, sym, text_eq, to_u64, to_u64-eq_some, true, ℕ, ℤ,
  ◌++◌, ◌+◌, ◌<◌, ◌==◌, ◌||◌, ◌∙◌, ◌∷◌, ◌≡◌, ◌≤◌,
}
use patwari.Chunks.{UploadArtifactRow, expected_chunk_length, to_sqlite_i64}
use patwari.Completion.Assemble.{
  Copied, chunk_checksum_error, chunk_missing, copy_blocks, copy_chunks, is_chunk_file,
}
use patwari.Completion.Layout.{check_layout, or_else}
use patwari.Completion.{ReadsAll, Streams, join}
use patwari.Digest.{digest_document_value, hex_digest}
use patwari.Uploads.Invariant.{to_nat}
use patwari.Uploads.Status.{indexes_from}
use patwari.Uploads.World.{ChunkFile, ChunkRow, find}
use patwari.Validation.Fields.{validate_digest}

pub not-false : (b : Bool) → not b ≡ false → b ≡ true
not-false true h = refl
not-false false h = ground (arith, h)

to_sqlite_i64-eq_pos : (n : ℕ) {c : ℤ} → to_sqlite_i64 n ≡ ok c → c ≡ pos n
unfolding to_sqlite_i64
to_sqlite_i64-eq_pos n h = ground (arith, h)

-- The rows have the indexes from `k` on, and the lengths that the layout expects.
abbrev pub AreLaid : ℤ → UploadArtifactRow → ℕ → List ChunkRow → Type 0
AreLaid size artifact k [] = Unit
AreLaid size artifact k (row ∷ rows) =
    (row.chunk_index ≡ pos k)
    × ((l : ℕ) × (expected_chunk_length size artifact k ≡ ok l) × (row.byte_length ≡ pos l))
    × AreLaid size artifact (k + 1) rows

pub check_layout-AreLaid :
    (size : ℤ) (artifact : UploadArtifactRow) (k : ℕ) (rows : List ChunkRow) {u : Unit {0}}
    → check_layout size artifact k rows ≡ ok u
    → AreLaid size artifact k rows
unfolding check_layout
check_layout-AreLaid size artifact k [] e = tt
check_layout-AreLaid size artifact k (row ∷ rows) e =
    let (actual, x, e1) = >>=-eq-ok (ok_or (to_u64 row.chunk_index) internal) _ e in
    let (l, y, e2) =
      >>=-eq-ok
        (reject_if (not (actual == k))
            (conflict "artifact_incomplete" "accepted chunks contain a gap or overlap")
          >> expected_chunk_length size artifact actual)
        _ e1 in
    let (same, y') = reject_if-eq-ok (not (actual == k)) _ _ y in
    let (column, z, e3) = >>=-eq-ok (to_sqlite_i64 l) _ e2 in
    let (_, w, e4) =
      >>=-eq-ok
        (reject_if (not (int_eq row.byte_length column)) (
            conflict "chunk_layout_invalid"
              "accepted chunk length does not match the negotiated layout")
          >> or_else (validate_digest (digest_document_value row.sha256)) (
              conflict "chunk_layout_invalid"
                "accepted chunk checksum does not match the negotiated layout"))
        _ e3 in
    let (equal, _) = reject_if-eq-ok (not (int_eq row.byte_length column)) _ _ w in
    let index = (==_iff actual k).0 (not-false (actual == k) same) in
    (
      to_u64-eq_some row.chunk_index (ok_or-eq-ok _ _ x) ∙ ap pos index,
      (
        l,
        subst (λ i. expected_chunk_length size artifact i ≡ ok l) index y',
        (int_eq_iff row.byte_length column).0 (not-false _ equal) ∙ to_sqlite_i64-eq_pos l z,
      ),
      check_layout-AreLaid size artifact (k + 1) rows e4,
    )

pub copy_blocks-Copied :
    (expected stored : ℕ) (blocks : List Text) (c : Copied) {d : Copied}
    → copy_blocks expected stored blocks c ≡ ok d
    → (d.chunk_bytes ≡ c.chunk_bytes ++ join blocks)
      × (d.artifact_bytes ≡ c.artifact_bytes ++ join blocks)
      × (d.chunk_size ≡ c.chunk_size + length (join blocks))
      × (d.artifact_size ≡ c.artifact_size + length (join blocks))
unfolding copy_blocks join checked_add
copy_blocks-Copied expected stored [] c {d} e =
    let same : d ≡ c = sym (ok-injective e) in
    rw same
      (sym (append-nil c.chunk_bytes), sym (append-nil c.artifact_bytes), omega arith, omega arith)
copy_blocks-Copied expected stored (block ∷ blocks) c {d} e =
    let (chunk_size, x, e1) =
      >>=-eq-ok (ok_or (checked_add c.chunk_size (length block)) (invalid "chunk size is invalid"))
        _ e in
    let (artifact_size, y, e2) =
      >>=-eq-ok
        (reject_if (ltb expected chunk_size) chunk_checksum_error
          >> ok_or (checked_add c.artifact_size (length block))
              (invalid "artifact size is invalid"))
        _ e1 in
    let (_, y') = reject_if-eq-ok (ltb expected chunk_size) _ _ y in
    let (_, e3) = reject_if-eq-ok (ltb stored artifact_size) _ _ e2 in
    let (h1, h2, h3, h4) = copy_blocks-Copied expected stored blocks _ {d = d} e3 in
    let s1 = checked_add-eq_some c.chunk_size (length block) (ok_or-eq-ok _ _ x) in
    let s2 = checked_add-eq_some c.artifact_size (length block) (ok_or-eq-ok _ _ y') in
    (
      h1 ∙ append_assoc c.chunk_bytes block (join blocks),
      h2 ∙ append_assoc c.artifact_bytes block (join blocks),
      omega (arith, h3, s1, length-append block (join blocks)),
      omega (arith, h4, s2, length-append block (join blocks)),
    )

-- The content of the file of a chunk.
abbrev pub chunk_text : Text → ℕ → List ChunkFile → ℕ → Text
chunk_text id artifact files chunk = elim (find (is_chunk_file id artifact chunk) files) [
  | none ↦ []
  | some file ↦ file.content
]

-- Those of the chunks from `k` on.
abbrev pub chunk_texts : Text → ℕ → List ChunkFile → ℕ → ℕ → List Text
chunk_texts id artifact files k n = map (chunk_text id artifact files) (indexes_from k n)

joined :
    {b w : Text} (written t rest : Text)
    → b ≡ written ++ t
    → w ≡ b ++ rest
    → w ≡ written ++ (t ++ rest)
joined written t rest h k = k ∙ ap (λ x. x ++ rest) h ∙ append_assoc written t rest

totalled :
    {b s : ℕ} (size : ℕ) (t rest : Text)
    → b ≡ size + length t
    → s ≡ b + length rest
    → s ≡ size + length (t ++ rest)
totalled size t rest h k = omega (arith, h, k, length-append t rest)

plus_zero : (n : ℕ) → n ≡ n + 0
plus_zero n = omega arith

pub as_expected : (m n : ℕ) (b : Bool) → (not (m == n) || b) ≡ false → m ≡ n
as_expected m n b h = ground (arith, h)

pub as_equal : (a b : Bool) → (a || not b) ≡ false → b ≡ true
as_equal a b h = ground (arith, h)

pos-injective : {m n : ℕ} → pos m ≡ pos n → m ≡ n
pos-injective e = ap to_nat e

module _ (streams : Streams) (reads_all : ReadsAll streams) where
  copied-text :
      (id : Text) (index stored : ℕ) (files : List ChunkFile) (row : ChunkRow) (expected k size : ℕ)
      (written : Text) {chunk_index : ℕ} {file : ChunkFile} {c : Copied}
      → row.chunk_index ≡ pos k
      → to_u64 row.chunk_index ≡ some chunk_index
      → find (is_chunk_file id index chunk_index) files ≡ some file
      → copy_blocks expected stored (streams.read_file file.content) (record {
        chunk_size = 0;
        chunk_bytes = [];
        artifact_size = size;
        artifact_bytes = written;
      })
        ≡ ok c
      → (c.chunk_size ≡ length (chunk_text id index files k))
        × (c.artifact_bytes ≡ written ++ chunk_text id index files k)
        × (c.artifact_size ≡ size + length (chunk_text id index files k))
  copied-text id index stored files row expected k size written {chunk_index} {file} {c} ix y z v =
      let same : chunk_index ≡ k = ap to_nat (sym (to_u64-eq_some row.chunk_index y) ∙ ix) in
      let (_, h2, h3, h4) =
        copy_blocks-Copied expected stored (streams.read_file file.content) _ v in
      let text : chunk_text id index files k ≡ join (streams.read_file file.content) =
        ap (λ o. elim o [ none ↦ [] | some f ↦ f.content ])
          (ap (λ i. find (is_chunk_file id index i) files) (sym same) ∙ z)
        ∙ sym (reads_all file.content) in
      rw text (h3 ∙ omega arith, h2, h4)

  pub copy_chunks-texts :
      (id : Text) (index stored : ℕ) (files : List ChunkFile) (cs : ℤ) (a : UploadArtifactRow)
      (k : ℕ) (rows : List ChunkRow) (size : ℕ) (written : Text) {s : ℕ} {w : Text}
      → AreLaid cs a k rows
      → copy_chunks streams id index stored files rows size written ≡ ok (s, w)
      → (w ≡ written ++ join (chunk_texts id index files k (length rows)))
        × (s ≡ size + length (join (chunk_texts id index files k (length rows))))
        × ((i : ℕ)
            → k ≤ i
            → i < k + length rows
            → expected_chunk_length cs a i ≡ ok (length (chunk_text id index files i)))
  unfolding copy_chunks indexes_from join
  copy_chunks-texts id index stored files cs a k [] size written {s} {w} laid e =
      let same : (s, w) ≡ (size, written) = sym (ok-injective e) in
      (
        ap (λ p. p.1) same ∙ sym (append-nil written),
        ap (λ p. p.0) same ∙ plus_zero size,
        λ i h l. absurd (omega arith),
      )
  copy_chunks-texts id index stored files cs a k (row ∷ rows) size written {s} {w}
        (ix, (l, le, lb), laid) e =
      let (expected, x, e1) = >>=-eq-ok (ok_or (to_u64 row.byte_length) internal) _ e in
      let (chunk_index, y, e2) = >>=-eq-ok (ok_or (to_u64 row.chunk_index) internal) _ e1 in
      let (file, z, e3) =
        >>=-eq-ok (ok_or (find (is_chunk_file id index chunk_index) files) chunk_missing) _ e2 in
      let (c, v, e4) =
        >>=-eq-ok
          (copy_blocks expected stored (streams.read_file file.content) (record {
            chunk_size = 0;
            chunk_bytes = [];
            artifact_size = size;
            artifact_bytes = written;
          }))
          _ e3 in
      let (eq, e5) =
        reject_if-eq-ok
          (not (c.chunk_size == expected)
            || not (text_eq (hex_digest (streams.sha256 c.chunk_bytes)) row.sha256))
          _ _ e4 in
      let (h1, h2, h3) =
        copied-text id index stored files row expected k size written ix (ok_or-eq-ok _ _ y)
          (ok_or-eq-ok _ _ z) v in
      let (r1, r2, r3) =
        copy_chunks-texts id index stored files cs a (k + 1) rows c.artifact_size c.artifact_bytes
          {s = s} {w = w} laid e5 in
      let fits : l ≡ length (chunk_text id index files k) =
        pos-injective (sym lb ∙ to_u64-eq_some row.byte_length (ok_or-eq-ok _ _ x))
        ∙ sym (as_expected c.chunk_size expected _ eq)
        ∙ h1 in
      (
        joined written (chunk_text id index files k) _ h2 r1,
        totalled size (chunk_text id index files k) _ h3 r2,
        λ i g b. elim (Bool-cases (k == i)) [
          | inl t ↦
              subst (λ j. expected_chunk_length cs a j ≡ ok (length (chunk_text id index files j)))
                ((==_iff k i).0 t) (le ∙ ap ok fits)
          | inr f ↦ r3 i (ground (arith, f, g)) (omega (arith, b))
        ],
      )
