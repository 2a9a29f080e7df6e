-- ===== src/Chunks/Cover.antt =====
-- The chunks of an artifact cover it exactly, and the layout accepts what the limits allow.
use patwari.Prelude.{
  ApiResult, Bool-cases, ap, arith, err, i64_bound, inl, inr, invalid, ok, pos, refl, suc, zero, ℕ,
  ◌*◌, ◌+◌, ◌-◌, ◌/◌, ◌<◌, ◌==◌, ◌>>=◌, ◌≡◌, ◌≤◌,
}
use patwari.Chunks.{max_chunk_count, UploadArtifactRow, chunk_count, expected_chunk_length}

-- The number of chunks that are started, for a size that is not 0.
started : (s c : ℕ) → 0 < s → 0 < c → (s ≤ ((s - 1) / c + 1) * c) × (((s - 1) / c + 1) * c < s + c)
started s c p q = grind arith

lt-cancel : (a b c : ℕ) → a * c < b * c + c → a ≤ b
lt-cancel a b c h = grind arith

-- A count that is accepted is the least number of chunks that hold the artifact, and is bounded.
pub chunk_count-bounds :
    (s c : ℕ) {n : ℕ}
    → chunk_count s c ≡ ok n
    → (s ≤ n * c) × (n * c < s + c) × (n ≤ max_chunk_count)
unfolding chunk_count
chunk_count-bounds s c {n} h = ground (arith, started s c)

-- Every artifact of at most `max_chunk_count` chunks is accepted.
pub chunk_count-accepts :
    (s c : ℕ) → 0 < c → s ≤ max_chunk_count * c → (n : ℕ) × (chunk_count s c ≡ ok n)
unfolding chunk_count
chunk_count-accepts zero c p h = (0, ground arith)
chunk_count-accepts (suc s) c p h =
    let few : (suc s - 1) / c + 1 ≤ max_chunk_count =
      lt-cancel _ max_chunk_count c (omega (arith, started (suc s) c)) in
    ((suc s - 1) / c + 1, ground arith)

c_pos : (s c : ℕ) {n : ℕ} → chunk_count s c ≡ ok n → 0 < c
unfolding chunk_count
c_pos s c h = ground arith

-- A row whose columns were written for an artifact of `s` bytes in chunks of `c` bytes.
pub record IsRowOf (row : UploadArtifactRow) (s c : ℕ) : Type 0 where
  pub chunks : ℕ
  pub counted : chunk_count s c ≡ ok chunks
  pub bounded : s < i64_bound
  pub size_column : row.stored_size_bytes ≡ pos s
  pub count_column : row.chunk_count ≡ pos chunks

offset : (i n c s : ℕ) → i < n → n * c < s + c → i * c < s
offset i n c s h k = grind arith

-- The sum of the lengths that `f` gives for the indexes below a bound.
abbrev pub total_length : (ℕ → ApiResult ℕ) → ℕ → ApiResult ℕ
total_length f zero = ok 0
total_length f (suc i) = do t ← total_length f i; l ← f i; ok (t + l)

next_offset : (i c : ℕ) → i * c + c ≡ suc i * c
next_offset i c = omega arith

last_part :
    (i n c s : ℕ)
    → suc i ≡ n
    → s ≤ n * c
    → n * c < s + c
    → (i * c + (s - i * c) ≡ s) × (0 < s - i * c) × (s - i * c ≤ c)
last_part i n c s e h k =
    let d : n * c ≡ i * c + c = rw (← e) (omega arith) in (omega arith, omega arith, omega arith)

module _ (row : UploadArtifactRow) (s c : ℕ) (r : IsRowOf row s c) where
  inner_chunk : (i : ℕ) → suc i < r.chunks → expected_chunk_length (pos c) row i ≡ ok c
  unfolding expected_chunk_length
  inner_chunk i h =
      let below = offset i r.chunks c s (omega arith) (chunk_count-bounds s c r.counted).1 in
      rw (r.count_column, r.size_column) (ground (arith, r.bounded))

  last_chunk : (i : ℕ) → suc i ≡ r.chunks → expected_chunk_length (pos c) row i ≡ ok (s - i * c)
  unfolding expected_chunk_length
  last_chunk i h =
      let below = offset i r.chunks c s (omega arith) (chunk_count-bounds s c r.counted).1 in
      rw (r.count_column, r.size_column) (ground (arith, r.bounded))

  outer_chunk :
      (i : ℕ)
      → r.chunks ≤ i
      → expected_chunk_length (pos c) row i
        ≡ err (invalid "chunk index is outside the negotiated artifact range")
  unfolding expected_chunk_length
  outer_chunk i h = rw (r.count_column, r.size_column) (ground arith)

  inner_total :
      (i : ℕ) → i < r.chunks → total_length (expected_chunk_length (pos c) row) i ≡ ok (i * c)
  inner_total zero h = ap ok (omega arith)
  inner_total (suc i) h =
      rw (inner_total i (omega arith), inner_chunk i h) (ap ok (next_offset i c))

  whole_total : (n : ℕ) → n ≡ r.chunks → total_length (expected_chunk_length (pos c) row) n ≡ ok s
  whole_total zero h = ground (arith, chunk_count-bounds s c r.counted)
  whole_total (suc i) h =
      let (big, small, _) = chunk_count-bounds s c r.counted in
      rw (inner_total i (omega arith), last_chunk i h)
        (ap ok (last_part i r.chunks c s h big small).0)

  -- The lengths that the server expects for the negotiated chunk indexes add up to the stored
  -- size of the artifact.
  pub total-expected_chunk_length : total_length (expected_chunk_length (pos c) row) r.chunks ≡ ok s
  total-expected_chunk_length = whole_total r.chunks refl

  -- The server expects a length for exactly the negotiated indexes, and then a chunk that is not
  -- empty and is at most the negotiated chunk size; beyond them it answers with the range error.
  pub expected_chunk_length-range :
      (i : ℕ)
      → (i < r.chunks → (l : ℕ) × (expected_chunk_length (pos c) row i ≡ ok l) × (0 < l) × (l ≤ c))
        × (r.chunks ≤ i
            → expected_chunk_length (pos c) row i
              ≡ err (invalid "chunk index is outside the negotiated artifact range"))
  expected_chunk_length-range i = (
    λ h. elim (Bool-cases (suc i == r.chunks)) [
      | inl e ↦
          let (big, small, _) = chunk_count-bounds s c r.counted in
          let last = last_part i r.chunks c s (ground arith) big small in
          (s - i * c, last_chunk i (ground arith), last.1, last.2)
      | inr e ↦ (c, inner_chunk i (ground arith), c_pos s c r.counted, omega arith)
    ],
    outer_chunk i,
  )
