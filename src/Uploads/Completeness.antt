-- ===== src/Uploads/Completeness.antt =====
-- `upload_is_complete` (crates/patwari-server/src/ingestion.rs): a count, a minimum and a maximum
-- decide whether every chunk has arrived.
use patwari.Prelude.{
  All, Bool-cases, List, [], arith, false, if◌then◌else◌, inl, inr, length, length-map, ltb, map,
  not, pos, refl, some, subst, suc, sym, true, zero, ℕ, ◌+◌, ◌-◌, ◌<◌, ◌==◌, ◌↔◌, ◌∙◌, ◌∷◌, ◌≡◌,
  ◌≤◌,
}
use patwari.Uploads.Counting.{Distinct, elem, elem-full, length-full}
use patwari.Uploads.Record.{expected_last, lacks_chunks, max_index, min_index, option_int_eq}

abbrev largest : ℕ → List ℕ → ℕ
largest k [] = k
largest k (j ∷ ks) = if ltb k (largest j ks) then largest j ks else k

abbrev least : ℕ → List ℕ → ℕ
least k [] = k
least k (j ∷ ks) = if ltb (least j ks) k then least j ks else k

max_index-pos : (k : ℕ) (ks : List ℕ) → max_index (map pos (k ∷ ks)) ≡ some (pos (largest k ks))
unfolding max_index
max_index-pos k [] = refl
max_index-pos k (j ∷ ks) = ground (arith, max_index-pos j ks)

min_index-pos : (k : ℕ) (ks : List ℕ) → min_index (map pos (k ∷ ks)) ≡ some (pos (least k ks))
unfolding min_index
min_index-pos k [] = refl
min_index-pos k (j ∷ ks) = ground (arith, min_index-pos j ks)

largest-bounds : (k : ℕ) (ks : List ℕ) → All (λ i. i < largest k ks + 1) (k ∷ ks)
largest-bounds k [] = ground arith
largest-bounds k (j ∷ ks) = (
  ground arith,
  weaken (largest j ks) (largest k (j ∷ ks)) (j ∷ ks) (ground arith) (largest-bounds j ks),
)
  where
    weaken : (a b : ℕ) (l : List ℕ) → a ≤ b → All (λ i. i < a + 1) l → All (λ i. i < b + 1) l
    weaken a b [] h l = tt
    weaken a b (i ∷ is) h l = (omega (arith, l.0), weaken a b is h l.1)

elem-largest : (k : ℕ) (ks : List ℕ) → elem (largest k ks) (k ∷ ks) ≡ true
elem-largest k [] = ground arith
elem-largest k (j ∷ ks) = ground (arith, elem-largest j ks)

elem-least : (k : ℕ) (ks : List ℕ) → elem (least k ks) (k ∷ ks) ≡ true
elem-least k [] = ground arith
elem-least k (j ∷ ks) = ground (arith, elem-least j ks)

least-bounds : (i k : ℕ) (ks : List ℕ) → elem i (k ∷ ks) ≡ true → least k ks ≤ i
least-bounds i k [] h = ground arith
least-bounds i k (j ∷ ks) h = ground (arith, least-bounds i j ks)

matches_last : (n m : ℕ) → option_int_eq (some (pos m)) (expected_last (pos n)) ≡ (m + 1 == n)
matches_last zero m = ground arith
matches_last (suc n) m = ground arith

-- What the test of an artifact comes to: as many chunks as there should be, the smallest index 0
-- and the largest the last.
lacks_chunks-some :
    (n k : ℕ) (ks : List ℕ)
    → (lacks_chunks (pos n) (map pos (k ∷ ks)) ≡ false)
      ↔ ((length (k ∷ ks) ≡ n) × (least k ks ≡ 0) × (largest k ks + 1 ≡ n))
unfolding lacks_chunks
lacks_chunks-some n k ks = rw (max_index-pos k ks) (
    rw (min_index-pos k ks)
      (rw (matches_last n (largest k ks)) (ground (arith, length-map ks pos))))

lacks_chunks-none : (n : ℕ) → lacks_chunks (pos n) [] ≡ not (n == 0)
unfolding lacks_chunks min_index max_index
lacks_chunks-none n = ground arith

All-elem : {n : ℕ} (ks : List ℕ) → ((i : ℕ) → elem i ks ≡ true → i < n) → All (λ i. i < n) ks
All-elem [] h = tt
All-elem (k ∷ ks) h = (h k (ground arith), All-elem ks (λ i e. h i (ground arith)))

elem-All : {n : ℕ} (i : ℕ) (ks : List ℕ) → All (λ k. k < n) ks → elem i ks ≡ true → i < n
elem-All i [] a h = cc
elem-All {n} i (k ∷ ks) a h = ground (arith, elem-All {n = n} i ks)

full-numbers :
    (n k : ℕ) (ks : List ℕ)
    → Distinct (k ∷ ks)
    → length (k ∷ ks) ≡ n
    → largest k ks + 1 ≡ n
    → (i : ℕ) → elem i (k ∷ ks) ≡ ltb i n
full-numbers n k ks d l m i =
    let bound = subst (λ b. All (λ j. j < b) (k ∷ ks)) m (largest-bounds k ks) in
    elim (Bool-cases (ltb i n)) [
      | inl t ↦ elem-full n (k ∷ ks) d bound l i (ground arith) ∙ sym t
      | inr f ↦ elim (Bool-cases (elem i (k ∷ ks))) [
        | inl e ↦ ground (arith, elem-All i (k ∷ ks) bound e)
        | inr e ↦ e ∙ sym f
      ]
    ]

numbers-full :
    (n k : ℕ) (ks : List ℕ)
    → Distinct (k ∷ ks)
    → ((i : ℕ) → elem i (k ∷ ks) ≡ ltb i n)
    → (length (k ∷ ks) ≡ n) × (least k ks ≡ 0) × (largest k ks + 1 ≡ n)
numbers-full n k ks d h =
    let some_chunk : k < n =
      elem-All k (k ∷ ks) (All-elem (k ∷ ks) (λ i e. ground (arith, h i))) (ground arith) in
    let top : largest k ks < n = ground (arith, h (largest k ks), elem-largest k ks) in
    let last_one : n - 1 < largest k ks + 1 =
      elem-All (n - 1) (k ∷ ks) (largest-bounds k ks) (ground (arith, h (n - 1))) in
    let first_one : least k ks ≤ 0 = least-bounds 0 k ks (ground (arith, h 0)) in
    (
      length-full n (k ∷ ks) d (All-elem (k ∷ ks) (λ i e. ground (arith, h i)))
          (λ i b. ground (arith, h i)),
      omega arith,
      omega arith,
    )

-- For the distinct indexes of the chunks that an artifact has, the test of their count, minimum
-- and maximum passes just when they are all the numbers below the chunk count.
pub lacks_chunks_iff :
    (n : ℕ) (ks : List ℕ)
    → Distinct ks
    → (lacks_chunks (pos n) (map pos ks) ≡ false) ↔ ((i : ℕ) → elem i ks ≡ ltb i n)
lacks_chunks_iff n [] d =
    (λ h i. ground (arith, lacks_chunks-none n), λ h. ground (arith, lacks_chunks-none n, h 0))
lacks_chunks_iff n (k ∷ ks) d = (
  λ h i. let (l, _, m) = (lacks_chunks-some n k ks).0 h in full-numbers n k ks d l m i,
  λ h. (lacks_chunks-some n k ks).1 (numbers-full n k ks d h),
)
