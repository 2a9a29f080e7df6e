-- ===== src/Completion/Hashing.antt =====
-- When `hash_reader` and the comparison after it accept a stream
-- (crates/patwari-server/src/ingestion.rs).
use patwari.Prelude.{
  ==_iff, >>=-eq-ok, ApiError, Bool, Bool-cases, List, Text, [], ap, append-nil, append_assoc,
  arith, checked_add, checked_add-eq_some, false, inl, inr, invalid, leb, leb→le, length,
  length-append, ltb, not, ok, ok-injective, ok_or, ok_or-eq-ok, refl, reject_if, reject_if-eq-ok,
  some, sym, text_eq, text_eq_iff, true, u64_bound, ℕ, ◌++◌, ◌+◌, ◌<◌, ◌==◌, ◌||◌, ◌↔◌, ◌∙◌, ◌∷◌,
  ◌≡◌, ◌≢◌, ◌≤◌,
}
use patwari.Completion.Assemble.{hash_blocks, hash_reader}
use patwari.Completion.{Reader, Streams, join}
use patwari.Digest.{digest_storage_value, hex_digest}

-- What the reads deliver, as `hash_reader` reports it.
abbrev pub hashed_as : Streams → Text → ℕ × Text
hashed_as streams content = (length content, hex_digest (streams.sha256 content))

plus_zero : (n : ℕ) → n ≡ n + 0
plus_zero n = omega arith

added_up : (m n : ℕ) → m + n < u64_bound → checked_add m n ≡ some (m + n)
unfolding checked_add
added_up m n h = ground (arith, h)

contradicted : (max m n sum : ℕ) → max < m + n → sum ≡ m + n → ltb max sum ≡ false → ⊥
contradicted max m n sum h is fits = ground (arith, h, is, fits)

neither : (a b : Bool) → (not a || not b) ≡ false → (a ≡ true) × (b ≡ true)
neither a b h = ground (arith, h)

both : (a b : Bool) → a ≡ true → b ≡ true → (not a || not b) ≡ false
both a b h k = ground (arith, h, k)

pub not_rejected : (b : Bool) (e : ApiError) → reject_if b e ≡ ok tt → b ≡ false
not_rejected true e h = ground (arith, h)
not_rejected false e h = refl

totals :
    (block : Text) (blocks : List Text) (total : ℕ)
    → total + length block + length (join blocks) ≡ total + length (block ++ join blocks)
totals block blocks total = omega (arith, length-append block (join blocks))

over :
    (block : Text) (blocks : List Text) (total max : ℕ)
    → max < total + length block
    → total + length (block ++ join blocks) ≤ max
    → ⊥
over block blocks total max h k = omega (arith, h, k, length-append block (join blocks))

module _ (streams : Streams) where
  read_one :
      (block : Text) (blocks : List Text) (fails : Bool) (max : ℕ) (io_error : ApiError) (total : ℕ)
      (hashed : Text)
      → max < u64_bound
      → total + length block ≤ max
      → hash_blocks streams (block ∷ blocks) fails max io_error total hashed
        ≡ hash_blocks streams blocks fails max io_error (total + length block) (hashed ++ block)
  unfolding hash_blocks
  read_one block blocks fails max io_error total hashed b h =
      let added : checked_add total (length block) ≡ some (total + length block) =
        added_up total (length block) (omega (arith, b, h)) in
      let fits : ltb max (total + length block) ≡ false = ground (arith, h) in
      rw added (rw fits refl)

  too_long :
      (block : Text) (blocks : List Text) (fails : Bool) (max : ℕ) (io_error : ApiError) (total : ℕ)
      (hashed : Text) {r : ℕ × Text}
      → max < total + length block
      → hash_blocks streams (block ∷ blocks) fails max io_error total hashed ≢ ok r
  unfolding hash_blocks
  too_long block blocks fails max io_error total hashed h e =
      let (sum, x, e1) =
        >>=-eq-ok (ok_or (checked_add total (length block)) (invalid "artifact size is invalid")) _
          e in
      let (fits, _) = reject_if-eq-ok (ltb max sum) _ _ e1 in
      let is = checked_add-eq_some total (length block) (ok_or-eq-ok _ _ x) in
      contradicted max total (length block) sum h is.0 fits

  hash_blocks_iff :
      (blocks : List Text) (fails : Bool) (max : ℕ) (io_error : ApiError) (total : ℕ)
      (hashed : Text) {r : ℕ × Text}
      → max < u64_bound
      → total ≤ max
      → (hash_blocks streams blocks fails max io_error total hashed ≡ ok r) ↔ (
          (fails ≡ false)
          × (total + length (join blocks) ≤ max)
          × (r ≡ (
            total + length (join blocks),
            hex_digest (streams.sha256 (hashed ++ join blocks)),
          )))
  unfolding hash_blocks join checked_add
  hash_blocks_iff [] true max io_error total hashed b h =
      (λ e. ground (arith, e), λ h. ground (arith, h.0))
  hash_blocks_iff [] false max io_error total hashed {r} b h =
      (λ e. (refl, omega (arith, h), sym (ok-injective e) ∙ at_end), λ h. ap ok (at_end ∙ sym h.2))
    where
      at_end :
          ◌≡◌ {A = ℕ × Text}
            (total, hex_digest (streams.sha256 hashed))
            (total + 0, hex_digest (streams.sha256 (hashed ++ [])))
      at_end =
          rw (append-nil hashed)
            (ap (λ n. (n, hex_digest (streams.sha256 hashed))) (plus_zero total))
  hash_blocks_iff (block ∷ blocks) fails max io_error total hashed {r} b h =
      elim (Bool-cases (leb (total + length block) max)) [
        | inl t ↦
            let (forth, back) =
              hash_blocks_iff blocks fails max io_error (total + length block) (hashed ++ block)
                {r = r} b (leb→le (total + length block) max t) in
            let step = read_one block blocks fails max io_error total hashed b (leb→le _ max t) in
            let n : total + length block + length (join blocks)
                ≡ total + length (block ++ join blocks) =
              totals block blocks total in
            let text : (hashed ++ block) ++ join blocks ≡ hashed ++ (block ++ join blocks) =
              append_assoc hashed block (join blocks) in
            rw (sym n) (rw (sym text) (λ e. forth (sym step ∙ e), λ g. step ∙ back g))
        | inr f ↦ (
          λ e. absurd (too_long block blocks fails max io_error total hashed (ground (arith, f)) e),
          λ g. absurd (over block blocks total max (ground (arith, f)) g.1),
        )
      ]

  -- `hash_reader` gives a result just when no read fails and the bytes are no more than allowed; the
  -- result is their number and their digest.
  hash_reader_iff :
      (reader : Reader) (max : ℕ) (io_error : ApiError) {r : ℕ × Text}
      → max < u64_bound
      → (hash_reader streams reader max io_error ≡ ok r) ↔ (
          (reader.fails ≡ false)
          × (length (join reader.blocks) ≤ max)
          × (r ≡ hashed_as streams (join reader.blocks)))
  unfolding hash_reader
  hash_reader_iff reader max io_error {r} b =
      let (forth, back) =
        hash_blocks_iff reader.blocks reader.fails max io_error 0 [] {r = r} b (omega arith) in
      let n : 0 + length (join reader.blocks) ≡ length (join reader.blocks) = omega arith in
      (
        λ e. let (x, y, z) = forth e in (x, omega (arith, y), rw (sym n) z),
        λ h. back (h.0, omega (arith, h.1), rw n h.2),
      )

  -- `size == expected && digest == expected`
  abbrev pub HasDigest : Text → ℕ → Text → Type 0
  HasDigest content size digest =
      (length content ≡ size) × (hex_digest (streams.sha256 content) ≡ digest_storage_value digest)

  -- What `hash_reader` and the comparison after it accept.
  pub checked_stream :
      (reader : Reader) (size : ℕ) (digest : Text) (io_error : ApiError) {h : ℕ × Text}
      → size < u64_bound
      → hash_reader streams reader size io_error ≡ ok h
      → (not (h.0 == size) || not (text_eq h.1 (digest_storage_value digest))) ≡ false
      → (reader.fails ≡ false) × HasDigest (join reader.blocks) size digest
  checked_stream reader size digest io_error {h} b x f =
      let (fails, _, r) = (hash_reader_iff reader size io_error {r = h} b).0 x in
      let (n, t) = neither (h.0 == size) (text_eq h.1 (digest_storage_value digest)) f in
      (
        fails,
        (
          sym (ap (λ p. p.0) r) ∙ (==_iff h.0 size).0 n,
          sym (ap (λ p. p.1) r) ∙ (text_eq_iff h.1 (digest_storage_value digest)).0 t,
        ),
      )

  pub accepted_stream :
      (reader : Reader) (size : ℕ) (digest : Text) (io_error : ApiError)
      → size < u64_bound
      → reader.fails ≡ false
      → HasDigest (join reader.blocks) size digest
      → (hash_reader streams reader size io_error ≡ ok (hashed_as streams (join reader.blocks)))
        × ((not (length (join reader.blocks) == size)
              || not (
                  text_eq
                    (hex_digest (streams.sha256 (join reader.blocks)))
                    (digest_storage_value digest)))
            ≡ false)
  accepted_stream reader size digest io_error b f (l, d) = (
    (hash_reader_iff reader size io_error b).1 (f, omega (arith, l), refl),
    both _ _ ((==_iff (length (join reader.blocks)) size).1 l) ((text_eq_iff _ _).1 d),
  )
