-- ===== src/Digest/RoundTrip.antt =====
-- The hexadecimal text of a digest determines it (crates/patwari-server/src/ingestion.rs).
use patwari.Prelude.{All, Text, [], ap, arith, refl, ℕ, ◌%◌, ◌/◌, ◌<◌, ◌∷◌, ◌≡◌}
use patwari.Digest.{hex_digest, hex_digit}

hex_digit-injective : (a b : ℕ) → a < 16 → b < 16 → hex_digit a ≡ hex_digit b → a ≡ b
hex_digit-injective a b p q h = ground arith

-- Two lists of bytes with the same hexadecimal text are the same.
pub hex_digest-injective :
    (s t : Text) → All (λ b. b < 256) s → All (λ b. b < 256) t → hex_digest s ≡ hex_digest t → s ≡ t
unfolding hex_digest
hex_digest-injective [] [] p q h = refl
hex_digest-injective [] (b ∷ t) p q h = cc
hex_digest-injective (a ∷ s) [] p q h = cc
hex_digest-injective (a ∷ s) (b ∷ t) p q h =
    let high : a / 16 ≡ b / 16 =
      hex_digit-injective (a / 16) (b / 16) (ground arith) (ground arith) (ground arith) in
    let low : a % 16 ≡ b % 16 =
      hex_digit-injective (a % 16) (b % 16) (omega arith) (omega arith) (ground arith) in
    let same : a ≡ b = omega arith in
    let rest : s ≡ t = hex_digest-injective s t p.1 q.1 (ground arith) in
    rw same (ap (λ l. b ∷ l) rest)
