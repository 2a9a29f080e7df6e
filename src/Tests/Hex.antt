-- ===== src/Tests/Hex.antt =====
-- Hexadecimal texts (crates/patwari-server/src/ingestion.rs).
use patwari.Prelude.{Text, [], arith, bytes, refl, ◌∷◌, ◌≡◌}
use patwari.Digest.RoundTrip.{hex_digest-injective}
use patwari.Digest.{hex_digest}

two_bytes : hex_digest (171 ∷ 7 ∷ []) ≡ bytes "ab07"
unfolding hex_digest
two_bytes = refl

-- A digest of two bytes.
abbrev short_digest : Text
short_digest = 171 ∷ 7 ∷ []

hex_digest-injective_example : short_digest ≡ short_digest
hex_digest-injective_example =
    hex_digest-injective short_digest short_digest (omega arith, (omega arith, tt))
      (omega arith, (omega arith, tt)) refl
