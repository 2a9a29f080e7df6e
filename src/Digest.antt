-- ===== src/Digest.antt =====
-- Digests and compressions as text (crates/patwari-server/src/ingestion.rs: `hex_digest`,
-- `digest_storage_value`, `digest_document_value`, `compression_name`, `parse_compression`).
pub mod RoundTrip
use mathlib.Core.Option
use patwari.Prelude.{
  Option, Text, [], bytes, if◌then◌else◌, ltb, none, some, strip_prefix, text_eq, ℕ, ◌%◌, ◌++◌, ◌+◌,
  ◌-◌, ◌/◌, ◌∷◌,
}
use patwari.Contract.{Compression, identity, zstd}
use patwari.Validation.Fields.{sha256_prefix}

-- `HEX[i]`
abbrev pub hex_digit : ℕ → ℕ
hex_digit n = if ltb n 10 then b'0' + n else b'a' + (n - 10)

unfoldable pub hex_digest : Text → Text
hex_digest [] = []
hex_digest (byte ∷ rest) = hex_digit (byte / 16) ∷ hex_digit (byte % 16) ∷ hex_digest rest

unfoldable pub digest_storage_value : Text → Text
unfolding strip_prefix
digest_storage_value value = Option.get_or (strip_prefix sha256_prefix value) value

unfoldable pub digest_document_value : Text → Text
unfolding digest_storage_value
digest_document_value value = sha256_prefix ++ digest_storage_value value

unfoldable pub compression_name : Compression → Text
compression_name identity = bytes "identity"
compression_name zstd = bytes "zstd"

unfoldable pub parse_compression : Text → Option Compression
unfolding text_eq
parse_compression value =
    if text_eq value (bytes "identity")
    then some identity
    else if text_eq value (bytes "zstd")
    then some zstd
    else none
