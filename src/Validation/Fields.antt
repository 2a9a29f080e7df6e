-- ===== src/Validation/Fields.antt =====
-- The validators of single fields: texts, digests, sizes, identifiers and client metadata.
use patwari.Prelude.{
  ApiResult, Bool, List, Option, String, Text, [], all, any, bytes, err, false, i64_bound, invalid,
  leb, length, ltb, none, not, ok, ok_or, reject_if, some, strip_prefix, text_eq, ℕ, ◌&&◌, ◌==◌,
  ◌>>=◌, ◌>>◌, ◌||◌, ◌∷◌,
}
use patwari.Contract.{CreateUploadRequest, RegisterClientRequest}

abbrev pub max_metadata_entries : ℕ
max_metadata_entries = 64

abbrev pub max_metadata_key_bytes : ℕ
max_metadata_key_bytes = 128

abbrev pub max_metadata_value_bytes : ℕ
max_metadata_value_bytes = 1024

abbrev pub max_idempotency_key_bytes : ℕ
max_idempotency_key_bytes = 128

abbrev pub max_source_agent_bytes : ℕ
max_source_agent_bytes = 128

abbrev pub max_source_session_id_bytes : ℕ
max_source_session_id_bytes = 512

abbrev pub max_context_value_bytes : ℕ
max_context_value_bytes = 512

abbrev pub is_ascii_control : ℕ → Bool
is_ascii_control c = ltb c 32 || c == 127

abbrev pub is_ascii_digit : ℕ → Bool
is_ascii_digit c = leb b'0' c && leb c b'9'

abbrev pub is_ascii_lowercase : ℕ → Bool
is_ascii_lowercase c = leb b'a' c && leb c b'z'

abbrev pub is_ascii_uppercase : ℕ → Bool
is_ascii_uppercase c = leb b'A' c && leb c b'Z'

abbrev pub is_ascii_hexdigit : ℕ → Bool
is_ascii_hexdigit c = is_ascii_digit c || (leb b'a' c && leb c b'f') || (leb b'A' c && leb c b'F')

unfoldable pub validate_text : Text → ℕ → String → ApiResult (Unit {0})
validate_text value maximum message =
    reject_if (ltb maximum (length value) || any is_ascii_control value) (invalid message)

unfoldable pub validate_nonempty_text : Text → ℕ → String → ApiResult (Unit {0})
unfolding validate_text
validate_nonempty_text [] maximum message = err (invalid message)
validate_nonempty_text (c ∷ s) maximum message = validate_text (c ∷ s) maximum message

unfoldable pub validate_optional_text : Option Text → ℕ → ApiResult (Unit {0})
unfolding validate_text
validate_optional_text none maximum = ok tt
validate_optional_text (some value) maximum = validate_text value maximum "text value is invalid"

-- The loop over the entries of a metadata map.
unfoldable pub validate_entries : String → String → List (Text × Text) → ApiResult (Unit {0})
unfolding validate_text validate_nonempty_text
validate_entries key_message value_message [] = ok tt
validate_entries key_message value_message ((key, value) ∷ entries) =
    let rest = validate_entries key_message value_message entries in
    do
      validate_nonempty_text key max_metadata_key_bytes key_message
      validate_text value max_metadata_value_bytes value_message
      rest

unfoldable pub validate_client_request : RegisterClientRequest → ApiResult (Unit {0})
unfolding validate_optional_text validate_entries
validate_client_request request = do
  validate_optional_text request.hostname max_context_value_bytes
  validate_optional_text request.display_name max_context_value_bytes
  reject_if (ltb max_metadata_entries (length request.metadata))
      (invalid "metadata has too many entries")
  validate_entries "metadata key is invalid" "metadata value is invalid" request.metadata

unfoldable pub validate_capture_identifier : Text → ApiResult (Unit {0})
unfolding validate_nonempty_text
validate_capture_identifier id =
    validate_nonempty_text id max_idempotency_key_bytes "capture identifier is invalid"

-- The first match of `capture_id`: the new name is preferred to its old alias.
abbrev chosen_identifier : Option Text → Option Text → ApiResult Text
chosen_identifier (some id) _ = ok id
chosen_identifier none (some key) = ok key
chosen_identifier none none = err (invalid "capture identifier is required")

abbrev ambiguous : Option Text → Option Text → Bool
ambiguous (some id) (some key) = not (text_eq id key)
ambiguous _ _ = false

unfoldable pub capture_id : CreateUploadRequest → ApiResult Text
unfolding validate_capture_identifier
capture_id request = do
  id ← chosen_identifier request.capture_id request.idempotency_key
  reject_if (ambiguous request.capture_id request.idempotency_key)
      (invalid "capture_id and idempotency_key must be identical when both are supplied")
  validate_capture_identifier id
  ok id

unfoldable pub validate_size : ℕ → ℕ → String → ApiResult (Unit {0})
validate_size size maximum message =
    reject_if (ltb maximum size || leb i64_bound size) (invalid message)

abbrev pub is_hash_byte : ℕ → Bool
is_hash_byte byte = is_ascii_digit byte || (is_ascii_lowercase byte && is_ascii_hexdigit byte)

unfoldable pub validate_content_hash : Text → String → ApiResult (Unit {0})
validate_content_hash value message =
    reject_if (not (length value == 64) || not (all is_hash_byte value)) (invalid message)

abbrev pub sha256_prefix : Text
sha256_prefix = bytes "sha256:"

unfoldable pub validate_digest : Text → ApiResult (Unit {0})
unfolding strip_prefix validate_content_hash
validate_digest value = do
  hex ← ok_or (strip_prefix sha256_prefix value) (invalid "hash must be a lowercase sha256 digest")
  validate_content_hash hex "hash must be a lowercase sha256 digest"
