-- ===== src/Deletion/Confirm.antt =====
-- What a deletion must bring: `require_admin_enabled`, `deletion_reason` and
-- `confirm_snapshot_deletion` (crates/patwari-server/src/deletion.rs).
use patwari.Prelude.{
  ◌>>=◌, ApiResult, Bool, Option, Text, any, bytes, conflict, err, false, forbidden, if◌then◌else◌,
  invalid, length, ltb, none, not, ok, reject_if, some, text_eq, true, ℕ, ◌++◌, ◌||◌,
}
use patwari.Config.{is_blank}
use patwari.Validation.Fields.{is_ascii_control}

abbrev pub max_deletion_reason_bytes : ℕ
max_deletion_reason_bytes = 512

unfoldable pub require_admin_enabled : Bool → ApiResult (Unit {0})
require_admin_enabled true = ok tt
require_admin_enabled false = err (
    forbidden "admin_deletion_disabled"
      "administrative deletion is disabled by server configuration")

-- `is_blank` is whether `str::trim` leaves nothing.
unfoldable pub deletion_reason : (Text → Bool) → Option Text → ApiResult (Option Text)
deletion_reason is_blank none = ok none
deletion_reason is_blank (some reason) =
    if is_blank reason
      || ltb max_deletion_reason_bytes (length reason)
      || any is_ascii_control reason
    then err (invalid "deletion reason is invalid")
    else ok (some reason)

unfoldable pub expected_confirmation : Text → Text → Text
expected_confirmation snapshot_id fingerprint_sha256 =
    bytes "delete-snapshot:" ++ (snapshot_id ++ (bytes ":sha256:" ++ fingerprint_sha256))

-- The header once it is text, and the body's confirmation.
unfoldable pub confirmation_of : Option Text → Option Text → ApiResult Text
confirmation_of none none = err (invalid "a snapshot-specific deletion confirmation is required")
confirmation_of none (some body) = ok body
confirmation_of (some header) none = ok header
confirmation_of (some header) (some body) =
    if text_eq header body
    then ok header
    else err (invalid "header and body deletion confirmations must match")

-- `to_str` is the text of a header's value, if it has one.
unfoldable pub confirm_snapshot_deletion :
    (Text → Option Text) → Option Text → Option Text → Text → Text → ApiResult (Unit {0})
unfolding confirmation_of expected_confirmation text_eq
confirm_snapshot_deletion to_str header body snapshot_id fingerprint_sha256 =
    header_text header >>= λ header'. confirmation_of header' body >>= λ confirmation.
    reject_if (not (text_eq confirmation (expected_confirmation snapshot_id fingerprint_sha256))) (
      conflict "deletion_confirmation_mismatch"
        "deletion confirmation does not match this snapshot fingerprint")
  where
    header_text : Option Text → ApiResult (Option Text)
    header_text none = ok none
    header_text (some value) = elim (to_str value) [
      | none ↦ err (invalid "deletion confirmation is invalid")
      | some text ↦ ok (some text)
    ]
