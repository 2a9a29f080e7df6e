-- ===== src/Contract/Names/Severity.antt =====
-- The severity of a finding and its stored name (crates/patwari-server/src/contract.rs).
use patwari.Prelude.{Option, Text, [], bytes, ◌∷◌}
use patwari.Contract.Names.{match_str}

pub data IntegritySeverity : Type 0 where
  info warning error : IntegritySeverity

unfoldable pub as_str : IntegritySeverity → Text
as_str info = bytes "info"
as_str warning = bytes "warning"
as_str error = bytes "error"

unfoldable pub parse : Text → Option IntegritySeverity
parse value =
    match_str value
      ((bytes "info", info) ∷ (bytes "warning", warning) ∷ (bytes "error", error) ∷ [])
