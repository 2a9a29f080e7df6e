-- ===== src/Contract/Names/Status.antt =====
-- The outcome of an integrity run and its stored name (crates/patwari-server/src/contract.rs).
use patwari.Prelude.{Option, Text, [], bytes, ◌∷◌}
use patwari.Contract.Names.{match_str}

pub data IntegrityRunStatus : Type 0 where
  running healthy action_required failed : IntegrityRunStatus

unfoldable pub as_str : IntegrityRunStatus → Text
as_str running = bytes "running"
as_str healthy = bytes "healthy"
as_str action_required = bytes "action_required"
as_str failed = bytes "failed"

unfoldable pub parse : Text → Option IntegrityRunStatus
parse value = match_str value (
    (bytes "running", running)
    ∷ (bytes "healthy", healthy)
    ∷ (bytes "action_required", action_required)
    ∷ (bytes "failed", failed)
    ∷ [])
