-- ===== src/Maintenance/Acquire.antt =====
-- When a request passes the gate (crates/patwari-server/src/maintenance.rs,
-- `maintenance_is_active` and `SharedPermit::acquire`).
use patwari.Prelude.{
  Bool, Text, arith, false, if◌then◌else◌, inl, inr, not, ok, refl, text_eq_iff, true, ℕ, ◌&&◌,
  ◌||◌, ◌↔◌, ◌≡◌, ◌≤◌, ◌⊎◌,
}
use patwari.Maintenance.{
  Attempt, GateRow, acquire_file, acquire_shared, active_round, expire_lease, failed, free,
  has_no_token, is_until, lease, locked, maintenance_is_active, would_block,
}

-- The CHECK of the table: token and time are both there, or neither is.
abbrev pub IsRow : GateRow → Type 0
IsRow row = (row ≡ free) ⊎ ((token : Text) × (until : ℕ) × (row ≡ lease token until))

-- For a row that the table allows and a clock that does not go back, maintenance is active just
-- while a lease has not expired; a lease that is live stays, and one that has expired is cleared.
pub maintenance_is_active_iff :
    (now later : ℕ) (row : GateRow)
    → now ≤ later
    → IsRow row
    → ((maintenance_is_active now later row).0 ≡ (not (has_no_token row) && not (is_until now row)))
      × ((maintenance_is_active now later row).1 ≡ (if is_until now row then free else row))
unfolding maintenance_is_active active_round expire_lease
maintenance_is_active_iff now later row h (inl e) = rw e (refl, refl)
maintenance_is_active_iff now later row h (inr (token, until, e)) =
    rw e (ground (arith, text_eq_iff token token), ground (arith, text_eq_iff token token))

-- A request gets its permit just when the lock file opens and can be shared and no lease is live.
pub acquire_shared_iff :
    (opens : Bool) (attempt : Attempt) (now later : ℕ) (row : GateRow)
    → now ≤ later
    → IsRow row
    → ((acquire_shared opens attempt now later row).0 ≡ ok tt)
      ↔ ((opens ≡ true) × (attempt ≡ locked) × ((has_no_token row || is_until now row) ≡ true))
unfolding acquire_shared acquire_file
acquire_shared_iff false attempt now later row h r = ground arith
acquire_shared_iff true would_block now later row h r = ground arith
acquire_shared_iff true failed now later row h r = ground arith
acquire_shared_iff true locked now later row h r =
    ground (arith, maintenance_is_active_iff now later row h r)
