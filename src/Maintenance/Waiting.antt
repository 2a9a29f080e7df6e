-- ===== src/Maintenance/Waiting.antt =====
-- The wait of `ExclusivePermit::acquire` ends, and what it leaves
-- (crates/patwari-server/src/maintenance.rs).
use patwari.Prelude.{
  Bool, Bool-cases, Result, Text, arith, err, false, if◌then◌else◌, inl, inr, leb, ok, refl, some,
  suc, text_eq_iff, true, zero, ℕ, ◌*◌, ◌+◌, ◌<◌, ◌||◌, ◌≡◌, ◌≤◌, ◌⊎◌,
}
use patwari.Maintenance.{
  Attempt, GateError, GateRow, acquire_exclusive, busy, claim_lease, clear_lease,
  exclusive_wait_limit, failed, free, has_no_token, is_until, lease, lease_duration, locked, pause,
  unavailable, wait_for_lock, would_block,
}

Attempt-cases : (a : Attempt) → (a ≡ locked) ⊎ ((a ≡ failed) ⊎ (a ≡ would_block))
Attempt-cases locked = inl refl
Attempt-cases failed = inr (inl refl)
Attempt-cases would_block = inr (inr refl)

wait_ends :
    (attempts : ℕ → Attempt) (elapsed : ℕ → ℕ)
    → ((k : ℕ) → k * pause ≤ elapsed k)
    → (fuel n : ℕ) → 9000 < fuel + n
    → n ≤ 9000
    → (result : Result GateError (Unit {0})) × (wait_for_lock fuel attempts elapsed n ≡ some result)
unfolding wait_for_lock
wait_ends attempts elapsed h zero n b c = absurd (omega arith)
wait_ends attempts elapsed h (suc fuel) n b c = elim (Attempt-cases (attempts n)) [
  | inl e ↦ (ok tt, ground (arith, e))
  | inr (inl e) ↦ (err unavailable, ground (arith, e))
  | inr (inr e) ↦ elim (Bool-cases (leb exclusive_wait_limit (elapsed n))) [
    | inl t ↦ (err busy, ground (arith, e, t))
    | inr f ↦
        let (result, r) =
          wait_ends attempts elapsed h fuel (n + 1) (omega arith) (ground (arith, f, h n)) in
        (result, ground (arith, e, f, r))
  ]
]

clear-lease : (token : Text) (until : ℕ) → clear_lease token (lease token until) ≡ free
unfolding clear_lease
clear-lease token until = ground (arith, text_eq_iff token token)

-- What an acquisition leaves: the lease of its token if it succeeds, and no lease of it otherwise.
abbrev pub Leaves : Text → ℕ → ℕ → GateRow → Result GateError (Unit {0}) → GateRow → Type 0
Leaves token now later row (ok _) row' =
    ((has_no_token row || is_until now row) ≡ true) × (row' ≡ lease token (later + lease_duration))
Leaves token now later row (err e) row' =
    row' ≡ (if has_no_token row || is_until now row then free else row)

claimed-ends :
    (fuel : ℕ) (token : Text) (opens : Bool) (attempts : ℕ → Attempt) (elapsed : ℕ → ℕ)
    (now later : ℕ) (row : GateRow)
    → ((k : ℕ) → k * pause ≤ elapsed k)
    → 9000 < fuel
    → (has_no_token row || is_until now row) ≡ true
    → (result : Result GateError (Unit {0})) × (row' : GateRow) × (acquire_exclusive fuel token
          opens attempts elapsed now later row
        ≡ some (result, row'))
      × Leaves token now later row result row'
unfolding acquire_exclusive claim_lease
claimed-ends fuel token false attempts elapsed now later row h b t = (
  err unavailable,
  free,
  ground (arith, t, clear-lease token (later + lease_duration)),
  ground (arith, t),
)
claimed-ends fuel token true attempts elapsed now later row h b t =
    decided (wait_ends attempts elapsed h fuel 0 (omega arith) (omega arith))
  where
    decided :
        (r : Result GateError (Unit {0})) × (wait_for_lock fuel attempts elapsed 0 ≡ some r)
        → (result : Result GateError (Unit {0})) × (row' : GateRow) × (acquire_exclusive fuel token
              true attempts elapsed now later row
            ≡ some (result, row'))
          × Leaves token now later row result row'
    decided (ok u, e) =
        (ok tt, lease token (later + lease_duration), ground (arith, t, e), (t, refl))
    decided (err x, e) = (
      err x,
      free,
      ground (arith, t, e, clear-lease token (later + lease_duration)),
      ground (arith, t),
    )

-- The acquisition of the exclusive lock ends, whatever the attempts come to: rounds are at least
-- 100 milliseconds apart, so that 9001 of them are enough. If it succeeds, the row holds the lease of
-- its token for `LEASE_DURATION`, and no lease was live before; if it fails, the row is free where
-- the lease could be claimed, and as it was where it could not.
pub acquire_exclusive-ends :
    (fuel : ℕ) (token : Text) (opens : Bool) (attempts : ℕ → Attempt) (elapsed : ℕ → ℕ)
    (now later : ℕ) (row : GateRow)
    → ((k : ℕ) → k * pause ≤ elapsed k)
    → 9000 < fuel
    → (result : Result GateError (Unit {0})) × (row' : GateRow) × (acquire_exclusive fuel token
          opens attempts elapsed now later row
        ≡ some (result, row'))
      × Leaves token now later row result row'
unfolding acquire_exclusive claim_lease
acquire_exclusive-ends fuel token opens attempts elapsed now later row h b =
    elim (Bool-cases (has_no_token row || is_until now row)) [
      | inl t ↦ claimed-ends fuel token opens attempts elapsed now later row h b t
      | inr f ↦ (err busy, row, ground (arith, f), ground (arith, f))
    ]
