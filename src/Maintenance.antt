-- ===== src/Maintenance.antt =====
-- crates/patwari-server/src/maintenance.rs: the gate between requests and a backup. A lease in the
-- database turns requests away while a backup waits, and a file lock excludes them. Times are
-- seconds since 1970; the statements of the database succeed.
pub mod Acquire
pub mod Waiting
pub mod System
pub mod Exclusion
pub mod Reachable
use patwari.Prelude.{
  Bool, Option, Result, Text, err, false, if◌then◌else◌, leb, ltb, none, ok, some, suc, text_eq,
  true, zero, ℕ, ◌&&◌, ◌+◌, ◌||◌,
}

-- `MaintenanceGateError`
pub data GateError : Type 0 where
  busy unavailable : GateError

-- `LEASE_DURATION` in seconds, `EXCLUSIVE_WAIT_LIMIT` and the pause between two attempts in
-- milliseconds
abbrev pub lease_duration : ℕ
lease_duration = 21600

abbrev pub exclusive_wait_limit : ℕ
exclusive_wait_limit = 900000

abbrev pub pause : ℕ
pause = 100

-- The only row of `maintenance_gate`.
pub record GateRow : Type 0 where
  pub exclusive_token : Option Text
  pub exclusive_until_unix : Option ℕ

abbrev pub free : GateRow
free = record { exclusive_token = none; exclusive_until_unix = none }

abbrev pub lease : Text → ℕ → GateRow
lease token until = record { exclusive_token = some token; exclusive_until_unix = some until }

abbrev pub has_token : Text → GateRow → Bool
has_token token row = elim row.exclusive_token [ none ↦ false | some t ↦ text_eq t token ]

-- `exclusive_until_unix <= now`, which is not true of NULL
abbrev pub is_until : ℕ → GateRow → Bool
is_until now row = elim row.exclusive_until_unix [ none ↦ false | some until ↦ leb until now ]

abbrev pub has_no_token : GateRow → Bool
has_no_token row = elim row.exclusive_token [ none ↦ true | some t ↦ false ]

-- `now` is the clock at the test, `later` that of `lease_until`.
unfoldable pub claim_lease : Text → ℕ → ℕ → GateRow → Result GateError (Unit {0}) × GateRow
claim_lease token now later row =
    if has_no_token row || is_until now row
    then (ok tt, lease token (later + lease_duration))
    else (err busy, row)

unfoldable pub clear_lease : Text → GateRow → GateRow
unfolding text_eq
clear_lease token row = if has_token token row then free else row

-- The UPDATE of `maintenance_is_active`.
unfoldable pub expire_lease : Text → ℕ → GateRow → GateRow
unfolding text_eq
expire_lease token now row = if has_token token row && is_until now row then free else row

-- A round of `maintenance_is_active`: the answer, or none before the next round.
unfoldable pub active_round : ℕ → GateRow → Option Bool × GateRow
unfolding expire_lease
active_round now row = elim row.exclusive_token [
  | none ↦ (some false, row)
  | some token ↦ elim row.exclusive_until_unix [
    | none ↦ (some true, row)
    | some until ↦ if ltb now until then (some true, row) else (none, expire_lease token now row)
  ]
]

-- Two rounds, at the two times that the clock shows.
unfoldable pub maintenance_is_active : ℕ → ℕ → GateRow → Bool × GateRow
unfolding active_round
maintenance_is_active now later row =
    let (first, row') = active_round now row in
    elim first [
      | some answer ↦ (answer, row')
      | none ↦
          (let (second, row'') = active_round later row' in
            (elim second [ some answer ↦ answer | none ↦ true ], row''))
    ]

-- What an attempt at a lock of the file comes to.
pub data Attempt : Type 0 where
  locked would_block failed : Attempt

-- `SharedFilePermit::acquire`, from whether the file opens and the attempt
unfoldable pub acquire_file : Bool → Attempt → Result GateError (Unit {0})
acquire_file false attempt = err unavailable
acquire_file true locked = ok tt
acquire_file true would_block = err busy
acquire_file true failed = err unavailable

-- `SharedPermit::acquire`
unfoldable pub acquire_shared :
    Bool → Attempt → ℕ → ℕ → GateRow → Result GateError (Unit {0}) × GateRow
unfolding acquire_file maintenance_is_active
acquire_shared opens attempt now later row = elim (acquire_file opens attempt) [
  | err e ↦ (err e, row)
  | ok _ ↦
      (let (active, row') = maintenance_is_active now later row in
        (if active then err busy else ok tt, row'))
]

-- The loop of `ExclusivePermit::acquire` from its round `n` on: what the attempt of each round
-- comes to, and how many milliseconds have passed then. None means that the fuel ran out.
unfoldable pub wait_for_lock :
    ℕ → (ℕ → Attempt) → (ℕ → ℕ) → ℕ → Option (Result GateError (Unit {0}))
wait_for_lock zero attempts elapsed n = none
wait_for_lock (suc fuel) attempts elapsed n = elim (attempts n) [
  | locked ↦ some (ok tt)
  | failed ↦ some (err unavailable)
  | would_block ↦
      (let rest = wait_for_lock fuel attempts elapsed (n + 1) in
        if leb exclusive_wait_limit (elapsed n) then some (err busy) else rest)
]

-- `ExclusivePermit::acquire` with a new token
unfoldable pub acquire_exclusive :
    ℕ
    → Text
    → Bool
    → (ℕ → Attempt)
    → (ℕ → ℕ)
    → ℕ
    → ℕ
    → GateRow
    → Option (Result GateError (Unit {0}) × GateRow)
unfolding claim_lease clear_lease wait_for_lock
acquire_exclusive fuel token opens attempts elapsed now later row =
    let (claim, row') = claim_lease token now later row in
    elim claim [
      | err e ↦ some (err e, row')
      | ok _ ↦ elim opens [
        | false ↦ some (err unavailable, clear_lease token row')
        | true ↦ elim (wait_for_lock fuel attempts elapsed 0) [
          | none ↦ none
          | some result ↦ elim result [
            | ok _ ↦ some (ok tt, row')
            | err e ↦ some (err e, clear_lease token row')
          ]
        ]
      ]
    ]

-- `ExclusivePermit::release`
unfoldable pub release : Text → Bool → GateRow → Result GateError (Unit {0}) × GateRow
unfolding clear_lease
release token unlocks row = (if unlocks then ok tt else err unavailable, clear_lease token row)
