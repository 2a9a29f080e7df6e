-- ===== src/Tests/Gate.antt =====
-- A backup with the token `t` that meets a request (crates/patwari-server/src/maintenance.rs).
use patwari.Prelude.{
  Result, Text, [], arith, bytes, false, if◌then◌else◌, inr, not, ok, refl, some, true, ℕ, ◌*◌, ◌<◌,
  ◌&&◌, ◌||◌, ◌↔◌, ◌∷◌, ◌≡◌, ◌≢◌,
}
use patwari.Maintenance.Acquire.{acquire_shared_iff, maintenance_is_active_iff}
use patwari.Maintenance.Reachable.{backup_excludes, initial, waiting_backup-admits_none}
use patwari.Maintenance.System.{
  Reach, Step, System, admitted, checking, claim, holds_any, holds_exclusive, idle, lock, next,
  owner, pass, share, start, update, waiting,
}
use patwari.Maintenance.Exclusion.{token_of, until_of}
use patwari.Maintenance.Waiting.{Leaves, acquire_exclusive-ends}
use patwari.Maintenance.{
  Attempt, GateError, GateRow, acquire_exclusive, acquire_shared, claim_lease, free, has_no_token,
  is_until, lease, lease_duration, locked, maintenance_is_active, pause, would_block,
}

abbrev expired : GateRow
expired = lease (bytes "t") 3

maintenance_is_active_iff_example :
    ((maintenance_is_active 5 6 expired).0
      ≡ (not (has_no_token expired) && not (is_until 5 expired)))
    × ((maintenance_is_active 5 6 expired).1 ≡ (if is_until 5 expired then free else expired))
maintenance_is_active_iff_example =
    maintenance_is_active_iff 5 6 expired (omega arith) (inr (bytes "t", 3, refl))

acquire_shared_iff_example :
    ((acquire_shared true locked 5 6 expired).0 ≡ ok tt)
    ↔ ((true ≡ true) × (locked ≡ locked) × ((has_no_token expired || is_until 5 expired) ≡ true))
acquire_shared_iff_example =
    acquire_shared_iff true locked 5 6 expired (omega arith) (inr (bytes "t", 3, refl))

-- The lock is never free.
abbrev blocked : ℕ → Attempt
blocked n = would_block

abbrev clock : ℕ → ℕ
clock n = n * pause

acquire_exclusive-ends_example :
    (result : Result GateError (Unit {0})) × (row : GateRow) × (acquire_exclusive 9001
        (bytes "u")
        true
        blocked
        clock
        5
        6
        expired
      ≡ some (result, row))
    × Leaves (bytes "u") 5 6 expired result row
acquire_exclusive-ends_example =
    acquire_exclusive-ends 9001 (bytes "u") true blocked clock 5 6 expired (λ k. omega arith)
      (omega arith)

-- Process 1 is admitted, then process 0 claims the lease.
abbrev entered : System
entered = record {
  row = free;
  now = 0;
  pc = update (update (λ _. idle) 1 (checking 2)) 1 admitted;
  used = [];
}

abbrev claimed : System
claimed = record {
  row = lease (bytes "t") lease_duration;
  now = 0;
  pc = update entered.pc 0 (waiting (bytes "t") lease_duration);
  used = bytes "t" ∷ [];
}

claimed-Reach : Reach (initial free 0) claimed
unfolding claim_lease
claimed-Reach =
    next (next (next start (share 1 refl (λ j. refl))) (pass 1 refl refl))
      (claim 0 (bytes "t") 0 0 refl refl (omega arith) (omega arith) refl)

asking : Step claimed (record {
  row = claimed.row;
  now = 0;
  pc = update claimed.pc 2 (checking 2);
  used = claimed.used;
})
asking = share 2 refl (λ j. ground arith)

waiting_backup-admits_none_example : claimed.pc 1 ≡ admitted
waiting_backup-admits_none_example =
    waiting_backup-admits_none free 0 claimed-Reach asking 0 (bytes "t") refl (omega arith) 1 refl

-- Without the request, process 0 takes the lock.
abbrev waits : System
waits = record {
  row = lease (bytes "t") lease_duration;
  now = 0;
  pc = update (λ _. idle) 0 (waiting (bytes "t") lease_duration);
  used = bytes "t" ∷ [];
}

abbrev holds : System
holds = record {
  row = lease (bytes "t") lease_duration;
  now = 0;
  pc = update waits.pc 0 (owner (bytes "t") lease_duration);
  used = bytes "t" ∷ [];
}

holds-Reach : Reach (initial free 0) holds
unfolding claim_lease
holds-Reach =
    next (next start (claim 0 (bytes "t") 0 0 refl refl (omega arith) (omega arith) refl))
      (lock 0 refl (λ j. ground arith))

backup_excludes_example :
    ((i j : ℕ) → holds_exclusive (holds.pc i) ≡ true → i ≢ j → holds_any (holds.pc j) ≡ false)
    × ((i : ℕ) (t : Text)
        → token_of (holds.pc i) ≡ some t
        → holds.now < until_of (holds.pc i)
        → holds.row ≡ lease t (until_of (holds.pc i)))
backup_excludes_example = backup_excludes free 0 holds-Reach
