-- ===== src/Maintenance/System.antt =====
-- Requests and backups that meet at the gate, a statement of the database or a lock operation at a
-- time (crates/patwari-server/src/maintenance.rs).
use patwari.Prelude.{
  Bool, List, Text, any, false, if◌then◌else◌, ltb, none, ok, some, suc, text_eq, true, ℕ, ◌+◌,
  ◌==◌, ◌∷◌, ◌≡◌, ◌≤◌,
}
use patwari.Maintenance.{GateRow, claim_lease, clear_lease, expire_lease, lease_duration}

-- Where a process stands. `until` is when the lease of its token expires.
pub data Pc : Type 0 where
  idle : Pc
  -- `SharedPermit::acquire` holds the shared lock: it has this many rounds left, or is about to
  -- clear a lease that had expired when it looked.
  checking : (rounds : ℕ) → Pc
  clearing : (rounds : ℕ) (token : Text) (seen : ℕ) → Pc
  admitted : Pc
  -- `ExclusivePermit::acquire` waits for the lock, holds it, and has cleared its lease.
  waiting : (token : Text) (until : ℕ) → Pc
  owner : (token : Text) (until : ℕ) → Pc
  released : Pc

abbrev pub holds_exclusive : Pc → Bool
holds_exclusive (owner t u) = true
holds_exclusive released = true
holds_exclusive _ = false

abbrev pub holds_shared : Pc → Bool
holds_shared (checking n) = true
holds_shared (clearing n t k) = true
holds_shared admitted = true
holds_shared _ = false

abbrev pub holds_any : Pc → Bool
holds_any p = if holds_exclusive p then true else holds_shared p

-- The processes by number; one that has not begun is idle. `used` are the tokens drawn so far.
pub record System : Type 0 where
  pub row : GateRow
  pub now : ℕ
  pub pc : ℕ → Pc
  pub used : List Text

abbrev pub update : (ℕ → Pc) → ℕ → Pc → ℕ → Pc
update f i p j = if i == j then p else f j

abbrev pub goes : System → GateRow → ℕ → Pc → System
goes s row i p = record { row = row; now = s.now; pc = update s.pc i p; used = s.used }

-- A SELECT and the clock that it is compared with are one step; the times that an UPDATE is given
-- were read before.
pub data Step (s : System) : System → Type 0 where
  tick :
      (now : ℕ) → s.now ≤ now → Step s (record { row = s.row; now = now; pc = s.pc; used = s.used })
  share :
      (i : ℕ)
      → s.pc i ≡ idle
      → ((j : ℕ) → holds_exclusive (s.pc j) ≡ false)
      → Step s (goes s s.row i (checking 2))
  pass :
      (i : ℕ) {n : ℕ}
      → s.pc i ≡ checking (suc n)
      → s.row.exclusive_token ≡ none
      → Step s (goes s s.row i admitted)
  turn_away :
      (i : ℕ) {n : ℕ} {token : Text} {until : ℕ}
      → s.pc i ≡ checking (suc n)
      → s.row.exclusive_token ≡ some token
      → s.row.exclusive_until_unix ≡ some until
      → ltb s.now until ≡ true
      → Step s (goes s s.row i idle)
  find_expired :
      (i : ℕ) {n : ℕ} {token : Text} {until : ℕ}
      → s.pc i ≡ checking (suc n)
      → s.row.exclusive_token ≡ some token
      → s.row.exclusive_until_unix ≡ some until
      → ltb s.now until ≡ false
      → Step s (goes s s.row i (clearing n token s.now))
  expire :
      (i : ℕ) {n : ℕ} {token : Text} {seen : ℕ}
      → s.pc i ≡ clearing n token seen
      → Step s (goes s (expire_lease token seen s.row) i (checking n))
  give_up : (i : ℕ) → s.pc i ≡ checking 0 → Step s (goes s s.row i idle)
  leave : (i : ℕ) → s.pc i ≡ admitted → Step s (goes s s.row i idle)
  claim :
      (i : ℕ) (token : Text) (seen later : ℕ)
      → s.pc i ≡ idle
      → any (text_eq token) s.used ≡ false
      → seen ≤ s.now
      → later ≤ s.now
      → (claim_lease token seen later s.row).0 ≡ ok tt
      → Step s (record {
        row = (claim_lease token seen later s.row).1;
        now = s.now;
        pc = update s.pc i (waiting token (later + lease_duration));
        used = token ∷ s.used;
      })
  lock :
      (i : ℕ) {token : Text} {until : ℕ}
      → s.pc i ≡ waiting token until
      → ((j : ℕ) → holds_any (s.pc j) ≡ false)
      → Step s (goes s s.row i (owner token until))
  stop_waiting :
      (i : ℕ) {token : Text} {until : ℕ}
      → s.pc i ≡ waiting token until
      → Step s (goes s (clear_lease token s.row) i idle)
  clear :
      (i : ℕ) {token : Text} {until : ℕ}
      → s.pc i ≡ owner token until
      → Step s (goes s (clear_lease token s.row) i released)
  unlock : (i : ℕ) → s.pc i ≡ released → Step s (goes s s.row i idle)
  -- The process dies; the system drops its lock.
  crash : (i : ℕ) → Step s (goes s s.row i idle)

pub data Reach (s : System) : System → Type 0 where
  start : Reach s s
  next : {t u : System} → Reach s t → Step t u → Reach s u
