-- ===== src/Maintenance/Reachable.antt =====
-- What holds of requests and backups in every reachable state
-- (crates/patwari-server/src/maintenance.rs).
use patwari.Prelude.{
  Bool-cases, Text, [], ap, arith, false, inl, inr, none, refl, some, sym, true, ℕ, ◌+◌, ◌<◌, ◌==◌,
  ◌∙◌, ◌≡◌, ◌≢◌,
}
use patwari.Maintenance.Exclusion.{
  Inv, claimed-Inv, cleared, expire_lease-live, moved, quiet, shared_stays, to_idle, token_of,
  until_of,
}
use patwari.Maintenance.System.{
  Pc, Reach, Step, System, admitted, checking, claim, clear, clearing, crash, expire, find_expired,
  give_up, holds_any, holds_exclusive, idle, leave, lock, next, owner, pass, released, share, start,
  stop_waiting, tick, turn_away, unlock, update, waiting,
}
use patwari.Maintenance.{GateRow, clear_lease, expire_lease, lease, lease_duration}

Step-Inv : {s t : System} → Step s t → Inv s → Inv t
Step-Inv {s = s} (tick now h) inv = record {
  exclusive = inv.exclusive;
  seen_before = λ i n k t e. omega (arith, inv.seen_before i n k t e);
  drawn = inv.drawn;
  apart = inv.apart;
  shown = λ i t e l. inv.shown i t e (omega arith);
}
Step-Inv {s = s} (share i e h) inv =
    quiet s inv i (checking 2) refl (λ j k. ground (arith, h j)) refl (λ n k t x. ground (arith, x))
      s.row (λ _ _ _ _ _ _. refl)
Step-Inv {s = s} (pass i e h) inv =
    quiet s inv i admitted refl (shared_stays s inv i admitted (ground (arith, e))) refl
      (λ n k t x. ground (arith, x)) s.row (λ _ _ _ _ _ _. refl)
Step-Inv {s = s} (turn_away i e a b c) inv = to_idle s inv i s.row (λ _ _ _ _ _ _. refl)
Step-Inv {s = s} (find_expired i {n = m} {token = token} e a b c) inv =
    quiet s inv i (clearing m token s.now) refl
      (shared_stays s inv i (clearing m token s.now) (ground (arith, e))) refl
      (λ n k t x. ground (arith, x)) s.row (λ _ _ _ _ _ _. refl)
Step-Inv {s = s} (expire i {n = m} {token = token} {seen = seen} e) inv =
    quiet s inv i (checking m) refl (shared_stays s inv i (checking m) (ground (arith, e))) refl
      (λ n k t x. ground (arith, x)) (expire_lease token seen s.row)
      (λ j t _ _ l r.
        ap (expire_lease token seen) r
        ∙ expire_lease-live token t seen (until_of (s.pc j))
            (omega (arith, inv.seen_before i m seen token e, l))
        ∙ sym r)
Step-Inv {s = s} (give_up i e) inv = to_idle s inv i s.row (λ _ _ _ _ _ _. refl)
Step-Inv {s = s} (leave i e) inv = to_idle s inv i s.row (λ _ _ _ _ _ _. refl)
Step-Inv {s = s} (claim i token seen later e f l m c) inv =
    claimed-Inv s inv i token seen later e f l c
Step-Inv {s = s} (lock i {token = token} {until = until} e h) inv =
    moved s inv i (owner token until) (λ j _ _. h j) (λ j _ k. ground (arith, h j, k))
      (λ t x. ground (arith, x, e)) (λ n k t x. ground (arith, x)) s.row (λ _ _ _ _ _ _. refl)
Step-Inv {s = s} (stop_waiting i {token = token} e) inv =
    to_idle s inv i (clear_lease token s.row)
      (λ j t n g _ r. cleared s inv i j token t (ground (arith, e)) g n r)
Step-Inv {s = s} (clear i {token = token} {until = until} e) inv =
    moved s inv i released
      (λ j n _. elim (Bool-cases (holds_any (s.pc j))) [
        | inl x ↦ absurd (n (inv.exclusive i j (ground (arith, e)) x))
        | inr x ↦ x
      ])
      (λ j n k. absurd (n (sym (inv.exclusive j i k (ground (arith, e))))))
      (λ t x. ground (arith, x)) (λ n k t x. ground (arith, x)) (clear_lease token s.row)
      (λ j t x g _ r. cleared s inv i j token t (ground (arith, e)) g (λ y. ground (arith, x, y)) r)
Step-Inv {s = s} (unlock i e) inv = to_idle s inv i s.row (λ _ _ _ _ _ _. refl)
Step-Inv {s = s} (crash i) inv = to_idle s inv i s.row (λ _ _ _ _ _ _. refl)

pub Reach-Inv : {s t : System} → Inv s → Reach s t → Inv t
Reach-Inv h start = h
Reach-Inv h (next r st) = Step-Inv st (Reach-Inv h r)

-- The gate before anyone comes, with whatever lease a process that died has left.
abbrev pub initial : GateRow → ℕ → System
initial row now = record { row = row; now = now; pc = λ _. idle; used = [] }

pub initial-Inv : (row : GateRow) (now : ℕ) → Inv (initial row now)
initial-Inv row now = record {
  exclusive = λ i j h k. cc;
  seen_before = λ i n k t h. ground (arith, h);
  drawn = λ i t h. cc;
  apart = λ i j t h k. cc;
  shown = λ i t h l. cc;
}

-- While a backup holds the gate, nothing else does: in every reachable state, no request is
-- admitted or being checked and no other backup holds the lock, whatever the lease in the database
-- says; and as long as the lease of a backup that waits or holds has not expired, the database shows
-- it, so that no other process has overwritten or cleared it.
pub backup_excludes :
    (row : GateRow) (start_time : ℕ) {s : System}
    → Reach (initial row start_time) s
    → ((i j : ℕ) → holds_exclusive (s.pc i) ≡ true → i ≢ j → holds_any (s.pc j) ≡ false)
      × ((i : ℕ) (t : Text)
          → token_of (s.pc i) ≡ some t
          → s.now < until_of (s.pc i)
          → s.row ≡ lease t (until_of (s.pc i)))
backup_excludes row start_time {s} r =
    let inv = Reach-Inv (initial-Inv row start_time) r in
    (
      λ i j h n. elim (Bool-cases (holds_any (s.pc j))) [
        | inl x ↦ absurd (n (inv.exclusive i j h x))
        | inr x ↦ x
      ],
      inv.shown,
    )

not_new :
    (f : ℕ → Pc) (k j : ℕ) (p : Pc) → p ≢ admitted → update f k p j ≡ admitted → f j ≡ admitted
not_new f k j p n e = elim (Bool-cases (k == j)) [
  | inl x ↦ absurd (n (ground (arith, x)))
  | inr x ↦ ground (arith, x)
]

admits :
    (s : System) {s' : System}
    → Step s s'
    → s.row.exclusive_token ≢ none
    → (j : ℕ) → s'.pc j ≡ admitted
    → s.pc j ≡ admitted
admits s (tick now h) n j a = a
admits s (share k e h) n j a = not_new s.pc k j (checking 2) (λ z. ground (arith, z)) a
admits s (pass k e h) n j a = absurd (n h)
admits s (turn_away k e x b c) n j a = not_new s.pc k j (idle) (λ z. ground (arith, z)) a
admits s (find_expired k {n = m} {token = token} e x b c) n j a =
    not_new s.pc k j (clearing m token s.now) (λ z. ground (arith, z)) a
admits s (expire k {n = m} e) n j a = not_new s.pc k j (checking m) (λ z. ground (arith, z)) a
admits s (give_up k e) n j a = not_new s.pc k j (idle) (λ z. ground (arith, z)) a
admits s (leave k e) n j a = not_new s.pc k j (idle) (λ z. ground (arith, z)) a
admits s (claim k token seen later e f x y c) n j a =
    not_new s.pc k j (waiting token (later + lease_duration)) (λ z. ground (arith, z)) a
admits s (lock k {token = token} {until = until} e h) n j a =
    not_new s.pc k j (owner token until) (λ z. ground (arith, z)) a
admits s (stop_waiting k e) n j a = not_new s.pc k j (idle) (λ z. ground (arith, z)) a
admits s (clear k e) n j a = not_new s.pc k j (released) (λ z. ground (arith, z)) a
admits s (unlock k e) n j a = not_new s.pc k j (idle) (λ z. ground (arith, z)) a
admits s (crash k) n j a = not_new s.pc k j (idle) (λ z. ground (arith, z)) a

-- While a backup holds a token whose lease has not expired, waiting or not, no step admits a request
-- that was not admitted before. That the lock becomes free is not stated.
pub waiting_backup-admits_none :
    (row : GateRow) (start_time : ℕ) {s s' : System}
    → Reach (initial row start_time) s
    → Step s s'
    → (i : ℕ) (t : Text) → token_of (s.pc i) ≡ some t
    → s.now < until_of (s.pc i)
    → (j : ℕ) → s'.pc j ≡ admitted
    → s.pc j ≡ admitted
waiting_backup-admits_none row start_time {s} r st i t h l j a =
    let shown = (Reach-Inv (initial-Inv row start_time) r).shown i t h l in
    admits s st (λ e. ground (arith, shown, e)) j a
