-- ===== src/Maintenance/Exclusion.antt =====
-- What the gate keeps, whatever the interleaving (crates/patwari-server/src/maintenance.rs).
use patwari.Prelude.{
  Bool-cases, Option, Text, any, ap, arith, false, inl, inr, none, ok, refl, some, sym, text_eq,
  text_eq_iff, true, ℕ, ◌+◌, ◌<◌, ◌==◌, ◌∙◌, ◌∷◌, ◌≡◌, ◌≢◌, ◌≤◌,
}
use patwari.Maintenance.System.{
  Pc, System, admitted, checking, clearing, goes, holds_any, holds_exclusive, holds_shared, idle,
  owner, released, update, waiting,
}
use patwari.Maintenance.{GateRow, claim_lease, clear_lease, expire_lease, lease, lease_duration}

abbrev pub token_of : Pc → Option Text
token_of (waiting t u) = some t
token_of (owner t u) = some t
token_of _ = none

abbrev pub until_of : Pc → ℕ
until_of (waiting t u) = u
until_of (owner t u) = u
until_of _ = 0

pub record Inv (s : System) : Type 0 where
  pub exclusive : (i j : ℕ) → holds_exclusive (s.pc i) ≡ true → holds_any (s.pc j) ≡ true → i ≡ j
  pub seen_before : (i n k : ℕ) (t : Text) → s.pc i ≡ clearing n t k → k ≤ s.now
  pub drawn : (i : ℕ) (t : Text) → token_of (s.pc i) ≡ some t → any (text_eq t) s.used ≡ true
  pub apart : (i j : ℕ) (t : Text) → token_of (s.pc i) ≡ some t → token_of (s.pc j) ≡ some t → i ≡ j
  pub shown :
      (i : ℕ) (t : Text)
      → token_of (s.pc i) ≡ some t
      → s.now < until_of (s.pc i)
      → s.row ≡ lease t (until_of (s.pc i))

-- A move of one process that draws no token.
module _ (s : System) (inv : Inv s) (i : ℕ) (p : Pc) where
  pub moved :
      ((j : ℕ) → i ≢ j → holds_exclusive p ≡ true → holds_any (s.pc j) ≡ false)
      → ((j : ℕ) → i ≢ j → holds_exclusive (s.pc j) ≡ true → holds_any p ≡ false)
      → ((t : Text)
          → token_of p ≡ some t
          → (token_of (s.pc i) ≡ some t) × (until_of p ≡ until_of (s.pc i)))
      → ((n k : ℕ) (t : Text) → p ≡ clearing n t k → k ≤ s.now)
      → (row : GateRow)
      → ((j : ℕ) (t : Text)
          → token_of (update s.pc i p j) ≡ some t
          → token_of (s.pc j) ≡ some t
          → s.now < until_of (s.pc j)
          → s.row ≡ lease t (until_of (s.pc j))
          → row ≡ s.row)
      → Inv (goes s row i p)
  moved a b c d row e = record {
    exclusive = λ j k h g. elim (Bool-cases (i == j)) [
      | inl x ↦ elim (Bool-cases (i == k)) [
        | inl y ↦ ground (arith, x, y)
        | inr y ↦ ground (arith, x, y, a k)
      ]
      | inr x ↦ elim (Bool-cases (i == k)) [
        | inl y ↦ ground (arith, x, y, b j)
        | inr y ↦ inv.exclusive j k (ground (arith, x)) (ground (arith, y))
      ]
    ];
    seen_before = λ j n k t h. elim (Bool-cases (i == j)) [
      | inl x ↦ d n k t (ground (arith, x))
      | inr x ↦ inv.seen_before j n k t (ground (arith, x))
    ];
    drawn = λ j t h. inv.drawn j t (old j t h).0;
    apart = λ j k t h g. inv.apart j k t (old j t h).0 (old k t g).0;
    shown = λ j t h l.
        let (token, until) = old j t h in
        let row' = inv.shown j t token (omega (arith, until)) in
        e j t h token (omega (arith, until)) row' ∙ row' ∙ ap (lease t) (sym until);
  }
    where
      old :
          (j : ℕ) (t : Text)
          → token_of (update s.pc i p j) ≡ some t
          → (token_of (s.pc j) ≡ some t) × (until_of (update s.pc i p j) ≡ until_of (s.pc j))
      old j t h = elim (Bool-cases (i == j)) [
        | inl x ↦ ground (arith, x, c t)
        | inr x ↦ ground (arith, x)
      ]

  -- One that holds no token and no exclusive lock afterwards.
  pub quiet :
      holds_exclusive p ≡ false
      → ((j : ℕ) → holds_exclusive (s.pc j) ≡ true → holds_any p ≡ false)
      → token_of p ≡ none
      → ((n k : ℕ) (t : Text) → p ≡ clearing n t k → k ≤ s.now)
      → (row : GateRow)
      → ((j : ℕ) (t : Text)
          → i ≢ j
          → token_of (s.pc j) ≡ some t
          → s.now < until_of (s.pc j)
          → s.row ≡ lease t (until_of (s.pc j))
          → row ≡ s.row)
      → Inv (goes s row i p)
  quiet a b c d row e =
      moved (λ j _ h. ground (arith, a)) (λ j _ h. b j h) (λ t h. ground (arith, c)) d row
        (λ j t h g l r. e j t (apart_of j t h) g l r)
    where
      apart_of : (j : ℕ) (t : Text) → token_of (update s.pc i p j) ≡ some t → i ≢ j
      apart_of j t h x = ground (arith, c, x)

pub free_of_exclusive :
    (s : System)
    → Inv s
    → (i j : ℕ) → holds_shared (s.pc i) ≡ true
    → holds_exclusive (s.pc j) ≡ true
    → ⊥
free_of_exclusive s inv i j h k =
    let same : j ≡ i = inv.exclusive j i k (ground arith) in
    both (s.pc i) h (ap (λ n. holds_exclusive (s.pc n)) (sym same) ∙ k)
  where
    both : (p : Pc) → holds_shared p ≡ true → holds_exclusive p ≡ true → ⊥
    both (owner t u) x y = cc
    both released x y = cc
    both (checking n) x y = cc
    both (clearing n t k) x y = cc
    both admitted x y = cc
    both (waiting t u) x y = cc
    both idle x y = cc

-- What a statement on the row does to the lease of another token that has not expired.
clear_lease-other : (token t : Text) (u : ℕ) → t ≢ token → clear_lease token (lease t u) ≡ lease t u
unfolding clear_lease
clear_lease-other token t u n = ground (arith, text_eq_iff t token)

pub expire_lease-live :
    (token t : Text) (seen u : ℕ) → seen < u → expire_lease token seen (lease t u) ≡ lease t u
unfolding expire_lease
expire_lease-live token t seen u h = ground arith

claim_lease-live :
    (token t : Text) (seen later u : ℕ)
    → seen < u
    → (claim_lease token seen later (lease t u)).0 ≢ ok tt
unfolding claim_lease
claim_lease-live token t seen later u h e = ground arith

claim_lease-ok :
    (token : Text) (seen later : ℕ) (row : GateRow)
    → (claim_lease token seen later row).0 ≡ ok tt
    → (claim_lease token seen later row).1 ≡ lease token (later + lease_duration)
unfolding claim_lease
claim_lease-ok token seen later row e = ground arith

module _ (s : System) (inv : Inv s) where
  -- A process that has no lock goes on to something that takes none.
  pub shared_stays :
      (i : ℕ) (p : Pc)
      → holds_shared (s.pc i) ≡ true
      → (j : ℕ) → holds_exclusive (s.pc j) ≡ true
      → holds_any p ≡ false
  shared_stays i p h j k = absurd (free_of_exclusive s inv i j h k)

  pub to_idle :
      (i : ℕ) (row : GateRow)
      → ((j : ℕ) (t : Text)
          → i ≢ j
          → token_of (s.pc j) ≡ some t
          → s.now < until_of (s.pc j)
          → s.row ≡ lease t (until_of (s.pc j))
          → row ≡ s.row)
      → Inv (goes s row i idle)
  to_idle i row e = quiet s inv i idle refl (λ _ _. refl) refl (λ n k t h. ground (arith, h)) row e

  -- The statement clears the lease of a token of this process, not that of another.
  pub cleared :
      (i j : ℕ) (token t : Text)
      → token_of (s.pc i) ≡ some token
      → token_of (s.pc j) ≡ some t
      → i ≢ j
      → s.row ≡ lease t (until_of (s.pc j))
      → clear_lease token s.row ≡ s.row
  cleared i j token t h g n r =
      let other : t ≢ token = λ e. n (inv.apart i j token h (g ∙ ap some e)) in
      ap (clear_lease token) r ∙ clear_lease-other token t (until_of (s.pc j)) other ∙ sym r

  pub claimed-Inv :
      (i : ℕ) (token : Text) (seen later : ℕ)
      → s.pc i ≡ idle
      → any (text_eq token) s.used ≡ false
      → seen ≤ s.now
      → (claim_lease token seen later s.row).0 ≡ ok tt
      → Inv (record {
        row = (claim_lease token seen later s.row).1;
        now = s.now;
        pc = update s.pc i (waiting token (later + lease_duration));
        used = token ∷ s.used;
      })
  claimed-Inv i token seen later e f l c = record {
    exclusive = λ j k h g. elim (Bool-cases (i == j)) [
      | inl x ↦ ground (arith, x)
      | inr x ↦ elim (Bool-cases (i == k)) [
        | inl y ↦ ground (arith, y)
        | inr y ↦ inv.exclusive j k (ground (arith, x)) (ground (arith, y))
      ]
    ];
    seen_before = λ j n k t h. elim (Bool-cases (i == j)) [
      | inl x ↦ ground (arith, x)
      | inr x ↦ inv.seen_before j n k t (ground (arith, x))
    ];
    drawn = λ j t h. elim (Bool-cases (i == j)) [
      | inl x ↦ ground (arith, x, text_eq_iff t token)
      | inr x ↦ ground (arith, x, inv.drawn j t)
    ];
    apart = λ j k t h g. elim (Bool-cases (i == j)) [
      | inl x ↦ elim (Bool-cases (i == k)) [
        | inl y ↦ ground (arith, x, y)
        | inr y ↦ absurd (new j k t x h y g)
      ]
      | inr x ↦ elim (Bool-cases (i == k)) [
        | inl y ↦ absurd (new k j t y g x h)
        | inr y ↦ inv.apart j k t (ground (arith, x)) (ground (arith, y))
      ]
    ];
    shown = λ j t h b. elim (Bool-cases (i == j)) [
      | inl x ↦ claim_lease-ok token seen later s.row c ∙ ground (arith, x)
      | inr x ↦
          let row = inv.shown j t (ground (arith, x)) (ground (arith, x)) in
          absurd (
            claim_lease-live token t seen later (until_of (s.pc j)) (ground (arith, x))
              (sym (ap (λ r. (claim_lease token seen later r).0) row) ∙ c))
    ];
  }
    where
      new :
          (j k : ℕ) (t : Text)
          → (i == j) ≡ true
          → token_of (update s.pc i (waiting token (later + lease_duration)) j) ≡ some t
          → (i == k) ≡ false
          → token_of (update s.pc i (waiting token (later + lease_duration)) k) ≡ some t
          → ⊥
      new j k t x h y g = ground (arith, x, y, inv.drawn k t)
