-- ===== src/Prelude/Int.antt =====
-- The fixed-width integers of the program: u64 sums are checked, and SQLite columns are i64.
use Prim.Native.Nat.{ℕ, ◌+◌, ◌*◌, ◌-◌, ◌<◌}
use mathlib.Core.Path.{◌≡◌, refl}
use mathlib.Core.Logic.{◌↔◌}
use mathlib.Core.Bool.{Bool, true, false}
use mathlib.Core.Option.{Option, none, some}
use native.Mathlib.Omega.{arith}
use patwari.Prelude.Tests.{ltb, leb, ◌==◌, if◌then◌else◌}

-- 2 ^ 64, 2 ^ 63 and 2 ^ 32
abbrev pub u64_bound : ℕ
u64_bound = 18446744073709551616

abbrev pub i64_bound : ℕ
i64_bound = 9223372036854775808

abbrev pub u32_bound : ℕ
u32_bound = 4294967296

unfoldable pub checked_add : ℕ → ℕ → Option ℕ
checked_add a b = if ltb (a + b) u64_bound then some (a + b) else none

unfoldable pub checked_mul : ℕ → ℕ → Option ℕ
checked_mul a b = if ltb (a * b) u64_bound then some (a * b) else none

unfoldable pub checked_sub : ℕ → ℕ → Option ℕ
checked_sub a b = if leb b a then some (a - b) else none

-- An i64: `negsuc n` is -(n + 1).
pub data ℤ : Type 0 where
  pos : ℕ → ℤ
  negsuc : ℕ → ℤ

-- `u64::try_from`
abbrev pub to_u64 : ℤ → Option ℕ
to_u64 (pos n) = some n
to_u64 (negsuc n) = none

abbrev pub int_eq : ℤ → ℤ → Bool
int_eq (pos a) (pos b) = a == b
int_eq (negsuc a) (negsuc b) = a == b
int_eq _ _ = false

abbrev pub int_ltb : ℤ → ℤ → Bool
int_ltb (pos a) (pos b) = ltb a b
int_ltb (pos a) (negsuc b) = false
int_ltb (negsuc a) (pos b) = true
int_ltb (negsuc a) (negsuc b) = ltb b a

pub checked_add-eq_some :
    (a b : ℕ) {c : ℕ} → checked_add a b ≡ some c → (c ≡ a + b) × (a + b < u64_bound)
unfolding checked_add
checked_add-eq_some a b h = ground arith

pub int_eq_refl : (a : ℤ) → int_eq a a ≡ true
int_eq_refl (pos n) = ground arith
int_eq_refl (negsuc n) = ground arith

pub int_eq_iff : (a b : ℤ) → (int_eq a b ≡ true) ↔ (a ≡ b)
int_eq_iff (pos m) (pos n) = ground arith
int_eq_iff (pos m) (negsuc n) = ground arith
int_eq_iff (negsuc m) (pos n) = ground arith
int_eq_iff (negsuc m) (negsuc n) = ground arith

pub int_ltb_irrefl : (a : ℤ) → int_ltb a a ≡ false
int_ltb_irrefl (pos n) = ground arith
int_ltb_irrefl (negsuc n) = ground arith

pub int_ltb-asym : (a b : ℤ) → int_ltb a b ≡ true → (int_ltb b a ≡ false) × (int_eq b a ≡ false)
int_ltb-asym (pos m) (pos n) h = ground arith
int_ltb-asym (pos m) (negsuc n) h = ground arith
int_ltb-asym (negsuc m) (pos n) h = ground arith
int_ltb-asym (negsuc m) (negsuc n) h = ground arith

pub int_eq-sym : (a b : ℤ) → int_eq a b ≡ int_eq b a
int_eq-sym (pos m) (pos n) = ground arith
int_eq-sym (pos m) (negsuc n) = refl
int_eq-sym (negsuc m) (pos n) = refl
int_eq-sym (negsuc m) (negsuc n) = ground arith

pub to_u64-eq_some : (z : ℤ) {n : ℕ} → to_u64 z ≡ some n → z ≡ pos n
to_u64-eq_some (pos m) h = ground arith
to_u64-eq_some (negsuc m) h = cc
