-- ===== src/Prelude/Errors.antt =====
-- crates/patwari-server/src/error.rs: a fallible operation returns its value or an `ApiError`.
use Prim.Native.Nat.{ℕ}
use Prim.Native.String.{String}
use mathlib.Core.Path.{◌≡◌, refl}
use mathlib.Core.Logic.{◌⊎◌, inl, inr}
use mathlib.Core.Bool.{Bool, true, false}
use mathlib.Core.Option.{Option, none, some}

pub record ApiError : Type 0 where
  pub status : ℕ
  pub error_code : String
  pub message : String

abbrev pub invalid : String → ApiError
invalid m = record { status = 422; error_code = "validation_error"; message = m }

abbrev pub conflict : String → String → ApiError
conflict c m = record { status = 409; error_code = c; message = m }

abbrev pub forbidden : String → String → ApiError
forbidden c m = record { status = 403; error_code = c; message = m }

abbrev pub not_found : String → String → ApiError
not_found c m = record { status = 404; error_code = c; message = m }

abbrev pub internal : ApiError
internal = record {
  status = 500;
  error_code = "internal_error";
  message = "archive operation could not be completed";
}

abbrev pub storage_error : ApiError
storage_error = record {
  status = 500;
  error_code = "storage_error";
  message = "archive storage could not be used";
}

abbrev pub database_error : ApiError
database_error = record {
  status = 500;
  error_code = "metadata_error";
  message = "archive metadata could not be used";
}

-- A Rust `Result<A, E>`.
pub data Result {ℓ κ} (E : Type ℓ) (A : Type κ) : Type (ℓ ⊔ κ) where
  ok : A → Result E A
  err : E → Result E A

abbrev pub ApiResult {ℓ} : Type ℓ → Type ℓ
ApiResult A = Result ApiError A

infixl 5 ◌>>◌ ◌>>=◌
abbrev pub ◌>>=◌ {ε ℓ κ} :
    {E : Type ε} {A : Type ℓ} {B : Type κ} → Result E A → (A → Result E B) → Result E B
err failure >>= next = err failure
ok value >>= next = next value

abbrev pub ◌>>◌ {ε ℓ} : {E : Type ε} {B : Type ℓ} → Result E (Unit {0}) → Result E B → Result E B
check >> rest = check >>= λ passed. rest

-- `if test { return Err(e) }`
abbrev pub reject_if {ε} : {E : Type ε} → Bool → E → Result E (Unit {0})
reject_if false error = ok tt
reject_if true error = err error

-- `ok_or_else`
abbrev pub ok_or {ε ℓ} : {E : Type ε} {A : Type ℓ} → Option A → E → Result E A
ok_or none e = err e
ok_or (some a) e = ok a

module _ {ε ℓ κ} {E : Type ε} {A : Type ℓ} {B : Type κ} where
  pub >>=-eq-ok :
      (first : Result E A) (next : A → Result E B) {result : B}
      → (first >>= next) ≡ ok result
      → (a : A) × (first ≡ ok a) × (next a ≡ ok result)
  >>=-eq-ok (err failure) next returned = cc
  >>=-eq-ok (ok a) next returned = (a, refl, returned)

module _ {ε ℓ} {E : Type ε} {B : Type ℓ} where
  -- A guard that is passed, and the rest of the code.
  pub reject_if-eq-ok :
      (t : Bool) (e : E) (k : Result E B) {b : B}
      → (reject_if t e >> k) ≡ ok b
      → (t ≡ false) × (k ≡ ok b)
  reject_if-eq-ok true e k h = cc
  reject_if-eq-ok false e k h = (refl, h)

  pub reject_if-pass : (t : Bool) (e : E) (k : Result E B) → t ≡ false → (reject_if t e >> k) ≡ k
  reject_if-pass true e k h = cc
  reject_if-pass false e k h = refl

  pub ok_or-eq-ok : (o : Option B) (e : E) {b : B} → ok_or o e ≡ ok b → o ≡ some b
  ok_or-eq-ok none e h = cc
  ok_or-eq-ok (some a) e h = cc

module _ {ε ℓ} {E : Type ε} {A : Type ℓ} where
  pub ok-injective : {a b : A} → ◌≡◌ {A = Result E A} (ok a) (ok b) → a ≡ b
  ok-injective h = cc

pub Result-cases {ε ℓ} :
    {E : Type ε} {A : Type ℓ} (r : Result E A) → ((e : E) × (r ≡ err e)) ⊎ ((a : A) × (r ≡ ok a))
Result-cases (ok a) = inr (a, refl)
Result-cases (err e) = inl (e, refl)
