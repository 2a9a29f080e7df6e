-- ===== src/Contract/Names.antt =====
-- Reading a stored name: the `parse` functions of crates/patwari-server/src/contract.rs.
pub mod Status
pub mod Severity
pub mod Kind
pub mod RoundTrip
use patwari.Prelude.{
  All, Bool-cases, List, Option, Text, [], arith, if◌then◌else◌, inl, inr, none, some, text_eq,
  text_eq_iff, ◌∷◌, ◌≡◌,
}

-- A Rust `match` of a text with literals, in their order, and `None` for any other text.
unfoldable pub match_str {ℓ} : {A : Type ℓ} → Text → List (Text × A) → Option A
match_str value [] = none
match_str value (arm ∷ arms) = if text_eq value arm.0 then some arm.1 else match_str value arms

-- What an arm returns whose literal is matched has that literal for its name.
pub match_str-name {ℓ} :
    {A : Type ℓ} (name : A → Text) (value : Text) (arms : List (Text × A)) {a : A}
    → All (λ arm. name arm.1 ≡ arm.0) arms
    → match_str value arms ≡ some a
    → name a ≡ value
unfolding match_str
match_str-name name value [] n h = ground arith
match_str-name name value (arm ∷ arms) {a} n h = elim (Bool-cases (text_eq value arm.0)) [
  | inl t ↦ ground (arith, text_eq_iff value arm.0)
  | inr f ↦ match_str-name name value arms n.1 (ground arith)
]
