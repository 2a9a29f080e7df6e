-- ===== src/Config/Parse.antt =====
-- The value parsers of config.rs, over the bytes of a value.
use patwari.Prelude.{
  Bool, Option, Text, [], bytes, checked_mul, false, if◌then◌else◌, leb, ltb, none, ok_or, some,
  text_eq, true, u64_bound, ℕ, ◌&&◌, ◌*◌, ◌+◌, ◌-◌, ◌==◌, ◌||◌, ◌∷◌,
}
use mathlib.Core.Option
use patwari.Chunks.{max_chunk_count}
use patwari.Config.Bounds.{from_secs, ConfigResult, too_many_chunks}

abbrev pub is_digit : ℕ → Bool
is_digit c = leb b'0' c && leb c b'9'

-- The digits of a decimal number onto `n`; a value of 2 ^ 64 or more is an overflow.
unfoldable pub parse_digits : ℕ → Text → Option ℕ
parse_digits n [] = some n
parse_digits n (c ∷ s) =
    let rest = parse_digits (n * 10 + (c - b'0')) s in
    if is_digit c && ltb (n * 10 + (c - b'0')) u64_bound then rest else none

-- `str::parse::<u64>`, which is also `usize` here: a `+` may stand before the digits.
unfoldable pub parse_u64 : Text → Option ℕ
unfolding parse_digits
parse_u64 [] = none
parse_u64 (c ∷ []) = parse_digits 0 (c ∷ [])
parse_u64 (c ∷ d ∷ s) = if c == b'+' then parse_digits 0 (d ∷ s) else parse_digits 0 (c ∷ d ∷ s)

-- `parse_bounded_usize` and `parse_bounded_u64`
unfoldable pub parse_bounded : ℕ → ℕ → Text → Option ℕ
unfolding parse_u64
parse_bounded minimum maximum value = elim (parse_u64 value) [
  | none ↦ none
  | some parsed ↦ if leb minimum parsed && leb parsed maximum then some parsed else none
]

-- The text before its last byte, with that byte.
abbrev pub split_last : Text → Option (Text × ℕ)
split_last [] = none
split_last (c ∷ []) = some ([], c)
split_last (c ∷ d ∷ s) = Option.map (λ (p : Text × ℕ). (c ∷ p.0, p.1)) (split_last (d ∷ s))

-- The seconds that a unit stands for.
abbrev pub multiplier : ℕ → Option ℕ
multiplier u =
    if u == b's'
    then some 1
    else if u == b'm'
    then some 60
    else if u == b'h'
    then some (60 * 60)
    else if u == b'd'
    then some (24 * 60 * 60)
    else none

unfoldable pub parse_duration : Text → Option ℕ
unfolding parse_u64 checked_mul
parse_duration value = elim (split_last value) [
  | none ↦ none
  | some (number, u) ↦ elim (multiplier u) [
    | none ↦ none
    | some unit ↦ elim (parse_u64 number) [
      | none ↦ none
      | some seconds ↦
          if ltb 0 seconds then Option.map from_secs (checked_mul seconds unit) else none
    ]
  ]
]

unfoldable pub parse_bool : Text → Option Bool
unfolding text_eq
parse_bool value =
    if text_eq value (bytes "true")
    then some true
    else if text_eq value (bytes "false")
    then some false
    else none

unfoldable pub max_stored_bytes_for_chunk_size : ℕ → ConfigResult ℕ
unfolding checked_mul
max_stored_bytes_for_chunk_size chunk_size_bytes =
    ok_or (checked_mul chunk_size_bytes max_chunk_count) too_many_chunks

-- Whether a character that is one byte is white space, and one of two or of three bytes (UTF-8).
abbrev is_blank_char : ℕ → Bool
is_blank_char a = (leb 9 a && leb a 13) || a == 32

abbrev is_blank_pair : ℕ → ℕ → Bool
is_blank_pair a b = a == 0xc2 && (b == 0x85 || b == 0xa0)

abbrev is_blank_triple : ℕ → ℕ → ℕ → Bool
is_blank_triple a b c =
    (a == 0xe1 && b == 0x9a && c == 0x80)
    || (a == 0xe2
        && b == 0x80
        && ((leb 0x80 c && leb c 0x8a) || c == 0xa8 || c == 0xa9 || c == 0xaf))
    || (a == 0xe2 && b == 0x81 && c == 0x9f)
    || (a == 0xe3 && b == 0x80 && c == 0x80)

-- `value.trim().is_empty()`
unfoldable pub is_blank : Text → Bool
is_blank [] = true
is_blank (a ∷ []) = is_blank_char a
is_blank (a ∷ b ∷ []) = (is_blank_char a && is_blank_char b) || is_blank_pair a b
is_blank (a ∷ b ∷ c ∷ s) =
    let after_one = is_blank (b ∷ c ∷ s) in
    let after_two = is_blank (c ∷ s) in
    let after_three = is_blank s in
    if is_blank_char a
    then after_one
    else if is_blank_pair a b
    then after_two
    else if is_blank_triple a b c
    then after_three
    else false
