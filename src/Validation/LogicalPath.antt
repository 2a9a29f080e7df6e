-- ===== src/Validation/LogicalPath.antt =====
-- `validate_logical_path` and the portable form of a path.
use patwari.Prelude.{
  ApiResult, Bool, List, Text, [], all, any, bytes, false, if◌then◌else◌, invalid, length, ltb, map,
  not, reject_if, text_eq, ℕ, ◌+◌, ◌-◌, ◌==◌, ◌||◌, ◌∷◌,
}
use patwari.Validation.Fields.{
  is_ascii_control, is_ascii_digit, is_ascii_lowercase, is_ascii_uppercase,
}

abbrev pub max_logical_path_bytes : ℕ
max_logical_path_bytes = 1024

abbrev pub slash : ℕ
slash = b'/'

-- `str::split` on one byte: the parts between its occurrences, at least one.
unfoldable pub split : ℕ → Text → List Text
split d [] = [] ∷ []
split d (c ∷ s) =
    let parts = split d s in
    if c == d
    then [] ∷ parts
    else elim parts [ [] ↦ (c ∷ []) ∷ [] | part ∷ rest ↦ (c ∷ part) ∷ rest ]

abbrev pub ends_with : ℕ → Text → Bool
ends_with d [] = false
ends_with d (c ∷ []) = c == d
ends_with d (c ∷ e ∷ s) = ends_with d (e ∷ s)

abbrev pub starts_with : ℕ → Text → Bool
starts_with d [] = false
starts_with d (c ∷ s) = c == d

abbrev pub contains : ℕ → Text → Bool
contains d s = any (λ c. c == d) s

abbrev pub uppercase : ℕ → ℕ
uppercase c = if is_ascii_lowercase c then c - 32 else c

abbrev pub lowercase : ℕ → ℕ
lowercase c = if is_ascii_uppercase c then c + 32 else c

unfoldable pub to_ascii_uppercase : Text → Text
to_ascii_uppercase = map uppercase

unfoldable pub to_ascii_lowercase : Text → Text
to_ascii_lowercase = map lowercase

abbrev pub windows_reserved_names : List Text
windows_reserved_names =
    bytes "CON"
    ∷ bytes "PRN"
    ∷ bytes "AUX"
    ∷ bytes "NUL"
    ∷ bytes "COM1"
    ∷ bytes "COM2"
    ∷ bytes "COM3"
    ∷ bytes "COM4"
    ∷ bytes "COM5"
    ∷ bytes "COM6"
    ∷ bytes "COM7"
    ∷ bytes "COM8"
    ∷ bytes "COM9"
    ∷ bytes "LPT1"
    ∷ bytes "LPT2"
    ∷ bytes "LPT3"
    ∷ bytes "LPT4"
    ∷ bytes "LPT5"
    ∷ bytes "LPT6"
    ∷ bytes "LPT7"
    ∷ bytes "LPT8"
    ∷ bytes "LPT9"
    ∷ []

abbrev first_or : Text → List Text → Text
first_or d [] = d
first_or d (part ∷ _) = part

unfoldable pub is_windows_reserved_component : Text → Bool
unfolding split to_ascii_uppercase text_eq
is_windows_reserved_component component =
    let basename = first_or component (split b'.' component) in
    any (text_eq (to_ascii_uppercase basename)) windows_reserved_names

abbrev pub is_portable_byte : ℕ → Bool
is_portable_byte c =
    (is_ascii_lowercase c || is_ascii_uppercase c || is_ascii_digit c)
    || (c == b'.' || c == b'_' || c == b'-')

-- The test on one component of the path.
unfoldable pub is_bad_component : Text → Bool
unfolding is_windows_reserved_component text_eq
is_bad_component part =
    text_eq part []
    || text_eq part (bytes ".")
    || text_eq part (bytes "..")
    || ends_with b'.' part
    || ends_with b' ' part
    || is_windows_reserved_component part
    || not (all is_portable_byte part)

unfoldable pub is_bad_path : Text → Bool
unfolding is_bad_component split
is_bad_path path =
    text_eq path []
    || ltb max_logical_path_bytes (length path)
    || starts_with slash path
    || contains 0x5c path
    || contains b':' path
    || not (all (λ c. ltb c 128) path)
    || any is_ascii_control path
    || any is_bad_component (split slash path)

unfoldable pub validate_logical_path : Text → ApiResult (Unit {0})
unfolding is_bad_path
validate_logical_path path =
    reject_if (is_bad_path path)
      (invalid "logical path must be a portable normalized relative regular-file path")
