-- ===== src/Tests/Settings.antt =====
-- The default configuration, and the one that is read from an environment without values (crates/patwari-server/src/config.rs).
use patwari.Prelude.{Text, arith, bytes, checked_mul, none, ok, refl, some, ℕ, ◌↔◌, ◌≡◌}
use patwari.Chunks.{chunk_count}
use patwari.Config.Validate.{IsValid, chunk_count-validate, validate, validate_iff}
use patwari.Config.Values.Result.{from_values-eq-read_values}
use patwari.Config.Values.{Env, from_values, read_values}
use patwari.Config.{Config, default, max_stored_bytes_for_chunk_size}

-- Nothing is set; an address is its text.
abbrev no_values : Env
no_values name = none

default_accepted : validate (default (bytes "127.0.0.1:8080")) ≡ ok tt
unfolding validate max_stored_bytes_for_chunk_size checked_mul
default_accepted = refl

validate_iff_example :
    (validate (default (bytes "127.0.0.1:8080")) ≡ ok tt)
    ↔ IsValid (default (bytes "127.0.0.1:8080"))
validate_iff_example = validate_iff (default (bytes "127.0.0.1:8080"))

chunk_count-validate_example : (n : ℕ) × (chunk_count 1000 4194304 ≡ ok n)
chunk_count-validate_example =
    chunk_count-validate (default (bytes "127.0.0.1:8080")) 1000 default_accepted (omega arith)

from_values-eq-read_values_example :
    (from_values (bytes "127.0.0.1:8080") some no_values
      ≡ read_values (bytes "127.0.0.1:8080") some no_values)
    × ((c : Config Text) → from_values (bytes "127.0.0.1:8080") some no_values ≡ ok c → IsValid c)
from_values-eq-read_values_example =
    from_values-eq-read_values (bytes "127.0.0.1:8080") some no_values
