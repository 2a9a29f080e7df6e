-- ===== src/Locks/Stripes.antt =====
-- The stripe of an identifier (FNV-1a on 64 bits), and the stripes of a set of blob digests.
use Prim.Native.Nat.{bit_xor}
use patwari.Prelude.{
  List, Text, [], if◌then◌else◌, leb, map, u64_bound, ℕ, ◌%◌, ◌*◌, ◌++◌, ◌==◌, ◌∷◌,
}

abbrev pub upload_lock_stripes : ℕ
upload_lock_stripes = 256

abbrev pub snapshot_lock_stripes : ℕ
snapshot_lock_stripes = 256

abbrev pub blob_lock_stripes : ℕ
blob_lock_stripes = 256

abbrev pub fnv_offset_basis : ℕ
fnv_offset_basis = 0xcbf29ce484222325

abbrev pub fnv_prime : ℕ
fnv_prime = 0x00000100000001b3

-- The loop over the bytes; `wrapping_mul` is the remainder by 2 ^ 64.
unfoldable pub fnv : ℕ → Text → ℕ
fnv hash [] = hash
fnv hash (byte ∷ rest) = fnv (bit_xor hash byte * fnv_prime % u64_bound) rest

unfoldable pub stable_lock_stripe : Text → ℕ → ℕ
unfolding fnv
stable_lock_stripe text stripe_count = fnv fnv_offset_basis text % stripe_count

unfoldable pub upload_lock_stripe : Text → ℕ
unfolding fnv
upload_lock_stripe upload_id = fnv fnv_offset_basis upload_id % upload_lock_stripes

unfoldable pub snapshot_lock_stripe : Text → Text → ℕ
unfolding stable_lock_stripe
snapshot_lock_stripe session_id fingerprint =
    stable_lock_stripe (session_id ++ (0 ∷ fingerprint)) snapshot_lock_stripes

unfoldable pub blob_lock_stripe : Text → Text → ℕ
unfolding stable_lock_stripe
blob_lock_stripe owner_namespace stored_sha256 =
    stable_lock_stripe (owner_namespace ++ (0 ∷ stored_sha256)) blob_lock_stripes

-- `sort_unstable` on numbers: equal elements are the same.
unfoldable pub insert_sorted : ℕ → List ℕ → List ℕ
insert_sorted a [] = a ∷ []
insert_sorted a (b ∷ l) = let rest = insert_sorted a l in if leb a b then a ∷ b ∷ l else b ∷ rest

unfoldable pub sort_unstable : List ℕ → List ℕ
unfolding insert_sorted
sort_unstable [] = []
sort_unstable (a ∷ l) = insert_sorted a (sort_unstable l)

-- `dedup`: drops the elements that equal the one before them.
unfoldable pub dedup : List ℕ → List ℕ
dedup [] = []
dedup (a ∷ []) = a ∷ []
dedup (a ∷ b ∷ l) = let rest = dedup (b ∷ l) in if a == b then rest else a ∷ rest

-- The stripes in place of the locks that stand at them.
unfoldable pub blob_locks_for_digests : Text → List Text → List ℕ
unfolding sort_unstable dedup
blob_locks_for_digests owner_namespace digests =
    dedup (sort_unstable (map (blob_lock_stripe owner_namespace) digests))
