-- ===== src/Uploads/Bitmap.antt =====
-- The bitmap of the chunks that an artifact has (crates/patwari-server/src/ingestion.rs,
-- `upload_artifact_status`).
use patwari.Prelude.{
  Bool, List, [], arith, false, if◌then◌else◌, length, refl, suc, zero, ℕ, ◌%◌, ◌&&◌, ◌*◌, ◌+◌, ◌/◌,
  ◌<◌, ◌==◌, ◌||◌, ◌∷◌, ◌≡◌,
}

-- `byte & (1 << bit) != 0`, digit by digit
unfoldable pub has_bit : ℕ → ℕ → Bool
has_bit zero byte = byte % 2 == 1
has_bit (suc bit) byte = has_bit bit (byte / 2)

-- `byte |= 1 << bit`, digit by digit
unfoldable pub set_bit : ℕ → ℕ → ℕ
set_bit zero byte = if byte % 2 == 1 then byte else byte + 1
set_bit (suc bit) byte = 2 * set_bit bit (byte / 2) + byte % 2

-- The two at a byte of the bitmap.
unfoldable pub bitmap_has : ℕ → ℕ → List ℕ → Bool
unfolding has_bit
bitmap_has index bit [] = false
bitmap_has zero bit (byte ∷ bitmap) = has_bit bit byte
bitmap_has (suc index) bit (byte ∷ bitmap) = bitmap_has index bit bitmap

unfoldable pub bitmap_set : ℕ → ℕ → List ℕ → List ℕ
unfolding set_bit
bitmap_set index bit [] = []
bitmap_set zero bit (byte ∷ bitmap) = set_bit bit byte ∷ bitmap
bitmap_set (suc index) bit (byte ∷ bitmap) = byte ∷ bitmap_set index bit bitmap

-- `vec![0; n]`
unfoldable pub empty_bitmap : ℕ → List ℕ
empty_bitmap zero = []
empty_bitmap (suc n) = 0 ∷ empty_bitmap n

unfoldable pub is_marked : List ℕ → ℕ → Bool
unfolding bitmap_has
is_marked bitmap chunk = bitmap_has (chunk / 8) (chunk % 8) bitmap

unfoldable pub mark : ℕ → List ℕ → List ℕ
unfolding bitmap_set
mark chunk bitmap = bitmap_set (chunk / 8) (chunk % 8) bitmap

has_bit-set_bit : (i j byte : ℕ) → has_bit j (set_bit i byte) ≡ (i == j || has_bit j byte)
unfolding has_bit set_bit
has_bit-set_bit zero zero byte = ground arith
has_bit-set_bit zero (suc j) byte =
    let same : set_bit zero byte / 2 ≡ byte / 2 = ground arith in ground (arith, same)
has_bit-set_bit (suc i) zero byte = ground arith
has_bit-set_bit (suc i) (suc j) byte =
    let half : (2 * set_bit i (byte / 2) + byte % 2) / 2 ≡ set_bit i (byte / 2) = omega arith in
    ground (arith, half, has_bit-set_bit i j (byte / 2))

bitmap_has-set :
    (index bit index' bit' : ℕ) (bitmap : List ℕ)
    → index < length bitmap
    → bitmap_has index' bit' (bitmap_set index bit bitmap)
      ≡ (((index == index') && (bit == bit')) || bitmap_has index' bit' bitmap)
unfolding bitmap_has bitmap_set
bitmap_has-set index bit index' bit' [] h = absurd (omega arith)
bitmap_has-set zero bit zero bit' (b ∷ bs) h = ground (arith, has_bit-set_bit bit bit' b)
bitmap_has-set zero bit (suc k) bit' (b ∷ bs) h = ground arith
bitmap_has-set (suc i) bit zero bit' (b ∷ bs) h = ground arith
bitmap_has-set (suc i) bit (suc k) bit' (b ∷ bs) h =
    ground (arith, bitmap_has-set i bit k bit' bs (omega arith))

-- Marking a chunk marks that chunk and no other.
pub is_marked-mark :
    (i j : ℕ) (bitmap : List ℕ)
    → i / 8 < length bitmap
    → is_marked (mark i bitmap) j ≡ (i == j || is_marked bitmap j)
unfolding is_marked mark
is_marked-mark i j bitmap h =
    let key : ((i / 8 == j / 8) && (i % 8 == j % 8)) ≡ (i == j) = ground arith in
    ground (arith, key, bitmap_has-set (i / 8) (i % 8) (j / 8) (j % 8) bitmap h)

length-bitmap_set :
    (index bit : ℕ) (bitmap : List ℕ) → length (bitmap_set index bit bitmap) ≡ length bitmap
unfolding bitmap_set
length-bitmap_set index bit [] = refl
length-bitmap_set zero bit (b ∷ bs) = refl
length-bitmap_set (suc i) bit (b ∷ bs) = omega (arith, length-bitmap_set i bit bs)

pub length-mark : (i : ℕ) (bitmap : List ℕ) → length (mark i bitmap) ≡ length bitmap
unfolding mark
length-mark i bitmap = length-bitmap_set (i / 8) (i % 8) bitmap

pub length-empty_bitmap : (n : ℕ) → length (empty_bitmap n) ≡ n
unfolding empty_bitmap
length-empty_bitmap zero = refl
length-empty_bitmap (suc n) = omega (arith, length-empty_bitmap n)

has_bit-zero : (bit : ℕ) → has_bit bit 0 ≡ false
unfolding has_bit
has_bit-zero zero = refl
has_bit-zero (suc bit) = has_bit-zero bit

bitmap_has-empty : (n index bit : ℕ) → bitmap_has index bit (empty_bitmap n) ≡ false
unfolding bitmap_has empty_bitmap
bitmap_has-empty zero index bit = ground arith
bitmap_has-empty (suc n) zero bit = has_bit-zero bit
bitmap_has-empty (suc n) (suc index) bit = bitmap_has-empty n index bit

pub is_marked-empty : (n i : ℕ) → is_marked (empty_bitmap n) i ≡ false
unfolding is_marked
is_marked-empty n i = bitmap_has-empty n (i / 8) (i % 8)
