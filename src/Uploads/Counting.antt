-- ===== src/Uploads/Counting.antt =====
-- A list of distinct numbers below a bound that is as long as the bound has all of them.
use patwari.Prelude.{
  All, Bool, Bool-cases, List, [], ap, arith, false, if◌then◌else◌, inl, inr, length, ltb, refl,
  suc, true, zero, ℕ, ◌+◌, ◌<◌, ◌==◌, ◌||◌, ◌∷◌, ◌≡◌, ◌≢◌, ◌≤◌,
}

abbrev pub elem : ℕ → List ℕ → Bool
elem x [] = false
elem x (y ∷ ys) = y == x || elem x ys

abbrev pub Distinct : List ℕ → Type 0
Distinct [] = Unit
Distinct (x ∷ xs) = (elem x xs ≡ false) × Distinct xs

abbrev erase : ℕ → List ℕ → List ℕ
erase x [] = []
erase x (y ∷ ys) = if y == x then ys else y ∷ erase x ys

length-erase : (x : ℕ) (ys : List ℕ) → elem x ys ≡ true → length (erase x ys) + 1 ≡ length ys
length-erase x [] h = cc
length-erase x (y ∷ ys) h = ground (arith, length-erase x ys)

elem-erase : (x z : ℕ) (ys : List ℕ) → z ≢ x → elem z ys ≡ true → elem z (erase x ys) ≡ true
elem-erase x z [] n h = cc
elem-erase x z (y ∷ ys) n h = ground (arith, elem-erase x z ys n)

elem-All-erase :
    (x : ℕ) (xs ys : List ℕ)
    → elem x xs ≡ false
    → All (λ z. elem z ys ≡ true) xs
    → All (λ z. elem z (erase x ys) ≡ true) xs
elem-All-erase x [] ys n h = tt
elem-All-erase x (z ∷ xs) ys n h =
    (elem-erase x z ys (ground arith) h.0, elem-All-erase x xs ys (ground arith) h.1)

length-Distinct :
    (xs ys : List ℕ) → Distinct xs → All (λ z. elem z ys ≡ true) xs → length xs ≤ length ys
length-Distinct [] ys d h = omega arith
length-Distinct (x ∷ xs) ys d h = omega (
  arith,
  length-erase x ys h.0,
  length-Distinct xs (erase x ys) d.1 (elem-All-erase x xs ys d.0 h.1),
)

-- The numbers below a bound.
abbrev below : ℕ → List ℕ
below zero = []
below (suc n) = n ∷ below n

length-below : (n : ℕ) → length (below n) ≡ n
length-below zero = refl
length-below (suc n) = ap suc (length-below n)

elem-below : (i n : ℕ) → elem i (below n) ≡ ltb i n
elem-below i zero = ground arith
elem-below i (suc n) = ground (arith, elem-below i n)

below-Distinct : (n : ℕ) → Distinct (below n)
below-Distinct zero = tt
below-Distinct (suc n) = (ground (arith, elem-below n n), below-Distinct n)

All-below : (n : ℕ) (ks : List ℕ) → All (λ k. k < n) ks → All (λ k. elem k (below n) ≡ true) ks
All-below n [] h = tt
All-below n (k ∷ ks) h = (ground (arith, elem-below k n), All-below n ks h.1)

below-All :
    (n : ℕ) (ks : List ℕ)
    → ((i : ℕ) → i < n → elem i ks ≡ true)
    → All (λ k. elem k ks ≡ true) (below n)
below-All zero ks h = tt
below-All (suc n) ks h = (h n (omega arith), below-All n ks (λ i b. h i (omega arith)))

-- Distinct numbers below `n`, as many as `n`: every one of them.
pub elem-full :
    (n : ℕ) (ks : List ℕ)
    → Distinct ks
    → All (λ k. k < n) ks
    → length ks ≡ n
    → (i : ℕ) → i < n
    → elem i ks ≡ true
elem-full n ks d b l i h = elim (Bool-cases (elem i ks)) [
  | inl t ↦ t
  | inr f ↦
      let small =
        length-Distinct (i ∷ ks) (below n) (f, d)
          (ground (arith, elem-below i n), All-below n ks b) in
      ground (arith, length-below n)
]

pub length-full :
    (n : ℕ) (ks : List ℕ)
    → Distinct ks
    → All (λ k. k < n) ks
    → ((i : ℕ) → i < n → elem i ks ≡ true)
    → length ks ≡ n
length-full n ks d b h = omega (
  arith,
  length-below n,
  length-Distinct ks (below n) d (All-below n ks b),
  length-Distinct (below n) ks (below-Distinct n) (below-All n ks h),
)
