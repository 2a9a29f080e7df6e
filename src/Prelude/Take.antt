-- ===== src/Prelude/Take.antt =====
-- Prefixes of lists: what a page and its look-ahead row hold.
use Prim.Native.Nat.{ℕ, zero, suc, ◌+◌, ◌≤◌, ◌<◌}
use mathlib.Core.Path.{◌≡◌, refl, ap, subst}
use mathlib.Core.List.{List, [], ◌∷◌, ◌++◌}
use mathlib.Core.Option.{some}
use native.Mathlib.Omega.{arith}
use patwari.Prelude.Tests.{ltb}
use patwari.Prelude.Lists.{length, take, last}

module _ {ℓ} {A : Type ℓ} where
  pub append_assoc : (xs ys zs : List A) → (xs ++ ys) ++ zs ≡ xs ++ (ys ++ zs)
  append_assoc [] ys zs = refl
  append_assoc (x ∷ xs) ys zs = ap (λ l. x ∷ l) (append_assoc xs ys zs)

  take-take-suc : (n : ℕ) (xs : List A) → take n (take (suc n) xs) ≡ take n xs
  take-take-suc zero xs = refl
  take-take-suc (suc n) [] = refl
  take-take-suc (suc n) (x ∷ xs) = ap (λ l. x ∷ l) (take-take-suc n xs)

  length-take-suc : (n : ℕ) (xs : List A) → ltb n (length (take (suc n) xs)) ≡ ltb n (length xs)
  length-take-suc zero [] = refl
  length-take-suc zero (x ∷ xs) = ground arith
  length-take-suc (suc n) [] = refl
  length-take-suc (suc n) (x ∷ xs) = ground (arith, length-take-suc n xs)

  -- One element more than is asked for: the same prefix, and it shows whether there is more.
  pub take-take_more : (n : ℕ) (xs : List A) → take n (take (n + 1) xs) ≡ take n xs
  take-take_more n xs =
      subst (λ m. take n (take m xs) ≡ take n xs) {x = suc n} (omega arith) (take-take-suc n xs)

  pub length-take_more :
      (n : ℕ) (xs : List A) → ltb n (length (take (n + 1) xs)) ≡ ltb n (length xs)
  length-take_more n xs =
      subst (λ m. ltb n (length (take m xs)) ≡ ltb n (length xs)) {x = suc n} (omega arith)
        (length-take-suc n xs)

  pub take-all : (n : ℕ) (xs : List A) → length xs ≤ n → take n xs ≡ xs
  take-all zero [] h = refl
  take-all zero (x ∷ xs) h = ground arith
  take-all (suc n) [] h = refl
  take-all (suc n) (x ∷ xs) h = ap (λ l. x ∷ l) (take-all n xs (omega arith))

  -- A prefix that is not empty has a last element, and the rest is shorter.
  pub take-snoc :
      (n : ℕ) (xs : List A)
      → 1 ≤ n
      → n < length xs
      → (init : List A) × (y : A) × (rest : List A) × (take n xs ≡ init ++ (y ∷ []))
        × (last (take n xs) ≡ some y)
        × (xs ≡ init ++ (y ∷ rest))
        × (length rest + 1 ≤ length xs)
  take-snoc zero xs p q = ground arith
  take-snoc (suc n) [] p q = ground arith
  take-snoc (suc zero) (x ∷ xs) p q = ([], x, xs, refl, refl, refl, omega arith)
  take-snoc (suc (suc n)) (x ∷ []) p q = ground arith
  take-snoc (suc (suc n)) (x ∷ y ∷ xs) p q =
      let (init, z, rest, t, l, e, b) = take-snoc (suc n) (y ∷ xs) (omega arith) (omega arith) in
      (x ∷ init, z, rest, ap (λ k. x ∷ k) t, l, ap (λ k. x ∷ k) e, omega (arith, b))
