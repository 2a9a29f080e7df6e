-- ===== src/Locks/Order.antt =====
-- The blob locks of a set of digests are taken in strictly ascending order, each once.
use patwari.Prelude.{
  Bool-cases, List, Text, [], ap, arith, inl, inr, map, refl, ℕ, ◌<◌, ◌==◌, ◌↔◌, ◌∙◌, ◌∷◌, ◌≡◌, ◌≤◌,
  ◌⊎◌,
}
use patwari.Locks.{
  blob_lock_stripe, blob_lock_stripes, blob_locks_for_digests, dedup, insert_sorted, sort_unstable,
  stable_lock_stripe,
}

abbrev pub Ascending : List ℕ → Type 0
Ascending [] = Unit
Ascending (a ∷ []) = Unit
Ascending (a ∷ b ∷ l) = (a < b) × Ascending (b ∷ l)

abbrev Sorted : List ℕ → Type 0
Sorted [] = Unit
Sorted (a ∷ []) = Unit
Sorted (a ∷ b ∷ l) = (a ≤ b) × Sorted (b ∷ l)

abbrev pub In : ℕ → List ℕ → Type 0
In a [] = ⊥
In a (b ∷ l) = (a ≡ b) ⊎ In a l

insert_sorted-Sorted : (a : ℕ) (l : List ℕ) → Sorted l → Sorted (insert_sorted a l)
unfolding insert_sorted
insert_sorted-Sorted a [] s = tt
insert_sorted-Sorted a (b ∷ []) s = ground arith
insert_sorted-Sorted a (b ∷ c ∷ l) s = ground (arith, insert_sorted-Sorted a (c ∷ l))

sort_unstable-Sorted : (l : List ℕ) → Sorted (sort_unstable l)
unfolding sort_unstable
sort_unstable-Sorted [] = tt
sort_unstable-Sorted (a ∷ l) = insert_sorted-Sorted a (sort_unstable l) (sort_unstable-Sorted l)

-- The first element stays the first.
dedup-head : (a : ℕ) (l : List ℕ) → (r : List ℕ) × (dedup (a ∷ l) ≡ a ∷ r)
unfolding dedup
dedup-head a [] = ([], refl)
dedup-head a (b ∷ l) = elim (Bool-cases (a == b)) [
  | inl e ↦ let (r, f) = dedup-head b l in (r, ground arith)
  | inr e ↦ (dedup (b ∷ l), ground arith)
]

dedup-Ascending : (l : List ℕ) → Sorted l → Ascending (dedup l)
unfolding dedup
dedup-Ascending [] s = tt
dedup-Ascending (a ∷ []) s = tt
dedup-Ascending (a ∷ b ∷ l) s = elim (Bool-cases (a == b)) [
  | inl e ↦ rw e (dedup-Ascending (b ∷ l) s.1)
  | inr e ↦
      let (r, f) = dedup-head b l in rw (e, f) (ground arith, rw f at (dedup-Ascending (b ∷ l) s.1))
]

insert_sorted-In : (x a : ℕ) (l : List ℕ) → In x (insert_sorted a l) ↔ In x (a ∷ l)
unfolding insert_sorted
insert_sorted-In x a [] = (λ h. h, λ h. h)
insert_sorted-In x a (b ∷ l) = ground (arith, insert_sorted-In x a l)

sort_unstable-In : (x : ℕ) (l : List ℕ) → In x (sort_unstable l) ↔ In x l
unfolding sort_unstable
sort_unstable-In x [] = (λ h. h, λ h. h)
sort_unstable-In x (a ∷ l) =
    ground (arith, insert_sorted-In x a (sort_unstable l), sort_unstable-In x l)

dedup-In : (x : ℕ) (l : List ℕ) → In x (dedup l) ↔ In x l
unfolding dedup
dedup-In x [] = (λ h. h, λ h. h)
dedup-In x (a ∷ []) = (λ h. h, λ h. h)
dedup-In x (a ∷ b ∷ l) = ground (arith, dedup-In x (b ∷ l))

stripe-bound : (owner d : Text) → blob_lock_stripe owner d < blob_lock_stripes
unfolding blob_lock_stripe stable_lock_stripe
stripe-bound owner d = omega arith

abbrev pub InText : Text → List Text → Type 0
InText a [] = ⊥
InText a (b ∷ l) = (a ≡ b) ⊎ InText a l

In-map :
    (f : Text → ℕ) (x : ℕ) (l : List Text) → In x (map f l) ↔ ((d : Text) × InText d l × (x ≡ f d))
In-map f x [] = (λ h. absurd h, λ h. absurd h.1)
In-map f x (b ∷ l) = (
  elim [ inl e ↦ (b, inl refl, e) | inr m ↦ let (d, k, e) = (In-map f x l).0 m in (d, inr k, e) ],
  λ h. elim h.1 [ inl same ↦ inl (h.2 ∙ ap f same) | inr k ↦ inr ((In-map f x l).1 (h.0, k, h.2)) ],
)

-- The stripes that are locked for a set of digests are in strictly ascending order, each below
-- the number of stripes, and are exactly the stripes of the digests.
pub blob_locks_for_digests-Ascending :
    (owner : Text) (digests : List Text)
    → Ascending (blob_locks_for_digests owner digests)
      × ((s : ℕ)
          → In s (blob_locks_for_digests owner digests)
            ↔ ((d : Text) × InText d digests × (s ≡ blob_lock_stripe owner d)))
      × ((s : ℕ) → In s (blob_locks_for_digests owner digests) → s < blob_lock_stripes)
unfolding blob_locks_for_digests
blob_locks_for_digests-Ascending owner digests =
    let stripes = map (blob_lock_stripe owner) digests in
    let members : (s : ℕ)
        → In s (dedup (sort_unstable stripes))
          ↔ ((d : Text) × InText d digests × (s ≡ blob_lock_stripe owner d)) =
      λ s. (
        λ m. (In-map _ s digests).0 ((sort_unstable-In s stripes).0 ((dedup-In s _).0 m)),
        λ m. (dedup-In s _).1 ((sort_unstable-In s stripes).1 ((In-map _ s digests).1 m)),
      ) in
    (
      dedup-Ascending (sort_unstable stripes) (sort_unstable-Sorted stripes),
      members,
      λ s m. let (d, _, e) = (members s).0 m in rw e (stripe-bound owner d),
    )
