-- ===== src/Validation/Manifest/Order.antt =====
-- The sort of the artifacts: it keeps them and puts their paths in ascending order.
use mathlib.Core.List.Perm
use mathlib.Core.List.{Perm}
use patwari.Prelude.{
  All, Bool-cases, List, [], ap, arith, inl, inr, refl, sym, text_leb, text_leb-total, true, ℕ, ◌+◌,
  ◌∷◌, ◌≡◌, ◌≢◌,
}
use patwari.Contract.{Artifact}
use patwari.Validation.LogicalPath.{to_ascii_lowercase}
use patwari.Validation.Manifest.Loop.{UniquePaths, portable, sum_of}
use patwari.Validation.Manifest.{insert_artifact, sort_artifacts}

-- Adjacent artifacts in strictly ascending order of their logical paths.
abbrev pub Ascending : List Artifact → Type 0
Ascending [] = Unit
Ascending (a ∷ []) = Unit
Ascending (a ∷ b ∷ rest) =
    (text_leb a.logical_path b.logical_path ≡ true)
    × (a.logical_path ≢ b.logical_path)
    × Ascending (b ∷ rest)

abbrev Sorted : List Artifact → Type 0
Sorted [] = Unit
Sorted (a ∷ []) = Unit
Sorted (a ∷ b ∷ rest) = (text_leb a.logical_path b.logical_path ≡ true) × Sorted (b ∷ rest)

insert_artifact-Sorted :
    (a : Artifact) (l : List Artifact) → Sorted l → Sorted (insert_artifact a l)
unfolding insert_artifact
insert_artifact-Sorted a [] s = tt
insert_artifact-Sorted a (b ∷ []) s = ground (arith, text_leb-total a.logical_path b.logical_path)
insert_artifact-Sorted a (b ∷ c ∷ l) s =
    ground (arith, text_leb-total a.logical_path b.logical_path, insert_artifact-Sorted a (c ∷ l))

sort_artifacts-Sorted : (l : List Artifact) → Sorted (sort_artifacts l)
unfolding sort_artifacts
sort_artifacts-Sorted [] = tt
sort_artifacts-Sorted (a ∷ l) =
    insert_artifact-Sorted a (sort_artifacts l) (sort_artifacts-Sorted l)

insert_artifact-perm : (a : Artifact) (l : List Artifact) → Perm (insert_artifact a l) (a ∷ l)
unfolding insert_artifact
insert_artifact-perm a [] = Perm.refl _
insert_artifact-perm a (b ∷ l) = elim (Bool-cases (text_leb a.logical_path b.logical_path)) [
  | inl e ↦ rw e (Perm.refl _)
  | inr e ↦ rw e (Perm.trans (Perm.cons b (insert_artifact-perm a l)) (Perm.swap a b l))
]

pub sort_artifacts-perm : (l : List Artifact) → Perm (sort_artifacts l) l
unfolding sort_artifacts
sort_artifacts-perm [] = Perm.refl _
sort_artifacts-perm (a ∷ l) =
    Perm.trans (insert_artifact-perm a (sort_artifacts l)) (Perm.cons a (sort_artifacts-perm l))

module _ {ℓ} (P : Artifact → Type ℓ) where
  insert_artifact-All :
      (a : Artifact) (l : List Artifact) → P a → All P l → All P (insert_artifact a l)
  unfolding insert_artifact
  insert_artifact-All a [] p h = (p, tt)
  insert_artifact-All a (b ∷ l) p h = elim (Bool-cases (text_leb a.logical_path b.logical_path)) [
    | inl e ↦ rw e (p, h)
    | inr e ↦ rw e (h.0, insert_artifact-All a l p h.1)
  ]

  pub sort_artifacts-All : (l : List Artifact) → All P l → All P (sort_artifacts l)
  unfolding sort_artifacts
  sort_artifacts-All [] h = tt
  sort_artifacts-All (a ∷ l) h =
      insert_artifact-All a (sort_artifacts l) h.0 (sort_artifacts-All l h.1)

insert_artifact-UniquePaths :
    (a : Artifact) (l : List Artifact) → UniquePaths (a ∷ l) → UniquePaths (insert_artifact a l)
unfolding insert_artifact
insert_artifact-UniquePaths a [] u = u
insert_artifact-UniquePaths a (b ∷ l) u =
    elim (Bool-cases (text_leb a.logical_path b.logical_path)) [
      | inl e ↦ rw e u
      | inr e ↦ rw e (
        insert_artifact-All (λ c. portable b ≢ portable c) a l (λ q. u.0.0 (sym q)) u.1.0,
        insert_artifact-UniquePaths a l (u.0.1, u.1.1),
      )
    ]

pub sort_artifacts-UniquePaths :
    (l : List Artifact) → UniquePaths l → UniquePaths (sort_artifacts l)
unfolding sort_artifacts
sort_artifacts-UniquePaths [] u = tt
sort_artifacts-UniquePaths (a ∷ l) u =
    insert_artifact-UniquePaths a (sort_artifacts l)
      (sort_artifacts-All _ l u.0, sort_artifacts-UniquePaths l u.1)

strictly : (l : List Artifact) → Sorted l → UniquePaths l → Ascending l
strictly [] s u = tt
strictly (a ∷ []) s u = tt
strictly (a ∷ b ∷ l) s u = (s.0, λ e. u.0.0 (ap to_ascii_lowercase e), strictly (b ∷ l) s.1 u.1)

pub sort_artifacts-Ascending : (l : List Artifact) → UniquePaths l → Ascending (sort_artifacts l)
sort_artifacts-Ascending l u =
    strictly (sort_artifacts l) (sort_artifacts-Sorted l) (sort_artifacts-UniquePaths l u)

-- A sum of sizes, and a length, do not depend on the order.
module _ (size : Artifact → ℕ) where
  insert_artifact-sum :
      (a : Artifact) (l : List Artifact)
      → sum_of size (insert_artifact a l) ≡ size a + sum_of size l
  unfolding insert_artifact
  insert_artifact-sum a [] = refl
  insert_artifact-sum a (b ∷ l) = ground (arith, insert_artifact-sum a l)

  pub sort_artifacts-sum : (l : List Artifact) → sum_of size (sort_artifacts l) ≡ sum_of size l
  unfolding sort_artifacts
  sort_artifacts-sum [] = refl
  sort_artifacts-sum (a ∷ l) =
      omega (arith, insert_artifact-sum a (sort_artifacts l), sort_artifacts-sum l)
