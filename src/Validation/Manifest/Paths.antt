-- ===== src/Validation/Manifest/Paths.antt =====
-- The climb from a path through its parents finds exactly the parents that are declared paths.
use mathlib.Core.List.{append_assoc}
use patwari.Prelude.{
  Bool-cases, List, Option-cases, Text, [], ap, arith, false, inl, inr, length, length-append, none,
  some, suc, true, zero, ℕ, ◌++◌, ◌<◌, ◌∷◌, ◌≡◌, ◌⊎◌,
}
use patwari.Validation.LogicalPath.{slash}
use patwari.Validation.Manifest.{contains_text, has_parent_in, path_conflicts, rsplit_once}

-- `t` is a directory on the way to `path`.
abbrev pub IsParent : Text → Text → Type 0
IsParent t path = (rest : Text) × (path ≡ t ++ (slash ∷ rest))

rsplit_once-IsParent : (s : Text) {p : Text} → rsplit_once s ≡ some p → IsParent p s
unfolding rsplit_once
rsplit_once-IsParent [] h = cc
rsplit_once-IsParent (c ∷ s) {p} h = elim (Option-cases (rsplit_once s)) [
  | inl e ↦ (s, ground arith)
  | inr (q, e) ↦ let (rest, f) = rsplit_once-IsParent s e in (rest, ground arith)
]

rsplit_once-none : (s t : Text) → rsplit_once s ≡ none → ¬ (IsParent t s)
unfolding rsplit_once
rsplit_once-none [] [] h (rest, e) = ground arith
rsplit_once-none [] (d ∷ t) h (rest, e) = ground arith
rsplit_once-none (c ∷ s) [] h (rest, e) = ground arith
rsplit_once-none (c ∷ s) (d ∷ t) h (rest, e) = elim (Option-cases (rsplit_once s)) [
  | inl absent ↦ rsplit_once-none s t absent (rest, ground arith)
  | inr (q, found) ↦ ground arith
]

-- Every parent is the nearest one or a parent of that.
nearest : (s t p : Text) → rsplit_once s ≡ some p → IsParent t s → (t ≡ p) ⊎ IsParent t p
unfolding rsplit_once
nearest [] t p h parent = cc
nearest (c ∷ s) [] p h (rest, e) = elim (Option-cases (rsplit_once s)) [
  | inl absent ↦ inl (ground arith)
  | inr (q, found) ↦ inr (q, ground arith)
]
nearest (c ∷ s) (d ∷ t) p h (rest, e) = elim (Option-cases (rsplit_once s)) [
  | inl absent ↦ absurd (rsplit_once-none s t absent (rest, ground arith))
  | inr (q, found) ↦ elim (nearest s t q found (rest, ground arith)) [
    | inl same ↦ inl (ground arith)
    | inr (further, f) ↦ inr (further, ground arith)
  ]
]

parent-shorter : (s t : Text) → IsParent t s → length t < length s
parent-shorter s t (rest, e) = omega (arith, ap length e, length-append {0} t (slash ∷ rest))

IsParent-trans : (a b c : Text) → IsParent a b → IsParent b c → IsParent a c
IsParent-trans a b c (r, e) (s, f) = (r ++ (slash ∷ s), rw (f, e, append_assoc))

-- With fuel beyond the length of the path the climb ends, and it answers `true` exactly if some
-- parent of the path is among the paths.
pub has_parent_in-decides :
    (fuel : ℕ) (path : Text) (paths : List Text)
    → length path < fuel
    → ((has_parent_in fuel path paths ≡ some true)
        × ((t : Text) × IsParent t path × (contains_text t paths ≡ true)))
      ⊎ ((has_parent_in fuel path paths ≡ some false)
          × ((t : Text) → IsParent t path → contains_text t paths ≡ false))
unfolding has_parent_in
has_parent_in-decides zero path paths h = absurd (omega arith)
has_parent_in-decides (suc fuel) path paths h = elim (Option-cases (rsplit_once path)) [
  | inl root ↦ inr (ground arith, λ t parent. absurd (rsplit_once-none path t root parent))
  | inr (p, up) ↦
      let direct = rsplit_once-IsParent path up in
      elim (Bool-cases (contains_text p paths)) [
        | inl found ↦ inl (ground arith, (p, direct, found))
        | inr missing ↦
            elim (has_parent_in-decides fuel p paths
              (omega (arith, parent-shorter path p direct))) [
                | inl (e, (t, parent, found)) ↦
                    inl (ground arith, (t, IsParent-trans t p path parent direct, found))
                | inr (e, none_above) ↦ inr (
                  ground arith,
                  λ t parent. elim (nearest path t p up parent) [
                    | inl same ↦ rw same missing
                    | inr above ↦ none_above t above
                  ],
                )
              ]
      ]
]

-- A path does not conflict exactly if no parent of it is among the paths.
pub path_conflicts-false :
    (paths : List Text) (path : Text)
    → path_conflicts paths path ≡ false
    → (t : Text) → IsParent t path
    → contains_text t paths ≡ false
path_conflicts-false paths path h =
    elim (has_parent_in-decides (suc (length path)) path paths (omega arith)) [
      | inl (e, _) ↦ absurd (ground arith)
      | inr (e, clear) ↦ clear
    ]
