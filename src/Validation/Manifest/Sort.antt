-- ===== src/Validation/Manifest/Sort.antt =====
-- `sort_unstable_by` on the logical paths. The paths that reach it are distinct, so the order of
-- equal elements does not matter, and insertion sort stands for the standard library's sort.
use patwari.Prelude.{List, [], if◌then◌else◌, text_leb, ◌∷◌}
use patwari.Contract.{Artifact}

unfoldable pub insert_artifact : Artifact → List Artifact → List Artifact
insert_artifact a [] = a ∷ []
insert_artifact a (b ∷ bs) =
    let rest = insert_artifact a bs in
    if text_leb a.logical_path b.logical_path then a ∷ b ∷ bs else b ∷ rest

unfoldable pub sort_artifacts : List Artifact → List Artifact
unfolding text_leb insert_artifact
sort_artifacts [] = []
sort_artifacts (a ∷ rest) = insert_artifact a (sort_artifacts rest)
