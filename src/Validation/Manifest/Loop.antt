-- ===== src/Validation/Manifest/Loop.antt =====
-- What the loop over all the artifacts has checked when it ends.
use mathlib.Core.List.{append-nil, append_assoc}
use patwari.Prelude.{
  >>=-eq-ok, All, List, Option-cases, Text, [], append-strip_prefix, arith, inl, inr, map, ok, refl,
  some, sym, text_eq_iff, true, u64_bound, ℕ, ◌++◌, ◌+◌, ◌<◌, ◌∙◌, ◌∷◌, ◌≡◌, ◌≢◌, ◌≤◌,
}
use patwari.Contract.{Artifact, ArtifactInput, Compression}
use patwari.Validation.Fields.{sha256_prefix}
use patwari.Validation.LogicalPath.{to_ascii_lowercase}
use patwari.Validation.Manifest.Artifacts.{
  IsAccepted, step-IsAccepted, step_digest, step_original, step_paths, step_stored,
}
use patwari.Validation.Manifest.{
  External, ManifestLimits, Progress, add_representation, artifact_of, compression_eq,
  contains_text, normalize_artifact, normalize_artifacts, representation,
}

abbrev pub portable : Artifact → Text
portable a = to_ascii_lowercase a.logical_path

-- A sum over the artifacts.
abbrev pub sum_of : (Artifact → ℕ) → List Artifact → ℕ
sum_of size [] = 0
sum_of size (a ∷ rest) = size a + sum_of size rest

abbrev pub sum_original : List Artifact → ℕ
sum_original = sum_of (λ a. a.original_size_bytes)

abbrev pub sum_stored : List Artifact → ℕ
sum_stored = sum_of (λ a. a.stored_size_bytes)

-- No two artifacts have the same portable path.
abbrev pub UniquePaths : List Artifact → Type 0
UniquePaths [] = Unit
UniquePaths (a ∷ rest) = All (λ b. portable a ≢ portable b) rest × UniquePaths rest

-- The value that a stored digest has among the representations.
abbrev pub IsRepresented : List (Text × (ℕ × Compression)) → Artifact → Type 0
IsRepresented known a =
    (d : Text) × (a.stored_sha256 ≡ sha256_prefix ++ d)
    × (representation d known ≡ some (a.stored_size_bytes, a.compression))

compression_eq_sound : (c d : Compression) → compression_eq c d ≡ true → c ≡ d
compression_eq_sound Compression.identity Compression.identity h = refl
compression_eq_sound Compression.identity Compression.zstd h = cc
compression_eq_sound Compression.zstd Compression.identity h = cc
compression_eq_sound Compression.zstd Compression.zstd h = refl

module _ (d : Text) (size : ℕ) (c : Compression) (known : List (Text × (ℕ × Compression)))
    (after : List (Text × (ℕ × Compression)))
    (h : add_representation d size c known ≡ ok after) where
  old_value :
      (s : ℕ) (k : Compression)
      → representation d known ≡ some (s, k)
      → (s ≡ size) × (k ≡ c) × (after ≡ known)
  unfolding add_representation
  old_value s k e = ground (arith, compression_eq_sound k c)

  represents : representation d after ≡ some (size, c)
  unfolding add_representation
  represents = elim (Option-cases (representation d known)) [
    | inl e ↦ ground (arith, text_eq_iff d d)
    | inr ((s, k), e) ↦ let (es, ek, same) = old_value s k e in rw same (e ∙ cc (es, ek))
  ]

  keeps :
      (j : Text) (v : ℕ × Compression)
      → representation j known ≡ some v
      → representation j after ≡ some v
  unfolding add_representation
  keeps j v e = elim (Option-cases (representation d known)) [
    | inl absent ↦ ground (arith, text_eq_iff d j)
    | inr ((s, k), known_d) ↦ rw (old_value s k known_d).2 e
  ]

module _ (ext : External) (limits : ManifestLimits) where
  pub loop-IsAccepted :
      (is : List ArtifactInput) (p q : Progress)
      → normalize_artifacts ext is limits p ≡ ok q
      → All (IsAccepted limits) (map artifact_of is)
  unfolding normalize_artifacts
  loop-IsAccepted [] p q h = tt
  loop-IsAccepted (i ∷ is) p q h =
      let (p', first, rest) = >>=-eq-ok (normalize_artifact ext i limits p) _ h in
      (step-IsAccepted ext limits i p p' first, loop-IsAccepted is p' q rest)

  pub loop_pushed :
      (is : List ArtifactInput) (p q : Progress)
      → normalize_artifacts ext is limits p ≡ ok q
      → q.normalized ≡ p.normalized ++ map artifact_of is
  unfolding normalize_artifacts
  loop_pushed [] p q h = rw append-nil (ground arith)
  loop_pushed (i ∷ is) p q h =
      let (p', first, rest) = >>=-eq-ok (normalize_artifact ext i limits p) _ h in
      loop_pushed is p' q rest ∙ rw ((step_paths ext limits i p p' first).2, append_assoc)

  pub loop_original :
      (is : List ArtifactInput) (p q : Progress)
      → normalize_artifacts ext is limits p ≡ ok q
      → p.original_total ≤ limits.snapshot_original_bytes
      → p.original_total < u64_bound
      → (q.original_total ≡ p.original_total + sum_original (map artifact_of is))
        × (q.original_total ≤ limits.snapshot_original_bytes)
        × (q.original_total < u64_bound)
  unfolding normalize_artifacts
  loop_original [] p q h l b = ground arith
  loop_original (i ∷ is) p q h l b =
      let (p', first, rest) = >>=-eq-ok (normalize_artifact ext i limits p) _ h in
      let s = step_original ext limits i p p' first in
      omega (arith, loop_original is p' q rest s.1 s.2)

  pub loop_stored :
      (is : List ArtifactInput) (p q : Progress)
      → normalize_artifacts ext is limits p ≡ ok q
      → p.stored_total ≤ limits.snapshot_stored_bytes
      → p.stored_total < u64_bound
      → (q.stored_total ≡ p.stored_total + sum_stored (map artifact_of is))
        × (q.stored_total ≤ limits.snapshot_stored_bytes)
        × (q.stored_total < u64_bound)
  unfolding normalize_artifacts
  loop_stored [] p q h l b = ground arith
  loop_stored (i ∷ is) p q h l b =
      let (p', first, rest) = >>=-eq-ok (normalize_artifact ext i limits p) _ h in
      let s = step_stored ext limits i p p' first in omega (arith, loop_stored is p' q rest s.1 s.2)

  -- A portable path that is in the set already is not the path of a later artifact.
  pub loop_fresh :
      (t : Text) (is : List ArtifactInput) (p q : Progress)
      → normalize_artifacts ext is limits p ≡ ok q
      → contains_text t p.portable_paths ≡ true
      → All (λ b. t ≢ portable b) (map artifact_of is) × (contains_text t q.portable_paths ≡ true)
  unfolding normalize_artifacts contains_text
  loop_fresh t [] p q h c = (tt, ground arith)
  loop_fresh t (i ∷ is) p q h c =
      let (p', first, rest) = >>=-eq-ok (normalize_artifact ext i limits p) _ h in
      let (fresh, paths, _) = step_paths ext limits i p p' first in
      let later = loop_fresh t is p' q rest (ground (arith, paths)) in
      ((λ e. cc (fresh, c, e), later.0), later.1)

  pub loop_unique :
      (is : List ArtifactInput) (p q : Progress)
      → normalize_artifacts ext is limits p ≡ ok q
      → UniquePaths (map artifact_of is)
  unfolding normalize_artifacts contains_text
  loop_unique [] p q h = tt
  loop_unique (i ∷ is) p q h =
      let (p', first, rest) = >>=-eq-ok (normalize_artifact ext i limits p) _ h in
      let (fresh, paths, _) = step_paths ext limits i p p' first in
      let t = to_ascii_lowercase i.logical_path in
      (
        (loop_fresh t is p' q rest (rw paths (ground (arith, text_eq_iff t t)))).0,
        loop_unique is p' q rest,
      )

  pub loop_keeps :
      (is : List ArtifactInput) (p q : Progress)
      → normalize_artifacts ext is limits p ≡ ok q
      → (j : Text) (v : ℕ × Compression) → representation j p.representations ≡ some v
      → representation j q.representations ≡ some v
  unfolding normalize_artifacts
  loop_keeps [] p q h j v e = ground arith
  loop_keeps (i ∷ is) p q h j v e =
      let (p', first, rest) = >>=-eq-ok (normalize_artifact ext i limits p) _ h in
      let (d, _, added) = step_digest ext limits i p p' first in
      loop_keeps is p' q rest j v
        (keeps d i.stored_size_bytes i.compression p.representations p'.representations added j v e)

  pub loop-IsRepresented :
      (is : List ArtifactInput) (p q : Progress)
      → normalize_artifacts ext is limits p ≡ ok q
      → All (IsRepresented q.representations) (map artifact_of is)
  unfolding normalize_artifacts
  loop-IsRepresented [] p q h = tt
  loop-IsRepresented (i ∷ is) p q h =
      let (p', first, rest) = >>=-eq-ok (normalize_artifact ext i limits p) _ h in
      let (d, stripped, added) = step_digest ext limits i p p' first in
      (
        (
          d,
          sym (append-strip_prefix sha256_prefix i.stored_sha256 stripped),
          loop_keeps is p' q rest d _ (
              represents d i.stored_size_bytes i.compression p.representations p'.representations
                added),
        ),
        loop-IsRepresented is p' q rest,
      )

  -- Every portable path of the artifacts is in the set at the end.
  pub loop_contains :
      (is : List ArtifactInput) (p q : Progress)
      → normalize_artifacts ext is limits p ≡ ok q
      → All (λ b. contains_text (portable b) q.portable_paths ≡ true) (map artifact_of is)
  unfolding normalize_artifacts contains_text
  loop_contains [] p q h = tt
  loop_contains (i ∷ is) p q h =
      let (p', first, rest) = >>=-eq-ok (normalize_artifact ext i limits p) _ h in
      let (fresh, paths, _) = step_paths ext limits i p p' first in
      let t = to_ascii_lowercase i.logical_path in
      (
        (loop_fresh t is p' q rest (rw paths (ground (arith, text_eq_iff t t)))).1,
        loop_contains is p' q rest,
      )
