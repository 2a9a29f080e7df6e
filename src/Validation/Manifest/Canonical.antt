-- ===== src/Validation/Manifest/Canonical.antt =====
-- What a manifest that `normalize_manifest` accepts is known to satisfy.
use mathlib.Core.Bool.{false≢true}
use mathlib.Core.List.{Perm}
use patwari.Prelude.{
  All, Bool, Bool-cases, List, Option, Result-cases, Text, [], any, ap, arith, false, inl, inr,
  length, length-map, map, ok, refl, some, subst, sym, text_eq, text_eq_iff, true, u64_bound, ℕ,
  ◌++◌, ◌+◌, ◌<◌, ◌∙◌, ◌∷◌, ◌≡◌, ◌≤◌, ◌⊎◌,
}
use patwari.Contract.{Artifact, ArtifactInput, Compression, Manifest, ManifestInput}
use patwari.Validation.Fields.{sha256_prefix}
use patwari.Validation.Manifest.Artifacts.{IsAccepted}
use patwari.Validation.Manifest.Loop.{
  IsRepresented, UniquePaths, loop-IsAccepted, loop_contains, loop_original, loop_pushed,
  loop-IsRepresented, loop_stored, loop_unique, portable, sum_of, sum_original, sum_stored,
}
use patwari.Validation.Manifest.Order.{
  Ascending, sort_artifacts-All, sort_artifacts-Ascending, sort_artifacts-UniquePaths,
  sort_artifacts-perm, sort_artifacts-sum,
}
use patwari.Validation.Manifest.Paths.{IsParent, path_conflicts-false}
use patwari.Validation.Manifest.{
  External, ManifestLimits, Progress, artifact_of, contains_text, declared_artifacts, fold_totals,
  manifest_totals, normalize_artifacts, normalize_manifest, nothing_yet, path_conflicts,
  representation, sort_artifacts,
}

-- An element of a list, kept apart from the truncated membership of the library.
abbrev pub In : {A : Type 0} → A → List A → Type 0
In a [] = ⊥
In a (b ∷ l) = (a ≡ b) ⊎ In a l

All-In : {A : Type 0} (P : A → Type 0) (l : List A) {a : A} → All P l → In a l → P a
All-In P [] h m = absurd m
All-In P (b ∷ l) h (inl e) = subst P (sym e) h.0
All-In P (b ∷ l) h (inr m) = All-In P l h.1 m

any-false :
    (p : Text → Bool) (l : List Text) (t : Text)
    → any p l ≡ false
    → contains_text t l ≡ true
    → p t ≡ false
unfolding contains_text
any-false p [] t h c = cc
any-false p (u ∷ l) t h c = elim (Bool-cases (text_eq t u)) [
  | inl same ↦ let e : t ≡ u = (text_eq_iff t u).0 same in rw e (ground arith)
  | inr other ↦ any-false p l t (ground arith) (ground arith)
]

-- A sum that fits in a u64 is computed, whatever the order of its parts.
fold_totals-sums :
    (l : List Artifact) (o s : ℕ)
    → o + sum_original l < u64_bound
    → s + sum_stored l < u64_bound
    → fold_totals l o s ≡ ok (o + sum_original l, s + sum_stored l)
unfolding fold_totals
fold_totals-sums [] o s h k = ground arith
fold_totals-sums (a ∷ l) o s h k =
    ground (arith, fold_totals-sums l (o + a.original_size_bytes) (s + a.stored_size_bytes))

manifest_totals-sums :
    (m : Manifest)
    → sum_original m.artifacts < u64_bound
    → sum_stored m.artifacts < u64_bound
    → manifest_totals m ≡ ok (sum_original m.artifacts, sum_stored m.artifacts)
unfolding manifest_totals
manifest_totals-sums m h k =
    ground (arith, fold_totals-sums m.artifacts 0 0 (omega arith) (omega arith))

same_digest : (d e : Text) → sha256_prefix ++ d ≡ sha256_prefix ++ e → d ≡ e
same_digest d e h = cc

same_value :
    (s t : ℕ) (c d : Compression)
    → ◌≡◌ {A = Option (ℕ × Compression)} (some (s, c)) (some (t, d))
    → (s ≡ t) × (c ≡ d)
same_value s t c d h = ground arith

pub record IsCanonical (limits : ManifestLimits) (m : Manifest) : Type 0 where
  pub version : m.schema_version ≡ 1
  pub count : (0 < length m.artifacts) × (length m.artifacts ≤ limits.artifact_count)
  pub accepted : All (IsAccepted limits) m.artifacts
  pub ascending : Ascending m.artifacts
  pub unique : UniquePaths m.artifacts
  pub separate :
      (a b : Artifact)
      → In a m.artifacts
      → In b m.artifacts
      → ¬ (IsParent (portable a) (portable b))
  pub consistent :
      (a b : Artifact)
      → In a m.artifacts
      → In b m.artifacts
      → a.stored_sha256 ≡ b.stored_sha256
      → (a.stored_size_bytes ≡ b.stored_size_bytes) × (a.compression ≡ b.compression)
  pub totals : manifest_totals m ≡ ok (sum_original m.artifacts, sum_stored m.artifacts)
  pub bounded :
      (sum_original m.artifacts ≤ limits.snapshot_original_bytes)
      × (sum_stored m.artifacts ≤ limits.snapshot_stored_bytes)

-- The values at which the steps of an accepted normalization have stood.
record Run (ext : External) (input : ManifestInput) (limits : ManifestLimits) (m : Manifest)
    : Type 0 where
  inputs : List ArtifactInput
  declared : declared_artifacts input.artifacts input.artifact ≡ ok inputs
  progress : Progress
  looped : normalize_artifacts ext inputs limits nothing_yet ≡ ok progress
  counted : (0 < length inputs) × (length inputs ≤ limits.artifact_count)
  clear : any (path_conflicts progress.portable_paths) progress.portable_paths ≡ false
  version : m.schema_version ≡ 1
  result : m.artifacts ≡ sort_artifacts progress.normalized

run :
    (ext : External) (input : ManifestInput) (limits : ManifestLimits) (m : Manifest)
    → normalize_manifest ext input limits ≡ ok m
    → Run ext input limits m
unfolding normalize_manifest
run ext input limits m h = elim (Result-cases (declared_artifacts input.artifacts input.artifact)) [
  | inl (e, failed) ↦ absurd (ground arith)
  | inr (inputs, declared) ↦
      elim (Result-cases (normalize_artifacts ext inputs limits nothing_yet)) [
        | inl (e, failed) ↦ absurd (ground arith)
        | inr (p, looped) ↦ record {
          inputs = inputs;
          declared = declared;
          progress = p;
          looped = looped;
          counted = ground arith;
          clear = ground arith;
          version = ground arith;
          result = ground arith;
        }
      ]
]

length-sum : (l : List Artifact) → length l ≡ sum_of (λ _. 1) l
length-sum [] = refl
length-sum (a ∷ l) = omega (arith, length-sum l)

module _ (ext : External) (input : ManifestInput) (limits : ManifestLimits) (m : Manifest)
    (h : normalize_manifest ext input limits ≡ ok m) where
  open run ext input limits m h use {inputs, progress, looped, counted, clear, result, declared}

  sorted_inputs : m.artifacts ≡ sort_artifacts (map artifact_of inputs)
  sorted_inputs =
      result ∙ ap sort_artifacts (loop_pushed ext limits inputs nothing_yet progress looped)

  of_inputs : (P : Artifact → Type 0) → All P (map artifact_of inputs) → All P m.artifacts
  of_inputs P all_inputs =
      rw sorted_inputs (sort_artifacts-All P (map artifact_of inputs) all_inputs)

  sum_inputs :
      (size : Artifact → ℕ) → sum_of size m.artifacts ≡ sum_of size (map artifact_of inputs)
  sum_inputs size =
      ap (sum_of size) sorted_inputs ∙ sort_artifacts-sum size (map artifact_of inputs)

  unique_inputs : UniquePaths (map artifact_of inputs)
  unique_inputs = loop_unique ext limits inputs nothing_yet progress looped

  separated :
      (a b : Artifact)
      → In a m.artifacts
      → In b m.artifacts
      → ¬ (IsParent (portable a) (portable b))
  separated a b ma mb parent =
      let known = of_inputs _ (loop_contains ext limits inputs nothing_yet progress looped) in
      let in_set = λ (c : Artifact) (mc : In c m.artifacts).
        All-In (λ d. contains_text (portable d) progress.portable_paths ≡ true) m.artifacts known
          mc in
      let no_conflict = any-false _ progress.portable_paths (portable b) clear (in_set b mb) in
      false≢true (
        sym (
          path_conflicts-false progress.portable_paths (portable b) no_conflict (portable a) parent)
        ∙ in_set a ma)

  represented_alike :
      (a b : Artifact)
      → In a m.artifacts
      → In b m.artifacts
      → a.stored_sha256 ≡ b.stored_sha256
      → (a.stored_size_bytes ≡ b.stored_size_bytes) × (a.compression ≡ b.compression)
  represented_alike a b ma mb same =
      let known = of_inputs _ (loop-IsRepresented ext limits inputs nothing_yet progress looped) in
      let (d, da, ra) = All-In (IsRepresented progress.representations) m.artifacts known ma in
      let (e, eb, rb) = All-In (IsRepresented progress.representations) m.artifacts known mb in
      let de : d ≡ e = same_digest d e (sym da ∙ same ∙ eb) in
      let alike : representation d progress.representations
          ≡ some (b.stored_size_bytes, b.compression) =
        rw de rb in
      same_value a.stored_size_bytes b.stored_size_bytes a.compression b.compression
        (sym ra ∙ alike)

  -- An accepted manifest is canonical: version 1; between one artifact and the limit; every path
  -- and digest passed its check and every size is within its limit and an i64; paths strictly
  -- ascending, no two equal up to case, none a directory of another up to case; one size and
  -- compression for each stored digest; and totals that do not overflow, within the limits.
  pub normalize_manifest-IsCanonical : IsCanonical limits m
  normalize_manifest-IsCanonical =
      let (so, lo, bo) =
        loop_original ext limits inputs nothing_yet progress looped (omega arith) (omega arith) in
      let (ss, ls, bs) =
        loop_stored ext limits inputs nothing_yet progress looped (omega arith) (omega arith) in
      let eo = sum_inputs (λ a. a.original_size_bytes) in
      let es = sum_inputs (λ a. a.stored_size_bytes) in
      record {
        version = (run ext input limits m h).version;
        count = rw (length-sum, sum_inputs (λ _. 1), ← length-sum, length-map) counted;
        accepted = of_inputs _ (loop-IsAccepted ext limits inputs nothing_yet progress looped);
        ascending = rw sorted_inputs (sort_artifacts-Ascending _ unique_inputs);
        unique = rw sorted_inputs (sort_artifacts-UniquePaths _ unique_inputs);
        separate = separated;
        consistent = represented_alike;
        totals = manifest_totals-sums m (omega arith) (omega arith);
        bounded = (omega arith, omega arith);
      }

  -- The artifacts of an accepted manifest are those that the input declares, in another order:
  -- none is dropped, added or changed.
  pub normalize_manifest-perm :
      (inputs : List ArtifactInput) × (declared_artifacts input.artifacts input.artifact
        ≡ ok inputs)
      × Perm m.artifacts (map artifact_of inputs)
  normalize_manifest-perm = (
    inputs,
    declared,
    subst (λ l. Perm l (map artifact_of inputs)) (sym sorted_inputs)
        (sort_artifacts-perm (map artifact_of inputs)),
  )
