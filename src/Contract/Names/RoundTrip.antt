-- ===== src/Contract/Names/RoundTrip.antt =====
-- The stored names of statuses, severities and finding kinds are read back as what was written.
use patwari.Contract.Names.Status
use patwari.Contract.Names.Severity
use patwari.Contract.Names.Kind
use patwari.Prelude.{Text, refl, some, subst, text_eq, ◌↔◌, ◌≡◌}
use patwari.Contract.Names.{match_str, match_str-name}

parse-as_str_status : (s : Status.IntegrityRunStatus) → Status.parse (Status.as_str s) ≡ some s
unfolding Status.parse Status.as_str match_str text_eq
parse-as_str_status Status.running = refl
parse-as_str_status Status.healthy = refl
parse-as_str_status Status.action_required = refl
parse-as_str_status Status.failed = refl

as_str-parse_status :
    (v : Text) {s : Status.IntegrityRunStatus} → Status.parse v ≡ some s → Status.as_str s ≡ v
unfolding Status.parse Status.as_str
as_str-parse_status v h = match_str-name Status.as_str v _ (refl, (refl, (refl, (refl, tt)))) h

parse-as_str_severity :
    (s : Severity.IntegritySeverity) → Severity.parse (Severity.as_str s) ≡ some s
unfolding Severity.parse Severity.as_str match_str text_eq
parse-as_str_severity Severity.info = refl
parse-as_str_severity Severity.warning = refl
parse-as_str_severity Severity.error = refl

as_str-parse_severity :
    (v : Text) {s : Severity.IntegritySeverity} → Severity.parse v ≡ some s → Severity.as_str s ≡ v
unfolding Severity.parse Severity.as_str
as_str-parse_severity v h = match_str-name Severity.as_str v _ (refl, (refl, (refl, tt))) h

parse-as_str_kind : (s : Kind.IntegrityFindingKind) → Kind.parse (Kind.as_str s) ≡ some s
unfolding Kind.parse Kind.as_str match_str text_eq
parse-as_str_kind Kind.manifest_missing = refl
parse-as_str_kind Kind.manifest_unparseable = refl
parse-as_str_kind Kind.manifest_hash_mismatch = refl
parse-as_str_kind Kind.snapshot_projection_drift = refl
parse-as_str_kind Kind.database_integrity_failure = refl
parse-as_str_kind Kind.artifact_blob_reference_missing = refl
parse-as_str_kind Kind.blob_metadata_invalid = refl
parse-as_str_kind Kind.blob_file_missing = refl
parse-as_str_kind Kind.blob_file_non_regular = refl
parse-as_str_kind Kind.blob_file_size_mismatch = refl
parse-as_str_kind Kind.blob_file_hash_mismatch = refl
parse-as_str_kind Kind.artifact_original_mismatch = refl
parse-as_str_kind Kind.unexpected_blob_file = refl
parse-as_str_kind Kind.blob_orphan = refl
parse-as_str_kind Kind.blob_grace_candidate = refl
parse-as_str_kind Kind.blob_gc_eligible_candidate = refl
parse-as_str_kind Kind.blob_stale_candidate = refl
parse-as_str_kind Kind.tombstoned_snapshot = refl
parse-as_str_kind Kind.transient_change = refl

as_str-parse_kind :
    (v : Text) {s : Kind.IntegrityFindingKind} → Kind.parse v ≡ some s → Kind.as_str s ≡ v
unfolding Kind.parse Kind.as_str
as_str-parse_kind v h =
    match_str-name Kind.as_str v _
      (
        refl,
        (
          refl,
          (
            refl,
            (
              refl,
              (
                refl,
                (
                  refl,
                  (
                    refl,
                    (
                      refl,
                      (
                        refl,
                        (
                          refl,
                          (
                            refl,
                            (refl, (refl, (refl, (refl, (refl, (refl, (refl, (refl, tt)))))))),
                          ),
                        ),
                      ),
                    ),
                  ),
                ),
              ),
            ),
          ),
        ),
      )
      h

-- A stored name that is read is the name of what it is read as, and every status, severity and
-- finding kind is read back from its own name; so no other text is ever accepted.
pub names_round_trip :
    ((v : Text) (s : Status.IntegrityRunStatus) → (Status.parse v ≡ some s) ↔ (Status.as_str s ≡ v))
    × ((v : Text) (s : Severity.IntegritySeverity)
        → (Severity.parse v ≡ some s) ↔ (Severity.as_str s ≡ v))
    × ((v : Text) (s : Kind.IntegrityFindingKind) → (Kind.parse v ≡ some s) ↔ (Kind.as_str s ≡ v))
names_round_trip = (
  λ v s.
      (as_str-parse_status v, λ e. subst (λ t. Status.parse t ≡ some s) e (parse-as_str_status s)),
  λ v s. (
    as_str-parse_severity v,
    λ e. subst (λ t. Severity.parse t ≡ some s) e (parse-as_str_severity s),
  ),
  λ v s. (as_str-parse_kind v, λ e. subst (λ t. Kind.parse t ≡ some s) e (parse-as_str_kind s)),
)
