-- ===== src/Completion/Verified.antt =====
-- When `verify_artifact` accepts the content of an artifact
-- (crates/patwari-server/src/ingestion.rs).
use patwari.Prelude.{
  ◌>>◌, >>=-eq-ok, ApiError, Text, false, not, ok, refl, reject_if, reject_if-eq-ok, storage_error,
  subst, sym, text_eq, u64_bound, ◌<◌, ◌==◌, ◌||◌, ◌↔◌, ◌≡◌,
}
use patwari.Completion.Assemble.{
  file_reader, hash_reader, original_reader, stored_mismatch, verify_artifact,
}
use patwari.Completion.Hashing.{HasDigest, accepted_stream, checked_stream, not_rejected}
use patwari.Completion.{Reader, ReadsAll, Streams, join}
use patwari.Contract.{Artifact}
use patwari.Digest.{digest_storage_value}

module _ (streams : Streams) where
  -- The content has the stored size and digest, and it decodes to the original ones.
  abbrev pub IsVerified : Text → Artifact → Type 0
  IsVerified content artifact =
      HasDigest streams content artifact.stored_size_bytes artifact.stored_sha256
      × ((original : Reader × ApiError) × (original_reader streams artifact.compression content
            ≡ ok original)
          × (original.0.fails ≡ false)
          × HasDigest streams (join original.0.blocks) artifact.original_size_bytes
              artifact.original_sha256)

  -- `verify_artifact` accepts the content of an artifact just when it has the declared stored size and
  -- digest, and the bytes that it decodes to, without an error, have the declared original size and
  -- digest; assumed is that reading a file delivers its content, and that the declared sizes are u64s.
  pub verify_artifact_iff :
      ReadsAll streams
      → (content : Text) (artifact : Artifact) → artifact.stored_size_bytes < u64_bound
      → artifact.original_size_bytes < u64_bound
      → (verify_artifact streams content artifact ≡ ok tt) ↔ IsVerified content artifact
  unfolding verify_artifact
  verify_artifact_iff reads_all content artifact b c = (forth, back)
    where
      forth : verify_artifact streams content artifact ≡ ok tt → IsVerified content artifact
      forth e =
          let (h, x, e1) =
            >>=-eq-ok
              (hash_reader streams (file_reader streams content) artifact.stored_size_bytes
                storage_error)
              _ e in
          let (original, y, e2) =
            >>=-eq-ok
              (reject_if
                  (not (h.0 == artifact.stored_size_bytes)
                    || not (text_eq h.1 (digest_storage_value artifact.stored_sha256)))
                  (stored_mismatch "artifact stored size or checksum does not match the manifest")
                >> original_reader streams artifact.compression content)
              _ e1 in
          let (f, y') =
            reject_if-eq-ok
              (not (h.0 == artifact.stored_size_bytes)
                || not (text_eq h.1 (digest_storage_value artifact.stored_sha256)))
              _ _ y in
          let (k, z, e3) =
            >>=-eq-ok (hash_reader streams original.0 artifact.original_size_bytes original.1) _
              e2 in
          let stored =
            checked_stream streams (file_reader streams content) artifact.stored_size_bytes
              artifact.stored_sha256 storage_error {h = h} b x f in
          let (fails, digest) =
            checked_stream streams original.0 artifact.original_size_bytes artifact.original_sha256
              original.1 {h = k} c z (not_rejected _ _ e3) in
          (
            subst (λ t. HasDigest streams t artifact.stored_size_bytes artifact.stored_sha256)
                (reads_all content) stored.1,
            (original, y', fails, digest),
          )

      back : IsVerified content artifact → verify_artifact streams content artifact ≡ ok tt
      back (stored, (original, y, fails, digest)) =
          let (x, f) =
            accepted_stream streams (file_reader streams content) artifact.stored_size_bytes
              artifact.stored_sha256 storage_error b refl
              (subst (λ t. HasDigest streams t artifact.stored_size_bytes artifact.stored_sha256)
                (sym (reads_all content)) stored) in
          let (z, g) =
            accepted_stream streams original.0 artifact.original_size_bytes artifact.original_sha256
              original.1 c fails digest in
          rw x (rw f (rw y (rw z (rw g refl))))
