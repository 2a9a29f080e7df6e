-- ===== src/Completion/Cleanup.antt =====
-- Which files `cleanup_uncommitted_promotions` removes
-- (crates/patwari-server/src/ingestion.rs).
use patwari.Prelude.{
  Bool, Bool-cases, List, Text, [], any, ap, arith, false, filter, filter-same, inl, inr, not, refl,
  sym, true, ◌&&◌, ◌||◌, ◌∙◌, ◌∷◌, ◌≡◌,
}
use patwari.Completion.Blobs.{
  BlobPromotion, cleanup_uncommitted_promotions, is_file, remove_blob_file,
}
use patwari.Completion.Store.{BlobFile, Store, StoredBlob, is_blob}

-- A promotion made the file, and no row refers to it.
abbrev pub is_uncommitted : Text → List BlobPromotion → List StoredBlob → BlobFile → Bool
is_uncommitted owner promotions blobs f =
    any
      (λ p.
        is_file p.stored_sha256 f && p.created && not (any (is_blob owner p.stored_sha256) blobs))
      promotions

filter-filter {ℓ} :
    {A : Type ℓ} (p q : A → Bool) (xs : List A)
    → filter (λ x. not (p x)) (filter (λ x. not (q x)) xs) ≡ filter (λ x. not (q x || p x)) xs
filter-filter p q [] = refl
filter-filter p q (x ∷ xs) = ground (arith, filter-filter p q xs)

filter-not-false {ℓ} : {A : Type ℓ} (xs : List A) → filter (λ x. not false) xs ≡ xs
filter-not-false [] = refl
filter-not-false (x ∷ xs) = ap (λ l. x ∷ l) (filter-not-false xs)

claimed : (a b c d : Bool) → (b && c) ≡ true → not (a || d) ≡ not ((a && b && c) || d)
claimed a b c d h = ground (arith, h)

unclaimed : (a b c d : Bool) → (b && c) ≡ false → not d ≡ not ((a && b && c) || d)
unclaimed a b c d h = ground (arith, h)

-- The cleanup removes the file of each blob that a promotion of the completion created and that no row
-- of the owner refers to; it keeps all others, and changes no table.
pub cleanup_uncommitted_promotions-files :
    (owner : Text) (promotions : List BlobPromotion) (store : Store)
    → cleanup_uncommitted_promotions owner promotions store ≡ (record {
      tables = store.tables;
      blob_files =
          filter (λ f. not (is_uncommitted owner promotions store.tables.blobs f)) store.blob_files;
    })
unfolding cleanup_uncommitted_promotions
cleanup_uncommitted_promotions-files owner [] store =
    ap (λ fs. record { tables = store.tables; blob_files = fs })
      (sym (filter-not-false store.blob_files))
cleanup_uncommitted_promotions-files owner (p ∷ promotions) store =
    elim (Bool-cases (p.created && not (any (is_blob owner p.stored_sha256) store.tables.blobs))) [
      | inl t ↦ rw t (
          cleanup_uncommitted_promotions-files owner promotions
            (remove_blob_file p.stored_sha256 store)
          ∙ ap (λ fs. record { tables = store.tables; blob_files = fs })
              (filter-filter (is_uncommitted owner promotions store.tables.blobs)
                  (is_file p.stored_sha256) store.blob_files
                ∙ filter-same _ _ store.blob_files (λ g.
                  claimed (is_file p.stored_sha256 g) p.created _
                    (is_uncommitted owner promotions store.tables.blobs g) t)))
      | inr f ↦ rw f (
          cleanup_uncommitted_promotions-files owner promotions store
          ∙ ap (λ fs. record { tables = store.tables; blob_files = fs })
              (filter-same _ _ store.blob_files
                (λ g. unclaimed (is_file p.stored_sha256 g) p.created _ _ f)))
    ]

pub cleanup-tables :
    (owner : Text) (promotions : List BlobPromotion) (store : Store)
    → (cleanup_uncommitted_promotions owner promotions store).tables ≡ store.tables
cleanup-tables owner promotions store =
    ap (λ s. s.tables) (cleanup_uncommitted_promotions-files owner promotions store)
