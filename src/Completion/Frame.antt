-- ===== src/Completion/Frame.antt =====
-- What holds of the tables after a handler that succeeds, by the parts it is composed of, and the
-- handlers of the provenance (crates/patwari-server/src/ingestion.rs).
use patwari.Prelude.{
  ApiResult, Bool, List, Text, [], arith, database_error, err, false, if◌then◌else◌, ok,
  ok-injective, refl, subst, sym, true, ◌++◌, ◌∷◌, ◌≡◌,
}
use patwari.Completion.Provenance.{
  Drawn, insert_capture, insert_capture_provenance, maintain_session_latest_context, set_provenance,
  upsert_session_latest_context,
}
use patwari.Completion.Store.{
  CaptureRow, Commit, LatestContext, Snapshot, Store, Tables, atomically, changes, continue_with,
  reads, returns, undone, with_tables, writes, ◌>>>=◌,
}
use patwari.Contract.{Manifest}
use patwari.Pagination.{CursorExternal}
use patwari.Uploads.World.{ActiveUploadRow}

-- If `P` holds of the tables and the handler returns a value, `Q` holds of it and the tables then.
pub record Ensures {κ μ ℓ} (P : Tables → Type κ) {A : Type ℓ} (m : Commit A)
    (Q : A → Tables → Type μ) : Type (κ ⊔ μ ⊔ ℓ) where
  pub run : (store : Store) → P store.tables → (a : A) → (m store).0 ≡ ok a → Q a (m store).1.tables

continue-ok {ℓ κ} :
    {A : Type ℓ} {B : Type κ} (x : ApiResult A × Store) (k : A → Commit B) {b : B}
    → (continue_with x k).0 ≡ ok b
    → (a : A) × (x.0 ≡ ok a) × ((k a x.1).0 ≡ ok b) × ((continue_with x k).1 ≡ (k a x.1).1)
continue-ok (ok a, s) k e = (a, refl, e, refl)
continue-ok (err x, s) k e = cc

module _ {κ μ ν} {P : Tables → Type κ} where
  pub Ensures-bind {ℓ λ'} :
      {A : Type ℓ} {B : Type λ'} {m : Commit A} {k : A → Commit B} {R : A → Tables → Type μ}
      {Q : B → Tables → Type ν}
      → Ensures P m R
      → ((a : A) → Ensures (R a) (k a) Q)
      → Ensures P (m >>>= k) Q
  unfolding ◌>>>=◌
  Ensures-bind {m = m} {k = k} {Q = Q} f g = record {
    run = λ store p b e.
        let (a, x, y, z) = continue-ok (m store) k e in
        subst (λ s. Q b s.tables) (sym z) ((g a).run (m store).1 (f.run store p a x) b y);
  }

module _ {κ μ} {P : Tables → Type κ} where
  pub Ensures-returns {ℓ} :
      {A : Type ℓ} (r : ApiResult A) {Q : A → Tables → Type μ}
      → ((a : A) (t : Tables) → r ≡ ok a → P t → Q a t)
      → Ensures P (returns r) Q
  unfolding returns
  Ensures-returns r h = record { run = λ store p a e. h a store.tables e p }

  pub Ensures-reads {ℓ} :
      {A : Type ℓ} (f : Tables → A) {Q : A → Tables → Type μ}
      → ((t : Tables) → P t → Q (f t) t)
      → Ensures P (reads f) Q
  unfolding reads
  Ensures-reads f {Q = Q} h = record {
    run = λ store p a e. subst (λ x. Q x store.tables) (ok-injective e) (h store.tables p);
  }

  pub Ensures-writes :
      (f : Tables → Tables) {Q : Unit {0} → Tables → Type μ}
      → ((t : Tables) → P t → Q tt (f t))
      → Ensures P (writes f) Q
  unfolding writes
  Ensures-writes f h = record { run = λ store p a e. h store.tables p }

  pub Ensures-if {ℓ} :
      {A : Type ℓ} (t : Bool) {m n : Commit A} {Q : A → Tables → Type μ}
      → (t ≡ true → Ensures P m Q)
      → (t ≡ false → Ensures P n Q)
      → Ensures P (if t then m else n) Q
  Ensures-if true f g = f refl
  Ensures-if false f g = g refl

module _ {κ} {P : Tables → Type κ} where
  pub Ensures-nothing {ℓ} : {A : Type ℓ} (m : Commit A) → Ensures P m (λ _ _. Unit {0})
  Ensures-nothing m = record { run = λ store p a e. tt }

module _ {κ κ' μ} {P : Tables → Type κ} {P' : Tables → Type κ'} where
  pub Ensures-weaken {ℓ} :
      {A : Type ℓ} {m : Commit A} {Q : A → Tables → Type μ}
      → ((t : Tables) → P t → P' t)
      → Ensures P' m Q
      → Ensures P m Q
  Ensures-weaken h f = record { run = λ store p. f.run store (h store.tables p) }

-- A transaction that is committed leaves what its steps ensure.
pub Ensures-atomically {κ μ ℓ} :
    {P : Tables → Type κ} {A : Type ℓ} {m : Commit A} {Q : A → Tables → Type μ}
    → Ensures P m Q
    → Ensures P (atomically m) Q
unfolding atomically
Ensures-atomically {A = A} {m = m} {Q = Q} f = record {
  run = λ store p a e. go store (m store) (f.run store p) a e;
}
  where
    go :
        (before : Store) (x : ApiResult A × Store)
        → ((a : A) → x.0 ≡ ok a → Q a x.1.tables)
        → (a : A) → (undone before x).0 ≡ ok a
        → Q a (undone before x).1.tables
    go before (ok b, s) h a e = h a e
    go before (err b, s) h a e = ground (arith, e)

pub Ensures-changes {κ μ} :
    {P : Tables → Type κ} {Q : Tables → Type μ} (f : Store → Store)
    → ((store : Store) → P store.tables → Q (f store).tables)
    → Ensures P (changes f) (λ _. Q)
unfolding changes
Ensures-changes f h = record { run = λ store p a e. h store p }

-- The tables of the provenance say nothing of the property.
abbrev pub Blind {κ} : (Tables → Type κ) → Type κ
Blind P =
    (t : Tables) (captures : List CaptureRow) (contexts : List LatestContext)
    → P t
    → P (set_provenance captures contexts t)

module _ {κ} {P : Tables → Type κ} (blind : Blind P) (ext : CursorExternal) (owner : Text) where
  keep {ℓ} : {A : Type ℓ} (r : ApiResult A) → Ensures P (returns r) (λ _. P)
  keep r = Ensures-returns r (λ a t e p. p)

  Ensures-upsert :
      (session snapshot at : Text) (manifest : Manifest)
      → Ensures P (upsert_session_latest_context ext owner session snapshot at manifest) (λ _. P)
  unfolding upsert_session_latest_context
  Ensures-upsert session snapshot at manifest =
      Ensures-bind (keep _) (λ seq. Ensures-writes _ (λ t p. blind t _ _ p))

  Ensures-maintain :
      (session snapshot : Text) (manifest : Manifest)
      → Ensures P (maintain_session_latest_context ext owner session snapshot manifest) (λ _. P)
  unfolding maintain_session_latest_context
  Ensures-maintain session snapshot manifest =
      Ensures-bind {R = λ _. P} (Ensures-reads _ (λ t p. p)) (λ found.
        Ensures-bind (keep _)
          (λ (s : Snapshot). Ensures-upsert session snapshot s.completed_at manifest))

  Ensures-insert_capture : (row : CaptureRow) → Ensures P (insert_capture ext owner row) (λ _. P)
  unfolding insert_capture
  Ensures-insert_capture row = record { run = λ store p a e. go store p _ _ }
    where
      go :
          (store : Store)
          → P store.tables
          → (s t : Bool)
          → P
              (if◌then◌else◌ {A = ApiResult Bool × Store} s
                (ok false, store)
                (if t then (err database_error, store) else (
                  ok true,
                  with_tables
                      (set_provenance
                        (store.tables.captures ++ (row ∷ []))
                        store.tables.latest_contexts
                        store.tables)
                      store,
                ))).1.tables
      go store p true t = p
      go store p false true = p
      go store p false false = blind store.tables _ _ p

  pub Ensures-insert_capture_provenance :
      (drawn : Drawn) (upload : ActiveUploadRow) (manifest : Manifest) (m s at : Text)
      → Ensures P (insert_capture_provenance ext owner drawn upload manifest m s at) (λ _. P)
  unfolding insert_capture_provenance
  Ensures-insert_capture_provenance drawn upload manifest m s at = Ensures-bind (keep _) (λ seq.
      Ensures-bind (keep _) (λ metadata. Ensures-bind (Ensures-insert_capture _) (λ inserted.
        Ensures-if inserted (λ _. Ensures-maintain upload.session_id s manifest)
          (λ _. Ensures-bind {R = λ _. P} (Ensures-reads _ (λ t p. p)) (λ same.
            Ensures-if same (λ _. Ensures-maintain upload.session_id s manifest) (λ _. keep _))))))
