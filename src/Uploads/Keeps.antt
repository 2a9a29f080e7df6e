-- ===== src/Uploads/Keeps.antt =====
-- What a handler keeps true of the database, by the parts it is composed of.
use patwari.Prelude.{
  ApiResult, Bool, List, Option, err, false, if◌then◌else◌, none, ok, refl, some, true, ◌≡◌,
}
use patwari.Uploads.World.{
  ChunkFile, Database, Handler, World, after, gets, lift, modify_database, modify_files,
  rolled_back, transaction, ◌>>=◌,
}

-- A handler after which a property of the database holds if it did before.
pub record Keeps {κ ℓ} (P : Database → Type κ) {A : Type ℓ} (m : Handler A) : Type κ where
  pub run : (w : World) → P w.database → P (m w).1.database

after-keeps {κ ℓ μ} :
    {A : Type ℓ} {B : Type μ} (P : Database → Type κ) (x : ApiResult A × World) (f : A → Handler B)
    → ((a : A) → x.0 ≡ ok a → P x.1.database → P (f a x.1).1.database)
    → P x.1.database
    → P (after x f).1.database
after-keeps P (ok a, w) f k p = k a refl p
after-keeps P (err e, w) f k p = p

rolled_back-keeps {κ ℓ} :
    {A : Type ℓ} (P : Database → Type κ) (w : World) (x : ApiResult A × World)
    → P w.database
    → P x.1.database
    → P (rolled_back w x).1.database
rolled_back-keeps P w (ok a, w') p q = q
rolled_back-keeps P w (err e, w') p q = p

module _ {κ} {P : Database → Type κ} where
  pub Keeps->>= {ℓ μ} :
      {A : Type ℓ} {B : Type μ} {m : Handler A} {f : A → Handler B}
      → Keeps P m
      → ((a : A) → Keeps P (f a))
      → Keeps P (m >>= f)
  unfolding ◌>>=◌
  Keeps->>= {m = m} {f = f} k l = record {
    run = λ w p. after-keeps P (m w) f (λ a _. (l a).run (m w).1) (k.run w p);
  }

  -- What a pure step returns is known in the rest.
  pub Keeps-lift {ℓ μ} :
      {A : Type ℓ} {B : Type μ} {r : ApiResult A} {f : A → Handler B}
      → ((a : A) → r ≡ ok a → Keeps P (f a))
      → Keeps P (lift r >>= f)
  unfolding ◌>>=◌ lift
  Keeps-lift {r = r} {f = f} k = record {
    run = λ w p. after-keeps P (r, w) f (λ a e. (k a e).run w) p;
  }

  pub Keeps-gets {ℓ μ} :
      {A : Type ℓ} {B : Type μ} (g : World → A) {f : A → Handler B}
      → ((a : A) → Keeps P (f a))
      → Keeps P (gets g >>= f)
  unfolding ◌>>=◌ gets
  Keeps-gets g k = record { run = λ w p. (k (g w)).run w p }

  pub Keeps-pure {ℓ} : {A : Type ℓ} (r : ApiResult A) → Keeps P (lift r)
  unfolding lift
  Keeps-pure r = record { run = λ w p. p }

  pub Keeps-modify :
      (f : Database → Database) → ((d : Database) → P d → P (f d)) → Keeps P (modify_database f)
  unfolding modify_database
  Keeps-modify f k = record { run = λ w p. k w.database p }

  pub Keeps-files : (f : List ChunkFile → List ChunkFile) → Keeps P (modify_files f)
  unfolding modify_files
  Keeps-files f = record { run = λ w p. p }

  pub Keeps-transaction {ℓ} : {A : Type ℓ} {m : Handler A} → Keeps P m → Keeps P (transaction m)
  unfolding transaction
  Keeps-transaction {m = m} k = record { run = λ w p. rolled_back-keeps P w (m w) p (k.run w p) }

  pub Keeps-option {ℓ μ} :
      {A : Type ℓ} {B : Type μ} (o : Option A) {n : Handler B} {s : A → Handler B}
      → Keeps P n
      → ((a : A) → Keeps P (s a))
      → Keeps P (elim o [ none ↦ n | some a ↦ s a ])
  Keeps-option none k l = k
  Keeps-option (some a) k l = l a

  pub Keeps-if {ℓ} :
      {A : Type ℓ} (t : Bool) {m n : Handler A}
      → Keeps P m
      → Keeps P n
      → Keeps P (if t then m else n)
  Keeps-if true k l = k
  Keeps-if false k l = l

committed {κ μ ℓ ν} :
    {A : Type ℓ} {B : Type ν} (P : Database → Type κ) (Q : Database → Type μ) (f : A → Handler B)
    → ((a : A) (w : World) → Q w.database → P (f a w).1.database)
    → (w : World) → P w.database
    → (x : ApiResult A × World) → Q x.1.database
    → P (after (rolled_back w x) f).1.database
committed P Q f l w p (ok a, w') q = l a w' q
committed P Q f l w p (err e, w') q = p

-- A transaction that fails leaves the database as it was; after one that is committed, the rest
-- may rely on what its steps keep.
pub Keeps-committed {κ μ ℓ ν} :
    {A : Type ℓ} {B : Type ν} {P : Database → Type κ} {Q : Database → Type μ} (m : Handler A)
    (f : A → Handler B)
    → ((d : Database) → P d → Q d)
    → Keeps Q m
    → ((a : A) (w : World) → Q w.database → P (f a w).1.database)
    → Keeps P (transaction m >>= f)
unfolding ◌>>=◌ transaction
Keeps-committed {P = P} {Q = Q} m f i k l = record {
  run = λ w p. committed P Q f l w p (m w) (k.run w (i w.database p));
}
