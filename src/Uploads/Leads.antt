-- ===== src/Uploads/Leads.antt =====
-- What holds of the database after a handler that starts from more than it keeps.
use patwari.Prelude.{ApiResult, Option, err, none, ok, refl, some, ◌≡◌}
use patwari.Uploads.Keeps.{Keeps}
use patwari.Uploads.World.{
  Database, Handler, World, after, gets, lift, modify_database, rolled_back, set_database,
  transaction, ◌>>=◌,
}

pub record Leads {κ μ ℓ} (P : Database → Type κ) (Q : Database → Type μ) {A : Type ℓ}
    (m : Handler A) : Type (κ ⊔ μ) where
  pub run : (w : World) → P w.database → Q (m w).1.database

module _ {κ μ} (P : Database → Type κ) (Q : Database → Type μ)
    (weaker : (d : Database) → P d → Q d) where
  after-leads {ℓ ν} :
      {A : Type ℓ} {B : Type ν} (x : ApiResult A × World) (f : A → Handler B)
      → ((a : A) → x.0 ≡ ok a → P x.1.database → Q (f a x.1).1.database)
      → P x.1.database
      → Q (after x f).1.database
  after-leads (ok a, w) f k p = k a refl p
  after-leads (err e, w) f k p = weaker w.database p

  pub Leads->>= {ℓ ν} :
      {A : Type ℓ} {B : Type ν} {m : Handler A} {f : A → Handler B}
      → Keeps P m
      → ((a : A) → Leads P Q (f a))
      → Leads P Q (m >>= f)
  unfolding ◌>>=◌
  Leads->>= {m = m} {f = f} k l = record {
    run = λ w p. after-leads (m w) f (λ a _. (l a).run (m w).1) (k.run w p);
  }

  pub Leads-lift {ℓ ν} :
      {A : Type ℓ} {B : Type ν} {r : ApiResult A} {f : A → Handler B}
      → ((a : A) → r ≡ ok a → Leads P Q (f a))
      → Leads P Q (lift r >>= f)
  unfolding ◌>>=◌ lift
  Leads-lift {r = r} {f = f} k = record {
    run = λ w p. after-leads (r, w) f (λ a e. (k a e).run w) p;
  }

  pub Leads-gets {ℓ ν} :
      {A : Type ℓ} {B : Type ν} (g : World → A) {f : A → Handler B}
      → ((a : A) → Leads P Q (f a))
      → Leads P Q (gets g >>= f)
  unfolding ◌>>=◌ gets
  Leads-gets g k = record { run = λ w p. (k (g w)).run w p }

  pub Leads-modify {ν} :
      {B : Type ν} (f : Database → Database) (k : Unit {0} → Handler B)
      → ((d : Database) → P d → Q (f d))
      → Keeps Q (k tt)
      → Leads P Q (modify_database f >>= k)
  unfolding ◌>>=◌ modify_database
  Leads-modify f m h k = record {
    run = λ w p. k.run (set_database (f w.database) w) (h w.database p);
  }

  pub Leads-Keeps {ℓ} : {A : Type ℓ} {m : Handler A} → Keeps Q m → Leads P Q m
  Leads-Keeps k = record { run = λ w p. k.run w (weaker w.database p) }

  rolled-leads {ℓ} :
      {A : Type ℓ} (w : World) (x : ApiResult A × World)
      → P w.database
      → Q x.1.database
      → Q (rolled_back w x).1.database
  rolled-leads w (ok a, w') p q = q
  rolled-leads w (err e, w') p q = weaker w.database p

  pub Leads-transaction {ℓ} : {A : Type ℓ} {m : Handler A} → Leads P Q m → Leads P Q (transaction m)
  unfolding transaction
  Leads-transaction {m = m} k = record { run = λ w p. rolled-leads w (m w) p (k.run w p) }

  pub Leads-option {ℓ ν} :
      {A : Type ℓ} {B : Type ν} (o : Option A) {n : Handler B} {s : A → Handler B}
      → Leads P Q n
      → ((a : A) → Leads P Q (s a))
      → Leads P Q (elim o [ none ↦ n | some a ↦ s a ])
  Leads-option none k l = k
  Leads-option (some a) k l = l a
