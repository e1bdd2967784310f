-- ===== src/Sqlite/Migrations.antt =====
-- The migration of runtime/ntl-store-sqlite/src/lib.rs: where it ends, and that it is safe to repeat.
use ntl.Base.{
  ℕ, ◌≡◌, ◌<◌, refl, sym, ap, ◌∙◌, arith, ◌^◌, All, true, false, Bool-cases, inl, inr, List, [],
  ◌∷◌, leb, ltb, if◌then◌else◌, Result, ok, err,
}
use ntl.Store.{StoreError, migration}
use ntl.Node.Monad.{lifted, lifted-ok, ◌>>=◌, >>=-ok}
use ntl.Sqlite.{pos, integer, Connection}
use ntl.Sqlite.Schema.{Migration, migrations, current_version}
use ntl.Sqlite.Opening.{
  user_version, apply, apply_newer, in_transaction, rolled_back, from_version, migrate,
}

pub lt→ltb : (a b : ℕ) → a < b → ltb a b ≡ true
lt→ltb a b h = ground arith

module _ {C D : Type 0} (cn : Connection C D) where
  -- What SQLite promises of the version that a database carries, a signed integer of 32 bits: a pragma that succeeds
  -- sets it, and a commit keeps it.
  pub record IsVersioned : Type 0 where
    pub set_get :
        (n : ℕ) (db db' : C) (u : Unit {0})
        → n < 2 ^ 31
        → cn.pragma_update "user_version" (integer (pos n)) db ≡ (ok u, db')
        → user_version cn db' ≡ ok n
    pub commit_get :
        (db db' : C) (u : Unit {0})
        → cn.commit db ≡ (ok u, db')
        → user_version cn db' ≡ user_version cn db

  pub rolled_back-ok :
      (p : Result StoreError (Unit {0}) × C) (db' : C) (u : Unit {0})
      → rolled_back cn p ≡ (ok u, db')
      → p ≡ (ok u, db')
  unfolding rolled_back
  rolled_back-ok (ok x, db) db' u h = h
  rolled_back-ok (err e, db) db' u h = absurd (ground arith)

  -- A migration that succeeds leaves its own version.
  apply_version :
      (m : Migration) (db db' : C) (u : Unit {0})
      → IsVersioned
      → m.version < 2 ^ 31
      → apply cn m db ≡ (ok u, db')
      → user_version cn db' ≡ ok m.version
  unfolding apply in_transaction
  apply_version m db db' u laws small h =
      let (u₁, db₁, p₁, q₁) = >>=-ok _ _ db db' u h in
      let e = rolled_back-ok _ db' u q₁ in
      let (u₂, db₂, p₂, q₂) = >>=-ok _ _ db₁ db' u e in
      let (u₃, db₃, p₃, q₃) = >>=-ok _ _ db₂ db' u q₂ in
      laws.commit_get db₃ db' u (lifted-ok (λ x. migration) _ db' u q₃)
      ∙ laws.set_get m.version db₂ db₃ u₃ small (lifted-ok (λ x. migration) _ db₃ u₃ p₃)

  -- The version that a database of version `w` has after the migrations that are newer than `current`.
  abbrev pub newest : ℕ → ℕ → List Migration → ℕ
  newest current w [] = w
  newest current w (m ∷ ms) = newest current (if leb m.version current then w else m.version) ms

  apply_newer_version :
      (current w : ℕ) (ms : List Migration) (db db' : C) (u : Unit {0})
      → IsVersioned
      → All (λ (m : Migration). m.version < 2 ^ 31) ms
      → user_version cn db ≡ ok w
      → apply_newer cn current ms db ≡ (ok u, db')
      → user_version cn db' ≡ ok (newest current w ms)
  unfolding apply_newer
  apply_newer_version current w [] db db' u laws small v h =
      ap (user_version cn) (sym (ap (λ z. z.1) h)) ∙ v
  apply_newer_version current w (m ∷ ms) db db' u laws (s, small) v h =
      elim (Bool-cases (leb m.version current)) [
        | inl old ↦ rw old (apply_newer_version current w ms db db' u laws small v (rw old at h))
        | inr new ↦ rw new (
            let (u₁, db₁, p, q) = >>=-ok _ _ db db' u (rw new at h) in
            apply_newer_version current m.version ms db₁ db' u laws small
              (apply_version m db db₁ u₁ laws s p) q)
      ]

  newest-migrations :
      (v : ℕ) → ltb current_version v ≡ false → newest v v migrations ≡ current_version
  unfolding migrations
  newest-migrations v h = ground arith

  small_versions : All (λ (m : Migration). m.version < 2 ^ 31) migrations
  unfolding migrations
  small_versions = (omega arith, (omega arith, tt))

  nothing_newer : (db : C) → apply_newer cn current_version migrations db ≡ (ok tt, db)
  unfolding apply_newer migrations
  nothing_newer db = refl

  migrated :
      (v : ℕ) (db db' : C) (u : Unit {0})
      → IsVersioned
      → user_version cn db ≡ ok v
      → from_version cn v db ≡ (ok u, db')
      → user_version cn db' ≡ ok current_version
  unfolding from_version
  migrated v db db' u laws e h = elim (Bool-cases (ltb current_version v)) [
    | inl over ↦ absurd (ground arith)
    | inr within ↦
        apply_newer_version v v migrations db db' u laws small_versions e (rw within at h)
        ∙ ap ok (newest-migrations v within)
  ]

  again : (db : C) → user_version cn db ≡ ok current_version → migrate cn db ≡ (ok tt, db)
  unfolding migrate from_version lifted ◌>>=◌
  again db e = rw e (nothing_newer db)

  -- A migration that succeeds leaves the version that the build understands, whichever one the database had. So it is
  -- safe to repeat: a second one succeeds at once and changes nothing.
  pub migrate-migrate :
      (db db' : C) (u : Unit {0})
      → IsVersioned
      → migrate cn db ≡ (ok u, db')
      → (user_version cn db' ≡ ok current_version) × (migrate cn db' ≡ (ok tt, db'))
  unfolding migrate
  migrate-migrate db db' u laws h =
      let (v, db₁, p, q) = >>=-ok _ _ db db' u h in
      let e = lifted-ok (λ x. migration) (user_version cn db, db) db₁ v p in
      let now =
        migrated v db₁ db' u laws (ap (user_version cn) (sym (ap (λ z. z.1) e)) ∙ ap (λ z. z.0) e)
          q in
      (now, again db' now)

  -- A database that a newer build wrote is refused, and nothing in it is changed.
  pub migrate_newer :
      (db : C) (v : ℕ)
      → user_version cn db ≡ ok v
      → current_version < v
      → migrate cn db ≡ (err migration, db)
  unfolding migrate from_version lifted ◌>>=◌
  migrate_newer db v e h = rw e (rw (lt→ltb current_version v h) refl)
