-- ===== src/Sqlite/Entries.antt =====
-- The metadata of runtime/ntl-store-sqlite/src/lib.rs, as the identity of a node relies on it.
use ntl.Base.{
  ℕ, ◌≡◌, ◌≢◌, refl, sym, ap, ◌∙◌, arith, All, Bool-cases, inl, inr, Result-cases, some, List, [],
  ◌∷◌, String, leb, ltb, Result, ok,
}
use ntl.Float.{Float}
use ntl.Store.{migration, write}
use ntl.Node.Monad.{lifted-ok, >>=-ok}
use ntl.Node.Restart.{KeepsMeta}
use ntl.Runtime.Reload.{KeepsEntries}
use ntl.Sqlite.{pos, integer, text, blob, Row, SqlError, Connection, Conversions, SqliteStore}
use ntl.Sqlite.Rows.{◌>>=◌ as and_also}
use ntl.Sqlite.Replies.{optional}
use ntl.Sqlite.Schema.{Migration, migrations, current_version}
use ntl.Sqlite.Opening.{
  user_version, apply, apply_newer, in_transaction, from_version, migrate, flush,
}
use ntl.Sqlite.Methods.{put_meta, upsert_meta_sql}
use ntl.Sqlite.Queries.{get_meta, select_meta_sql}
use ntl.Sqlite.Migrations.{rolled_back-ok}
use ntl.Sqlite.Stored.{written-ok}
use ntl.Sqlite.Interface.{sqlite_store}

module _ {C D : Type 0} (cn : Connection C D) where
  abbrev pub meta_of : String → C → Result SqlError (List (Result SqlError (Row D)))
  meta_of key db = cn.query select_meta_sql (text key ∷ []) db

  abbrev pub Keeps : {A : Type 0} → (C → Result SqlError A × C) → Type 0
  Keeps {A} f =
      (key : String) (db db' : C) (a : A) → f db ≡ (ok a, db') → meta_of key db' ≡ meta_of key db

  -- What SQLite promises of the table of metadata: an upsert leaves the value under its key and the other keys as
  -- they were, and a checkpoint does not touch it.
  pub record IsPersistent : Type 0 where
    pub put_get :
        (key : String) (value : List ℕ) (db db' : C) (n : ℕ)
        → cn.execute upsert_meta_sql (text key ∷ blob value ∷ []) db ≡ (ok n, db')
        → meta_of key db' ≡ ok (ok (blob value ∷ []) ∷ [])
    pub put_other :
        (key asked : String) (value : List ℕ) (db db' : C) (n : ℕ)
        → key ≢ asked
        → cn.execute upsert_meta_sql (text key ∷ blob value ∷ []) db ≡ (ok n, db')
        → meta_of asked db' ≡ meta_of asked db
    pub checkpoint : Keeps (cn.pragma_update "wal_checkpoint" (text "TRUNCATE"))

  -- The answers for metadata stay, where there are any: the table may not be there before.
  abbrev pub KeepsRows : (C → Result SqlError (Unit {0}) × C) → Type 0
  KeepsRows f =
      (key : String) (db db' : C) (u : Unit {0}) (rows : List (Result SqlError (Row D)))
      → f db ≡ (ok u, db')
      → meta_of key db ≡ ok rows
      → meta_of key db' ≡ ok rows

  -- What SQLite promises of a migration: to begin and to commit a transaction and to set the version leave the
  -- metadata as they are, and so do the scripts of the schema, once the table is there.
  pub record IsMigrating : Type 0 where
    pub transaction : Keeps cn.transaction
    pub commit : Keeps cn.commit
    pub version : (n : ℕ) → Keeps (cn.pragma_update "user_version" (integer (pos n)))
    pub scripts : All (λ (m : Migration). KeepsRows (cn.execute_batch m.sql)) migrations

  module _ (laws : IsMigrating) where
    apply_meta :
        (m : Migration) (key : String) (db db' : C) (u : Unit {0})
        (rows : List (Result SqlError (Row D)))
        → KeepsRows (cn.execute_batch m.sql)
        → apply cn m db ≡ (ok u, db')
        → meta_of key db ≡ ok rows
        → meta_of key db' ≡ ok rows
    unfolding apply in_transaction
    apply_meta m key db db' u rows keeps h r =
        let (u₁, db₁, p₁, q₁) = >>=-ok _ _ db db' u h in
        let e = rolled_back-ok cn _ db' u q₁ in
        let (u₂, db₂, p₂, q₂) = >>=-ok _ _ db₁ db' u e in
        let (u₃, db₃, p₃, q₃) = >>=-ok _ _ db₂ db' u q₂ in
        laws.commit key db₃ db' u (lifted-ok (λ x. migration) _ db' u q₃)
        ∙ laws.version m.version key db₂ db₃ u₃ (lifted-ok (λ x. migration) _ db₃ u₃ p₃)
        ∙ keeps key db₁ db₂ u₂ rows (lifted-ok (λ x. migration) _ db₂ u₂ p₂)
            (laws.transaction key db db₁ u₁ (lifted-ok (λ x. migration) _ db₁ u₁ p₁) ∙ r)

    apply_newer_meta :
        (current : ℕ) (ms : List Migration) (key : String) (db db' : C) (u : Unit {0})
        (rows : List (Result SqlError (Row D)))
        → All (λ (m : Migration). KeepsRows (cn.execute_batch m.sql)) ms
        → apply_newer cn current ms db ≡ (ok u, db')
        → meta_of key db ≡ ok rows
        → meta_of key db' ≡ ok rows
    unfolding apply_newer
    apply_newer_meta current [] key db db' u rows keeps h r =
        ap (meta_of key) (sym (ap (λ z. z.1) h)) ∙ r
    apply_newer_meta current (m ∷ ms) key db db' u rows (k, keeps) h r =
        elim (Bool-cases (leb m.version current)) [
          | inl old ↦ apply_newer_meta current ms key db db' u rows keeps (rw old at h) r
          | inr new ↦
              let (u₁, db₁, p, q) = >>=-ok _ _ db db' u (rw new at h) in
              apply_newer_meta current ms key db₁ db' u rows keeps q
                (apply_meta m key db db₁ u₁ rows k p r)
        ]

    from_version_meta :
        (v : ℕ) (key : String) (db db' : C) (u : Unit {0}) (rows : List (Result SqlError (Row D)))
        → from_version cn v db ≡ (ok u, db')
        → meta_of key db ≡ ok rows
        → meta_of key db' ≡ ok rows
    unfolding from_version
    from_version_meta v key db db' u rows h r = elim (Bool-cases (ltb current_version v)) [
      | inl over ↦ absurd (ground arith)
      | inr within ↦ apply_newer_meta v migrations key db db' u rows laws.scripts (rw within at h) r
    ]

    migrate_meta :
        (key : String) (db db' : C) (u : Unit {0}) (rows : List (Result SqlError (Row D)))
        → migrate cn db ≡ (ok u, db')
        → meta_of key db ≡ ok rows
        → meta_of key db' ≡ ok rows
    unfolding migrate
    migrate_meta key db db' u rows h r =
        let (v, db₁, p, q) = >>=-ok _ _ db db' u h in
        from_version_meta v key db₁ db' u rows q (
          ap (meta_of key)
            (sym (ap (λ z. z.1) (lifted-ok (λ x. migration) (user_version cn db, db) db₁ v p)))
          ∙ r)

  module _ (laws : IsPersistent) where
    flush_meta :
        (store : SqliteStore) (key : String) (db db' : C) (u : Unit {0})
        → flush cn store db ≡ (ok u, db')
        → meta_of key db' ≡ meta_of key db
    unfolding flush
    flush_meta store key db db' u h = elim (Bool-cases store.in_memory) [
      | inl e ↦ ap (meta_of key) (sym (ap (λ z. z.1) (rw e at h)))
      | inr e ↦ laws.checkpoint key db db' u (lifted-ok (λ x. write) _ db' u (rw e at h))
    ]

    module _ {F : Type 0} ⦃fl : Float F⦄ (c : Conversions F D) where
      get_same :
          (key : String) (db db' : C)
          → meta_of key db' ≡ meta_of key db
          → get_meta cn c key db' ≡ get_meta cn c key db
      unfolding get_meta
      get_same key db db' e = rw e refl

      put_meta-ok :
          (key : String) (value : List ℕ) (db db' : C) (u : Unit {0})
          → put_meta cn c key value db ≡ (ok u, db')
          → (n : ℕ) × (cn.execute upsert_meta_sql (text key ∷ blob value ∷ []) db ≡ (ok n, db'))
      unfolding put_meta
      put_meta-ok key value db db' u h = written-ok _ db' u h

      get_put :
          (key : String) (value : List ℕ) (db db' : C) (u : Unit {0})
          → put_meta cn c key value db ≡ (ok u, db')
          → get_meta cn c key db' ≡ ok (some value)
      unfolding get_meta optional and_also
      get_put key value db db' u h =
          let (n, p) = put_meta-ok key value db db' u h in
          rw (laws.put_get key value db db' n p) refl

      pub sqlite_store-KeepsEntries : (store : SqliteStore) → KeepsEntries (sqlite_store cn c store)
      unfolding sqlite_store
      sqlite_store-KeepsEntries store = record {
        put_get = λ k v s s' u h. get_put k v s s' u h;
        put_other = λ k asked v s s' u n h.
            let (m, p) = put_meta-ok k v s s' u h in
            get_same asked s s' (laws.put_other k asked v s s' m n p);
        flush_get = λ k s s' u h. get_same k s s' (flush_meta store k s s' u h);
      }

      -- The answer to a query that found an entry.
      rows_of :
          (key : String) (v : List ℕ) (db : C)
          → get_meta cn c key db ≡ ok (some v)
          → (rows : List (Result SqlError (Row D))) × (meta_of key db ≡ ok rows)
      unfolding get_meta optional and_also
      rows_of key v db h = elim (Result-cases (meta_of key db)) [
        | inl (rows, e) ↦ (rows, e)
        | inr (x, e) ↦
            let h' : get_meta cn c key db ≡ ok (some v) = h in absurd (ground (arith, rw e at h))
      ]

      pub sqlite_store-KeepsMeta :
          (store : SqliteStore) → IsMigrating → KeepsMeta (sqlite_store cn c store)
      unfolding sqlite_store
      sqlite_store-KeepsMeta store moving = record {
        put_get = (sqlite_store-KeepsEntries store).put_get;
        migrate_get = λ k v s s' u h p.
            let (rows, r) = rows_of k v s p in
            get_same k s s' (migrate_meta moving k s s' u rows h r ∙ sym r) ∙ p;
      }
