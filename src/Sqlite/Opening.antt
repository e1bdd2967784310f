-- ===== src/Sqlite/Opening.antt =====
-- How runtime/ntl-store-sqlite/src/lib.rs sets a connection up, migrates its schema, and flushes it.
use ntl.Base.{ℕ, Bool, true, false, List, [], ◌∷◌, leb, ltb, ◌^◌, if◌then◌else◌, Result, ok, err}
use ntl.Store.{StoreError, write, migration, unavailable}
use ntl.Node.Monad.{Act, pure, fail, lifted, ◌>>=◌, ◌>>◌}
use ntl.Sqlite.{
  pos, Value, text, integer, Row, SqlError, sql_error, Connection, SqliteStore, as_pragma,
}
use ntl.Sqlite.Schema.{Migration, migrations, current_version}

module _ {D : Type 0} where
  -- A `u32` in the first column of the first row.
  abbrev pub as_u32 : Value D → Result SqlError ℕ
  as_u32 (integer (pos v)) = if ltb v (2 ^ 32) then ok v else err sql_error
  as_u32 _ = err sql_error

  abbrev pub version_in : Row D → Result SqlError ℕ
  version_in [] = err sql_error
  version_in (v ∷ vs) = as_u32 v

  abbrev pub first_version : List (Result SqlError (Row D)) → Result SqlError ℕ
  first_version [] = err sql_error
  first_version (ok row ∷ rows) = version_in row
  first_version (err e ∷ rows) = err e

  abbrev pub version_of : Result SqlError (List (Result SqlError (Row D))) → Result SqlError ℕ
  version_of (ok rows) = first_version rows
  version_of (err e) = err e

module _ {C D : Type 0} (cn : Connection C D) where
  unfoldable pub user_version : C → Result SqlError ℕ
  user_version db = version_of (cn.query "PRAGMA user_version" [] db)

  unfoldable pub schema_version : Act C StoreError ℕ
  unfolding user_version lifted
  schema_version db = lifted (λ e. unavailable) (user_version db, db)

  abbrev pub or_unavailable : (C → Result SqlError (Unit {0}) × C) → Act C StoreError (Unit {0})
  or_unavailable f db = lifted (λ e. unavailable) (f db)

  abbrev pub wal : Bool → Act C StoreError (Unit {0})
  wal true = pure tt
  wal false = or_unavailable (cn.pragma_update "journal_mode" (text "WAL"))

  unfoldable pub apply_pragmas : SqliteStore → Act C StoreError (Unit {0})
  unfolding as_pragma lifted
  apply_pragmas store = do
    wal store.in_memory
    or_unavailable (cn.pragma_update "synchronous" (text (as_pragma store.config.synchronous)))
    or_unavailable (cn.pragma_update "foreign_keys" (text "ON"))
    or_unavailable (cn.busy_timeout store.config.busy_timeout_ms)

  unfoldable pub flush : SqliteStore → Act C StoreError (Unit {0})
  unfolding lifted
  flush store db =
      if store.in_memory
      then (ok tt, db)
      else lifted (λ e. write) (cn.pragma_update "wal_checkpoint" (text "TRUNCATE") db)

  abbrev pub or_migration : {A : Type 0} → (C → Result SqlError A × C) → Act C StoreError A
  or_migration f db = lifted (λ e. migration) (f db)

  -- A transaction that is dropped on an error is rolled back.
  unfoldable pub rolled_back : Result StoreError (Unit {0}) × C → Result StoreError (Unit {0}) × C
  rolled_back (ok u, db) = (ok u, db)
  rolled_back (err e, db) = (err e, cn.rollback db)

  unfoldable pub in_transaction : Migration → Act C StoreError (Unit {0})
  unfolding lifted
  in_transaction m = do
    or_migration (cn.execute_batch m.sql)
    or_migration (cn.pragma_update "user_version" (integer (pos m.version)))
    or_migration cn.commit

  unfoldable pub apply : Migration → Act C StoreError (Unit {0})
  unfolding lifted rolled_back in_transaction
  apply m = do or_migration cn.transaction; (λ db. rolled_back (in_transaction m db))

  unfoldable pub apply_newer : ℕ → List Migration → Act C StoreError (Unit {0})
  unfolding apply
  apply_newer current [] = pure tt
  apply_newer current (m ∷ ms) =
      let rest = apply_newer current ms in if leb m.version current then rest else do apply m; rest

  unfoldable pub from_version : ℕ → Act C StoreError (Unit {0})
  unfolding apply_newer migrations
  from_version current =
      if ltb current_version current then fail migration else apply_newer current migrations

  unfoldable pub migrate : Act C StoreError (Unit {0})
  unfolding user_version from_version lifted
  migrate = do current ← or_migration (λ db. (user_version db, db)); from_version current
