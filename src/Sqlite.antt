-- ===== src/Sqlite.antt =====
-- runtime/ntl-store-sqlite/src/lib.rs: the storage backend over SQLite. The connection of rusqlite, serde_json, the
-- bytes of a ulid and the numbers of `f64` are parameters; the text of a statement is what the source sends.
pub mod Codes
pub mod Rows
pub mod Schema
pub mod Methods
pub mod Replies
pub mod Queries
pub mod Interface
pub mod Columns
pub mod Stored
pub mod RoundTrip
pub mod Opening
pub mod Migrations
pub mod Entries
pub mod Agreement
use ntl.Base.{
  ℕ, Bool, true, false, Option, none, some, List, [], ◌∷◌, String, leb, if◌then◌else◌, Result, ok,
  err,
}
use ntl.Signal.{SignalId}
use ntl.Store.{
  Durability, durable, best_effort_writes, memory, StoreError, write, unavailable, Read,
}

pub data ℤ : Type 0 where
  pos : ℕ → ℤ
  negsuc : ℕ → ℤ

-- A value of SQLite, with `D` for `f64`.
pub data Value (D : Type 0) : Type 0 where
  text : String → Value D
  blob : List ℕ → Value D
  real : D → Value D
  integer : ℤ → Value D
  null : Value D

abbrev pub Row : Type 0 → Type 0
Row D = List (Value D)

-- `rusqlite::Error`, without its text.
pub data SqlError : Type 0 where
  sql_error : SqlError

-- `rusqlite::Connection`: what the statements do to the database `C`. A query gives its rows one by one. A
-- transaction that is dropped before its commit is rolled back.
pub record Connection (C D : Type 0) : Type 0 where
  pub execute : String → List (Value D) → C → Result SqlError ℕ × C
  pub query : String → List (Value D) → C → Result SqlError (List (Result SqlError (Row D)))
  pub last_insert_rowid : C → ℤ
  pub pragma_update : String → Value D → C → Result SqlError (Unit {0}) × C
  pub busy_timeout : ℕ → C → Result SqlError (Unit {0}) × C
  pub transaction : C → Result SqlError (Unit {0}) × C
  pub execute_batch : String → C → Result SqlError (Unit {0}) × C
  pub commit : C → Result SqlError (Unit {0}) × C
  pub rollback : C → C

-- `f64::from`, `as f32` and `as f64`; serde_json on maps and on lists; the bytes of a ulid.
pub record Conversions (F D : Type 0) : Type 0 where
  pub widen : F → D
  pub narrow : D → F
  pub of_integer : ℤ → D
  pub map_text : List (String × ℕ) → Option String
  pub map_of : String → Option (List (String × ℕ))
  pub vec_text : List String → Option String
  pub vec_of : String → Option (List String)
  pub to_bytes : SignalId → List ℕ
  pub from_bytes : List ℕ → SignalId

pub data Synchronous : Type 0 where
  full normal off : Synchronous

unfoldable pub as_pragma : Synchronous → String
as_pragma full = "FULL"
as_pragma normal = "NORMAL"
as_pragma off = "OFF"

pub record SqliteConfig : Type 0 where
  pub path : String
  pub synchronous : Synchronous
  pub busy_timeout_ms : ℕ
  pub retain_signal_history : Bool

-- `SqliteConfig::at`
unfoldable pub at : String → SqliteConfig
at path = record {
  path = path;
  synchronous = normal;
  busy_timeout_ms = 5000;
  retain_signal_history = false;
}

-- What a store is made of besides its connection.
pub record SqliteStore : Type 0 where
  pub config : SqliteConfig
  pub in_memory : Bool

unfoldable pub durability : SqliteStore → Durability
durability store = if store.in_memory then memory else elim store.config.synchronous [
  | full ↦ durable
  | normal ↦ best_effort_writes
  | off ↦ best_effort_writes
]

abbrev pub i64_max : ℕ
i64_max = 9223372036854775807

unfoldable pub to_i64 : ℕ → ℤ
to_i64 v = if leb v i64_max then pos v else pos i64_max

unfoldable pub from_i64 : ℤ → ℕ
from_i64 (pos v) = v
from_i64 (negsuc v) = 0

abbrev pub write_err : SqlError → StoreError
write_err e = write

abbrev pub read_err : SqlError → StoreError
read_err e = unavailable
