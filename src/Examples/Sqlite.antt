-- ===== src/Examples/Sqlite.antt =====
-- Examples on what the SQLite store reads back, on its migrations, and on an identity kept in it.
use ntl.Base.{◌≡◌, refl, arith, true, false, none, some, List, [], ◌∷◌, ok}
use ntl.Float.Fixed.{Fixed, fixed_float}
use ntl.Signal.{query}
use ntl.Store.{SynapseRecord, JournalEntry, active, pending}
use ntl.Store.{NodeStore}
use ntl.Store.Memory.{MemoryStore, new}
use ntl.Store.Memory.Interface.{memory_store}
use ntl.Sqlite.Agreement.{MetaStep, put, flushed, step, run, Agree, run-sqlite_store}
use ntl.Sqlite.{SqliteStore, at, i64_max}
use ntl.Sqlite.Columns.{positive_zero}
use ntl.Node.Restart.{KeepsMeta}
use ntl.Sqlite.Entries.{sqlite_store-KeepsMeta}
use ntl.Sqlite.Interface.{sqlite_store}
use ntl.Sqlite.Methods.{put_meta, put_synapse, append_decision}
use ntl.Sqlite.Queries.{get_meta, get_synapse, journal_entry}
use ntl.Sqlite.RoundTrip.{get_synapse-put_synapse, journal_entry-append_decision}
use ntl.Sqlite.Opening.{flush, user_version, migrate, apply_newer}
use ntl.Sqlite.Migrations.{migrate-migrate}
use ntl.Sqlite.Schema.{current_version}
use ntl.Node.Monad.{◌>>=◌}
use ntl.Examples.Data.{num}
use ntl.Examples.Database.{
  Tables, empty_tables, made_tables, toy_rest, toy_database, toy_conversions, toy-IsExact,
  toy-IsKeyed, toy-IsVersioned, toy-IsPersistent, toy-IsMigrating,
}

-- A time after the year 2262 does not fit in the database.
abbrev far_synapse : SynapseRecord Fixed
far_synapse = record {
  id = "syn-a";
  peer = 7 ∷ [];
  weight = num 420;
  attenuation_factor = num 900;
  state = active;
  type_affinity = ("Query", 1) ∷ [];
  established_at_ns = 1000;
  last_active_ns = 18446744073709551615;
  signals_transmitted = 7;
  signals_received = 3;
  avg_latency_ns = 1500000;
  error_rate = num 0;
  signature_failures = 2;
  failure_window_start_ns = 0;
}

abbrev with_synapse : Tables
with_synapse = (put_synapse toy_database toy_conversions far_synapse made_tables).1

get_synapse-put_synapse_example :
    get_synapse toy_database toy_conversions "syn-a" with_synapse
    ≡ ok (some (record far_synapse { last_active_ns = i64_max }))
unfolding put_synapse positive_zero
get_synapse-put_synapse_example =
    get_synapse-put_synapse toy_database toy_conversions toy_rest far_synapse made_tables
      with_synapse tt toy-IsExact toy-IsKeyed (omega arith) refl

abbrev decision : JournalEntry Fixed
decision = record {
  id = none;
  signal = 104;
  signal_type = query;
  synapse = "syn-a";
  peer = 7 ∷ [];
  score = num 750;
  signal_weight = num 800;
  explored = true;
  decided_at_ns = 10000;
  outcome = pending;
  resolved_at_ns = none;
}

abbrev with_decision : Tables
with_decision = (append_decision toy_database toy_conversions decision made_tables).1

journal_entry-append_decision_example :
    journal_entry toy_database toy_conversions 1 with_decision
    ≡ ok (some (record decision { id = some 1 }))
unfolding append_decision positive_zero
journal_entry-append_decision_example =
    journal_entry-append_decision toy_database toy_conversions toy_rest decision made_tables
      with_decision 1 toy-IsExact toy-IsKeyed (omega arith) refl

abbrev migrated : Tables
migrated = (migrate toy_database empty_tables).1

migrate-migrate_example :
    (user_version toy_database migrated ≡ ok current_version)
    × (migrate toy_database migrated ≡ (ok tt, migrated))
unfolding migrate user_version apply_newer ◌>>=◌
migrate-migrate_example = migrate-migrate toy_database empty_tables migrated tt toy-IsVersioned refl

abbrev on_disk : SqliteStore
on_disk = record { config = at "node.db"; in_memory = false }

-- The seed of an identity, written twice.
abbrev seeds : List MetaStep
seeds = put "identity-seed" (1 ∷ []) ∷ flushed ∷ put "identity-seed" (2 ∷ []) ∷ []

abbrev disk_store : NodeStore Tables Fixed
disk_store = sqlite_store toy_database toy_conversions on_disk

abbrev reference_store : NodeStore (MemoryStore Fixed) Fixed
reference_store = memory_store (λ a b. true)

abbrev with_seed : Tables
with_seed = (run disk_store seeds made_tables).1

run-sqlite_store_example :
    Agree disk_store reference_store with_seed (run reference_store seeds new).1
unfolding run step sqlite_store put_meta flush memory_store new ◌>>=◌ get_meta
    ntl.Store.Memory.get_meta ntl.Base.Map.get
run-sqlite_store_example =
    run-sqlite_store (λ a b. true) toy_database toy-IsPersistent toy_conversions on_disk seeds
      made_tables with_seed new tt (λ key. refl) refl

-- A node can start again over this store as well.
disk_store-KeepsMeta : KeepsMeta disk_store
disk_store-KeepsMeta =
    sqlite_store-KeepsMeta toy_database toy-IsPersistent toy_conversions on_disk toy-IsMigrating
