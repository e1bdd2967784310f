-- ===== src/Sqlite/Methods.antt =====
-- The methods of runtime/ntl-store-sqlite/src/lib.rs that change the database. The mutex around the connection is
-- never poisoned. A result says what was changed, and the connection is the state.
use ntl.Base.{
  ℕ, Bool, none, some, Option, List, [], ◌∷◌, String, nat_beq, if◌then◌else◌, Result, ok, err,
  saturating_add, saturating_mul,
}
use ntl.Float.{Float}
use ntl.Signal.{SignalId}
use ntl.Activation.{ActivationSnapshot}
use ntl.Store.{SynapseRecord, PeerRecord, JournalId, JournalEntry, write, unsupported, Read}
use ntl.Sqlite.{
  text, blob, integer, Row, SqlError, Connection, Conversions, SqliteStore, to_i64, from_i64,
}
use ntl.Sqlite.Rows.{synapse_params, peer_params, journal_params, activation_params}

abbrev pub upsert_synapse_sql : String
upsert_synapse_sql =
    "INSERT INTO synapses (id, peer, weight, attenuation_factor, state, type_affinity, established_at_ns, last_active_ns, signals_transmitted, signals_received, avg_latency_ns, error_rate, signature_failures, failure_window_start_ns) VALUES (?1,?2,?3,?4,?5,?6,?7,?8,?9,?10,?11,?12,?13,?14) ON CONFLICT(id) DO UPDATE SET peer=excluded.peer, weight=excluded.weight, attenuation_factor=excluded.attenuation_factor, state=excluded.state, type_affinity=excluded.type_affinity, established_at_ns=excluded.established_at_ns, last_active_ns=excluded.last_active_ns, signals_transmitted=excluded.signals_transmitted, signals_received=excluded.signals_received, avg_latency_ns=excluded.avg_latency_ns, error_rate=excluded.error_rate, signature_failures=excluded.signature_failures, failure_window_start_ns=excluded.failure_window_start_ns"

abbrev pub upsert_peer_sql : String
upsert_peer_sql =
    "INSERT INTO peers (id, addresses, region, advertised_types, last_seen_ns, source) VALUES (?1,?2,?3,?4,?5,?6) ON CONFLICT(id) DO UPDATE SET addresses=excluded.addresses, region=excluded.region, advertised_types=excluded.advertised_types, last_seen_ns=excluded.last_seen_ns, source=excluded.source"

abbrev pub upsert_seen_sql : String
upsert_seen_sql =
    "INSERT INTO seen_signals (id, expires_ns) VALUES (?1, ?2) ON CONFLICT(id) DO UPDATE SET expires_ns = excluded.expires_ns WHERE seen_signals.expires_ns <= ?3"

abbrev pub upsert_activation_sql : String
upsert_activation_sql =
    "INSERT INTO activation (singleton, potential, threshold, refractory_until_ns, signals_fired, taken_at_ns) VALUES (0,?1,?2,?3,?4,?5) ON CONFLICT(singleton) DO UPDATE SET potential=excluded.potential, threshold=excluded.threshold, refractory_until_ns=excluded.refractory_until_ns, signals_fired=excluded.signals_fired, taken_at_ns=excluded.taken_at_ns"

abbrev pub insert_journal_sql : String
insert_journal_sql =
    "INSERT INTO journal (signal, signal_type, synapse, peer, score, signal_weight, explored, decided_at_ns, outcome, resolved_at_ns) VALUES (?1,?2,?3,?4,?5,?6,?7,?8,?9,?10)"

abbrev pub resolve_sql : String
resolve_sql =
    "UPDATE journal SET outcome = ?1, resolved_at_ns = ?2 WHERE id = ?3 AND outcome = 'pending'"

abbrev pub upsert_meta_sql : String
upsert_meta_sql =
    "INSERT INTO meta (key, value) VALUES (?1,?2) ON CONFLICT(key) DO UPDATE SET value = excluded.value"

abbrev pub upsert_history_sql : String
upsert_history_sql =
    "INSERT INTO signal_history (id, body, added_ns) VALUES (?1,?2,?3) ON CONFLICT(id) DO UPDATE SET body = excluded.body, added_ns = excluded.added_ns"

abbrev pub written : {C : Type 0} → Result SqlError ℕ × C → Read (Unit {0}) × C
written (ok n, db) = (ok tt, db)
written (err e, db) = (err write, db)

abbrev pub removed : {C : Type 0} → Result SqlError ℕ × C → Read ℕ × C
removed (ok n, db) = (ok n, db)
removed (err e, db) = (err write, db)

module _ {C F D : Type 0} ⦃fl : Float F⦄ (cn : Connection C D) (c : Conversions F D) where
  abbrev pub put_as : Option String → (String → Row D) → String → C → Read (Unit {0}) × C
  put_as none params sql db = (err write, db)
  put_as (some json) params sql db = written (cn.execute sql (params json) db)

  unfoldable pub put_synapse : SynapseRecord F → C → Read (Unit {0}) × C
  unfolding synapse_params
  put_synapse rec = put_as (c.map_text rec.type_affinity) (synapse_params c rec) upsert_synapse_sql

  unfoldable pub delete_synapse : String → C → Read (Unit {0}) × C
  delete_synapse id db = written (cn.execute "DELETE FROM synapses WHERE id = ?1" (text id ∷ []) db)

  abbrev pub put_peer_as : PeerRecord → Option String → Option String → C → Read (Unit {0}) × C
  put_peer_as rec none types db = (err write, db)
  put_peer_as rec (some addresses) types db =
      put_as types (peer_params c rec addresses) upsert_peer_sql db

  unfoldable pub put_peer : PeerRecord → C → Read (Unit {0}) × C
  unfolding peer_params
  put_peer rec = put_peer_as rec (c.vec_text rec.addresses) (c.vec_text rec.advertised_types)

  abbrev pub none_changed : Read ℕ × C → Read Bool × C
  none_changed (ok changed, db) = (ok (nat_beq changed 0), db)
  none_changed (err e, db) = (err e, db)

  unfoldable pub check_and_set_seen : SignalId → ℕ → ℕ → C → Read Bool × C
  unfolding to_i64
  check_and_set_seen id now_ns ttl_secs db =
      let expires = saturating_add now_ns (saturating_mul ttl_secs 1000000000) in
      none_changed (
        removed (
          cn.execute upsert_seen_sql
            (blob (c.to_bytes id) ∷ integer (to_i64 expires) ∷ integer (to_i64 now_ns) ∷ []) db))

  unfoldable pub purge_expired_seen : ℕ → C → Read ℕ × C
  unfolding to_i64
  purge_expired_seen now_ns db = removed (
      cn.execute "DELETE FROM seen_signals WHERE expires_ns <= ?1" (integer (to_i64 now_ns) ∷ [])
        db)

  unfoldable pub save_activation : ActivationSnapshot F → C → Read (Unit {0}) × C
  unfolding activation_params
  save_activation snapshot db =
      written (cn.execute upsert_activation_sql (activation_params c snapshot) db)

  abbrev pub appended : Result SqlError ℕ × C → Read JournalId × C
  appended (ok n, db) = (ok (from_i64 (cn.last_insert_rowid db)), db)
  appended (err e, db) = (err write, db)

  unfoldable pub append_decision : JournalEntry F → C → Read JournalId × C
  unfolding journal_params from_i64
  append_decision entry db = appended (cn.execute insert_journal_sql (journal_params c entry) db)

  unfoldable pub trim_journal : ℕ → C → Read ℕ × C
  unfolding to_i64
  trim_journal older_than_ns db = removed (
      cn.execute "DELETE FROM journal WHERE decided_at_ns < ?1"
        (integer (to_i64 older_than_ns) ∷ []) db)

  unfoldable pub purge_influence : ℕ → C → Read ℕ × C
  unfolding to_i64
  purge_influence older_than_ns db =
      removed (
        cn.execute "DELETE FROM influence WHERE at_ns < ?1" (integer (to_i64 older_than_ns) ∷ [])
          db)

  unfoldable pub put_meta : String → List ℕ → C → Read (Unit {0}) × C
  put_meta key value db = written (cn.execute upsert_meta_sql (text key ∷ blob value ∷ []) db)

  unfoldable pub put_signal_history : SqliteStore → SignalId → List ℕ → ℕ → C → Read (Unit {0}) × C
  unfolding to_i64
  put_signal_history store id body now_ns db =
      if store.config.retain_signal_history
      then written (
          cn.execute upsert_history_sql
            (blob (c.to_bytes id) ∷ blob body ∷ integer (to_i64 now_ns) ∷ []) db)
      else (err unsupported, db)
