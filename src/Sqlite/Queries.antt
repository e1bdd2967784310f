-- ===== src/Sqlite/Queries.antt =====
-- The methods of runtime/ntl-store-sqlite/src/lib.rs that read the database, and the two that read after a write.
use Prim.Native.String.{◌++◌ as append}
use ntl.Base.{
  ℕ, Bool, true, false, none, some, Option, List, [], ◌∷◌, ◌++◌, map, String, if◌then◌else◌, Result,
  ok, err,
}
use ntl.Float.{Float}
use ntl.Signal.{NodeId, SignalId, SignalType}
use ntl.Activation.{ActivationSnapshot}
use ntl.Store.{
  SynapseState, SynapseRecord, SynapseFilter, PeerRecord, PeerSource, JournalId, JournalEntry,
  Outcome, write, unsupported, Read,
}
use ntl.Sqlite.{
  Value, text, blob, real, integer, Row, SqlError, Connection, Conversions, SqliteStore, to_i64,
  from_i64,
}
use ntl.Sqlite.Codes.{state_to_str, source_to_str, outcome_to_str, signal_type_to_str}
use ntl.Sqlite.Rows.{
  column, as_blob, as_real, as_integer, or_null, row_to_synapse, row_to_journal, row_to_peer,
  row_to_activation, ◌>>=◌,
}
use ntl.Sqlite.Replies.{transpose, needed, optional, all_rows}
use ntl.Sqlite.Methods.{resolve_sql}

abbrev pub synapse_columns : String
synapse_columns =
    "id, peer, weight, attenuation_factor, state, type_affinity, established_at_ns, last_active_ns, signals_transmitted, signals_received, avg_latency_ns, error_rate, signature_failures, failure_window_start_ns"

abbrev pub journal_columns : String
journal_columns =
    "id, signal, signal_type, synapse, peer, score, signal_weight, explored, decided_at_ns, outcome, resolved_at_ns"

abbrev pub select_synapses : String → String
select_synapses rest =
    append "SELECT " (append synapse_columns (append " FROM synapses WHERE " rest))

abbrev pub select_journal : String → String
select_journal rest = append "SELECT " (append journal_columns (append " FROM journal " rest))

abbrev pub select_peers : String → String
select_peers rest =
    append "SELECT id, addresses, region, advertised_types, last_seen_ns, source FROM peers " rest

abbrev pub select_meta_sql : String
select_meta_sql = "SELECT value FROM meta WHERE key = ?1"

abbrev pub influence_sql : String
influence_sql = "SELECT SUM(magnitude) FROM influence WHERE peer = ?1 AND at_ns >= ?2"

-- What the text of `list_synapses` and its arguments are built of.
abbrev pub placeholders : List SynapseState → String
placeholders [] = ""
placeholders (s ∷ []) = "?"
placeholders (s ∷ t ∷ rest) = append "?," (placeholders (t ∷ rest))

abbrev pub in_states : List SynapseState → String
in_states [] = ""
in_states (s ∷ rest) = append " AND state IN (" (append (placeholders (s ∷ rest)) ")")

abbrev pub if_some : {A : Type 0} → Option A → String → String
if_some none clause = ""
if_some (some a) clause = clause

abbrev pub arg : {A D : Type 0} → (A → Value D) → Option A → Row D
arg f none = []
arg f (some a) = f a ∷ []

module _ {C F D : Type 0} ⦃fl : Float F⦄ (cn : Connection C D) (c : Conversions F D) where
  unfoldable pub get_synapse : String → C → Read (Option (SynapseRecord F))
  unfolding optional row_to_synapse ◌>>=◌
  get_synapse id db =
      optional (row_to_synapse c) (cn.query (select_synapses "id = ?1") (text id ∷ []) db)
      >>= transpose

  unfoldable pub synapse_for_peer : NodeId → C → Read (Option (SynapseRecord F))
  unfolding optional row_to_synapse ◌>>=◌
  synapse_for_peer peer db =
      optional (row_to_synapse c) (cn.query (select_synapses "peer = ?1") (blob peer ∷ []) db)
      >>= transpose

  abbrev pub list_sql : SynapseFilter F → String
  list_sql f = append (select_synapses "1=1") (
      append (in_states f.states) (
        append (if_some f.min_weight " AND weight >= ?") (
          append (if_some f.last_active_before_ns " AND last_active_ns < ?")
            (append " ORDER BY weight DESC, id ASC" (if_some f.limit " LIMIT ?")))))

  abbrev pub list_args : SynapseFilter F → Row D
  list_args f =
      map (λ s. text (state_to_str s)) f.states
      ++ arg (λ w. real (c.widen w)) f.min_weight
      ++ arg (λ t. integer (to_i64 t)) f.last_active_before_ns
      ++ arg (λ n. integer (to_i64 n)) f.limit

  unfoldable pub list_synapses : SynapseFilter F → C → Read (List (SynapseRecord F))
  unfolding all_rows row_to_synapse state_to_str to_i64
  list_synapses f db = all_rows (row_to_synapse c) (cn.query (list_sql f) (list_args f) db)

  unfoldable pub get_peer : NodeId → C → Read (Option PeerRecord)
  unfolding optional row_to_peer ◌>>=◌
  get_peer id db =
      optional (row_to_peer c) (cn.query (select_peers "WHERE id = ?1") (blob id ∷ []) db)
      >>= transpose

  unfoldable pub list_peers : Option String → ℕ → C → Read (List PeerRecord)
  unfolding all_rows row_to_peer to_i64
  list_peers none limit db = all_rows (row_to_peer c) (
      cn.query (select_peers "ORDER BY last_seen_ns DESC, id ASC LIMIT ?1")
        (integer (to_i64 limit) ∷ []) db)
  list_peers (some region) limit db = all_rows (row_to_peer c) (
      cn.query (select_peers "WHERE region = ?1 ORDER BY last_seen_ns DESC, id ASC LIMIT ?2")
        (text region ∷ integer (to_i64 limit) ∷ []) db)

  unfoldable pub count_peers : PeerSource → C → Read ℕ
  unfolding optional source_to_str from_i64 ◌>>=◌
  count_peers source db =
      needed (
        optional (λ row. column 0 row >>= as_integer)
          (cn.query "SELECT COUNT(*) FROM peers WHERE source = ?1"
            (text (source_to_str source) ∷ []) db))
      >>= (λ count. ok (from_i64 count))

  abbrev pub is_some : {A : Type 0} → Option A → Bool
  is_some none = false
  is_some (some a) = true

  unfoldable pub has_seen : SignalId → ℕ → C → Read Bool
  unfolding optional to_i64 ◌>>=◌
  has_seen id now_ns db =
      optional (λ row. column 0 row >>= as_integer)
        (cn.query "SELECT 1 FROM seen_signals WHERE id = ?1 AND expires_ns > ?2"
          (blob (c.to_bytes id) ∷ integer (to_i64 now_ns) ∷ []) db)
      >>= (λ found. ok (is_some found))

  unfoldable pub load_activation : C → Read (Option (ActivationSnapshot F))
  unfolding optional row_to_activation
  load_activation db = optional (row_to_activation c) (
      cn.query
        "SELECT potential, threshold, refractory_until_ns, signals_fired, taken_at_ns FROM activation WHERE singleton = 0"
        [] db)

  unfoldable pub journal_entry : JournalId → C → Read (Option (JournalEntry F))
  unfolding optional row_to_journal to_i64 ◌>>=◌
  journal_entry id db =
      optional (row_to_journal c)
        (cn.query (select_journal "WHERE id = ?1") (integer (to_i64 id) ∷ []) db)
      >>= transpose

  abbrev pub resolved : JournalId → Result SqlError ℕ × C → Read (Option (JournalEntry F)) × C
  resolved id (ok changed, db) = (journal_entry id db, db)
  resolved id (err e, db) = (err write, db)

  unfoldable pub resolve_decision : JournalId → Outcome → ℕ → C → Read (Option (JournalEntry F)) × C
  unfolding journal_entry outcome_to_str to_i64
  resolve_decision id outcome now_ns db = resolved id (
      cn.execute resolve_sql
        (text (outcome_to_str outcome) ∷ integer (to_i64 now_ns) ∷ integer (to_i64 id) ∷ []) db)

  unfoldable pub pending_decision_for : SignalId → NodeId → C → Read (Option (JournalEntry F))
  unfolding optional row_to_journal ◌>>=◌
  pending_decision_for signal peer db =
      optional (row_to_journal c) (
        cn.query
          (select_journal
            "WHERE signal = ?1 AND peer = ?2 AND outcome = 'pending' ORDER BY decided_at_ns ASC LIMIT 1")
          (blob (c.to_bytes signal) ∷ blob peer ∷ []) db)
      >>= transpose

  unfoldable pub expired_decisions : ℕ → ℕ → C → Read (List (JournalEntry F))
  unfolding all_rows row_to_journal to_i64
  expired_decisions deadline_ns limit db = all_rows (row_to_journal c) (
      cn.query
        (select_journal
          "WHERE outcome = 'pending' AND decided_at_ns < ?1 ORDER BY decided_at_ns ASC LIMIT ?2")
        (integer (to_i64 deadline_ns) ∷ integer (to_i64 limit) ∷ []) db)

  unfoldable pub recent_decisions : Option SignalType → ℕ → C → Read (List (JournalEntry F))
  unfolding all_rows row_to_journal signal_type_to_str to_i64
  recent_decisions (some t) limit db = all_rows (row_to_journal c) (
      cn.query
        (select_journal "WHERE signal_type = ?1 ORDER BY decided_at_ns DESC, id DESC LIMIT ?2")
        (text (signal_type_to_str t) ∷ integer (to_i64 limit) ∷ []) db)
  recent_decisions none limit db = all_rows (row_to_journal c) (
      cn.query (select_journal "ORDER BY decided_at_ns DESC, id DESC LIMIT ?1")
        (integer (to_i64 limit) ∷ []) db)

  abbrev pub or_zero : Option D → F
  or_zero none = fl.lit 0 1
  or_zero (some total) = c.narrow total

  -- The sum of no rows is NULL.
  unfoldable pub influence_since : NodeId → ℕ → C → Read F
  unfolding optional to_i64 ◌>>=◌
  influence_since peer window_start_ns db =
      needed (
        optional (λ row. column 0 row >>= or_null (as_real c))
          (cn.query influence_sql (blob peer ∷ integer (to_i64 window_start_ns) ∷ []) db))
      >>= (λ total. ok (or_zero total))

  abbrev pub recorded : NodeId → ℕ → Result SqlError ℕ × C → Read F × C
  recorded peer window_start_ns (ok changed, db) = (influence_since peer window_start_ns db, db)
  recorded peer window_start_ns (err e, db) = (err write, db)

  unfoldable pub record_influence : NodeId → F → ℕ → ℕ → C → Read F × C
  unfolding influence_since to_i64
  record_influence peer magnitude now_ns window_start_ns db = recorded peer window_start_ns (
      cn.execute "INSERT INTO influence (peer, magnitude, at_ns) VALUES (?1,?2,?3)"
        (blob peer ∷ real (c.widen (fl.abs magnitude)) ∷ integer (to_i64 now_ns) ∷ []) db)

  unfoldable pub get_meta : String → C → Read (Option (List ℕ))
  unfolding optional ◌>>=◌
  get_meta key db =
      optional (λ row. column 0 row >>= as_blob) (cn.query select_meta_sql (text key ∷ []) db)

  unfoldable pub get_signal_history : SqliteStore → SignalId → C → Read (Option (List ℕ))
  unfolding optional ◌>>=◌
  get_signal_history store id db =
      if store.config.retain_signal_history
      then optional (λ row. column 0 row >>= as_blob)
          (cn.query "SELECT body FROM signal_history WHERE id = ?1" (blob (c.to_bytes id) ∷ []) db)
      else err unsupported
