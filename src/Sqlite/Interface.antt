-- ===== src/Sqlite/Interface.antt =====
-- `impl NodeStore for SqliteStore` of runtime/ntl-store-sqlite/src/lib.rs.
use ntl.Float.{Float}
use ntl.Store.{NodeStore}
use ntl.Sqlite.{Connection, Conversions, SqliteStore, durability}
use ntl.Sqlite.Opening.{migrate, flush}
use ntl.Sqlite.Methods.{
  put_synapse, delete_synapse, put_peer, check_and_set_seen, purge_expired_seen, save_activation,
  append_decision, trim_journal, purge_influence, put_meta, put_signal_history,
}
use ntl.Sqlite.Queries.{
  get_synapse, synapse_for_peer, list_synapses, get_peer, list_peers, count_peers, has_seen,
  load_activation, resolve_decision, pending_decision_for, expired_decisions, recent_decisions,
  record_influence, influence_since, get_meta, get_signal_history,
}

module _ {C F D : Type 0} ⦃fl : Float F⦄ (cn : Connection C D) (c : Conversions F D) where
  unfoldable pub sqlite_store : SqliteStore → NodeStore C F
  sqlite_store store = record {
    migrate = migrate cn;
    durability = durability store;
    flush = flush cn store;
    put_synapse = put_synapse cn c;
    get_synapse = get_synapse cn c;
    synapse_for_peer = synapse_for_peer cn c;
    list_synapses = list_synapses cn c;
    delete_synapse = delete_synapse cn c;
    put_peer = put_peer cn c;
    get_peer = get_peer cn c;
    list_peers = list_peers cn c;
    count_peers = count_peers cn c;
    check_and_set_seen = check_and_set_seen cn c;
    has_seen = has_seen cn c;
    purge_expired_seen = purge_expired_seen cn c;
    save_activation = save_activation cn c;
    load_activation = load_activation cn c;
    append_decision = append_decision cn c;
    resolve_decision = resolve_decision cn c;
    pending_decision_for = pending_decision_for cn c;
    expired_decisions = expired_decisions cn c;
    recent_decisions = recent_decisions cn c;
    trim_journal = trim_journal cn c;
    record_influence = record_influence cn c;
    influence_since = influence_since cn c;
    purge_influence = purge_influence cn c;
    put_meta = put_meta cn c;
    get_meta = get_meta cn c;
    signal_history_enabled = λ db. store.config.retain_signal_history;
    put_signal_history = put_signal_history cn c store;
    get_signal_history = get_signal_history cn c store;
  }
