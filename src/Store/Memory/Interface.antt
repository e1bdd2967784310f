-- ===== src/Store/Memory/Interface.antt =====
-- `impl NodeStore for MemoryStore` of runtime/ntl-core/src/store/memory.rs, given the order of identifiers.
use ntl.Base.{Bool, String, ok}
use ntl.Float.{Float}
use ntl.Store.{NodeStore, memory}
use ntl.Store.Memory.{
  MemoryStore, put_synapse, get_synapse, synapse_for_peer, list_synapses, delete_synapse, put_peer,
  get_peer, check_and_set_seen, has_seen, purge_expired_seen, save_activation, load_activation,
  append_decision, resolve_decision, pending_decision_for, expired_decisions, trim_journal,
  record_influence, influence_since, purge_influence, put_meta, get_meta, put_signal_history,
  get_signal_history,
}
use ntl.Store.Memory.Queries.{list_peers, count_peers, recent_decisions}

module _ {F : Type 0} ⦃fl : Float F⦄ where
  unfoldable pub memory_store : (String → String → Bool) → NodeStore (MemoryStore F) F
  memory_store id_leb = record {
    migrate = λ st. (ok tt, st);
    durability = memory;
    flush = λ st. (ok tt, st);
    put_synapse = put_synapse;
    get_synapse = get_synapse;
    synapse_for_peer = synapse_for_peer;
    list_synapses = list_synapses id_leb;
    delete_synapse = delete_synapse;
    put_peer = put_peer;
    get_peer = get_peer;
    list_peers = list_peers;
    count_peers = count_peers;
    check_and_set_seen = check_and_set_seen;
    has_seen = has_seen;
    purge_expired_seen = purge_expired_seen;
    save_activation = save_activation;
    load_activation = load_activation;
    append_decision = append_decision;
    resolve_decision = resolve_decision;
    pending_decision_for = pending_decision_for;
    expired_decisions = expired_decisions;
    recent_decisions = recent_decisions;
    trim_journal = trim_journal;
    record_influence = record_influence;
    influence_since = influence_since;
    purge_influence = purge_influence;
    put_meta = put_meta;
    get_meta = get_meta;
    signal_history_enabled = λ st. st.retain_history;
    put_signal_history = put_signal_history;
    get_signal_history = get_signal_history;
  }
