-- ===== src/Store/Memory.antt =====
-- runtime/ntl-core/src/store/memory.rs: the reference implementation of the storage interface. Its locks
-- are never poisoned here; a map is an association list.
pub mod Seen
pub mod Journal
pub mod Pending
pub mod Queries
pub mod Interface
use ntl.Base.{
  ℕ, zero, suc, ◌+◌, ◌-◌, Bool, true, false, not, ◌&&◌, ◌||◌, Option, none, some, List, [], ◌∷◌,
  ◌++◌, String, map, if◌then◌else◌, ltb, leb, ◌==◌, add64, saturating_add, saturating_mul, text_eq,
  number_eq, bytes_eq, filter, find, any, take, length, is_empty, Result, ok, err,
}
use ntl.Base.Map.{get, insert, remove, values}
use ntl.Base.Sort.{sort_by}
use ntl.Float.{Float}
use ntl.Signal.{NodeId, SignalId, SignalType}
use ntl.Activation.{ActivationSnapshot}
use ntl.Learning.{sum_from}
use ntl.Store.{
  SynapseState, state_eq, SynapseRecord, SynapseFilter, PeerRecord, PeerSource, JournalId,
  JournalEntry, Outcome, is_resolved, StoreError, unsupported, Read, NodeStore,
}

pub record Influence (F : Type 0) : Type 0 where
  pub peer : NodeId
  pub magnitude : F
  pub at_ns : ℕ

pub record MemoryStore (F : Type 0) : Type 0 where
  pub synapses : List (String × SynapseRecord F)
  pub peers : List (NodeId × PeerRecord)
  pub seen : List (SignalId × ℕ)
  pub activation : Option (ActivationSnapshot F)
  pub journal : List (JournalEntry F)
  pub next_journal_id : ℕ
  pub influence : List (Influence F)
  pub meta : List (String × List ℕ)
  pub history : List (SignalId × List ℕ)
  pub retain_history : Bool

unfoldable pub new : {F : Type 0} → MemoryStore F
new = record {
  synapses = [];
  peers = [];
  seen = [];
  activation = none;
  journal = [];
  next_journal_id = 0;
  influence = [];
  meta = [];
  history = [];
  retain_history = false;
}

-- A store that keeps signal bodies.
unfoldable pub with_history : {F : Type 0} → MemoryStore F
unfolding new
with_history = record new { retain_history = true }

abbrev pub limited {ℓ} : {A : Type ℓ} → Option ℕ → List A → List A
limited none xs = xs
limited (some n) xs = take n xs

abbrev pub unexpired : ℕ → List (SignalId × ℕ) → List (SignalId × ℕ)
unexpired now_ns seen = filter (λ (e : SignalId × ℕ). ltb now_ns e.1) seen

abbrev pub active_before : Option ℕ → ℕ → Bool
active_before none n = true
active_before (some before) n = ltb n before

abbrev pub live_at : ℕ → Option ℕ → Bool
live_at now_ns none = false
live_at now_ns (some expires) = ltb now_ns expires

module _ {F : Type 0} where
  unfoldable pub put_synapse : SynapseRecord F → MemoryStore F → Read (Unit {0}) × MemoryStore F
  unfolding insert
  put_synapse rec st = (ok tt, record st { synapses = insert rec.id rec st.synapses })

  unfoldable pub get_synapse : String → MemoryStore F → Read (Option (SynapseRecord F))
  unfolding get
  get_synapse id st = ok (get id st.synapses)

  unfoldable pub synapse_for_peer : NodeId → MemoryStore F → Read (Option (SynapseRecord F))
  synapse_for_peer peer st = ok (find (λ s. s.peer == peer) (values st.synapses))

  unfoldable pub delete_synapse : String → MemoryStore F → Read (Unit {0}) × MemoryStore F
  unfolding remove
  delete_synapse id st = (ok tt, record st { synapses = remove id st.synapses })

  unfoldable pub put_peer : PeerRecord → MemoryStore F → Read (Unit {0}) × MemoryStore F
  unfolding insert
  put_peer rec st = (ok tt, record st { peers = insert rec.id rec st.peers })

  unfoldable pub get_peer : NodeId → MemoryStore F → Read (Option PeerRecord)
  unfolding get
  get_peer id st = ok (get id st.peers)

  unfoldable pub check_and_set_seen : SignalId → ℕ → ℕ → MemoryStore F → Read Bool × MemoryStore F
  unfolding get insert
  check_and_set_seen id now_ns ttl_secs st =
      let expires = saturating_add now_ns (saturating_mul ttl_secs 1000000000) in
      if live_at now_ns (get id st.seen)
      then (ok true, st)
      else (ok false, record st { seen = insert id expires st.seen })

  unfoldable pub has_seen : SignalId → ℕ → MemoryStore F → Read Bool
  unfolding get
  has_seen id now_ns st = ok (live_at now_ns (get id st.seen))

  unfoldable pub purge_expired_seen : ℕ → MemoryStore F → Read ℕ × MemoryStore F
  purge_expired_seen now_ns st =
      let rest = unexpired now_ns st.seen in
      (ok (length st.seen - length rest), record st { seen = rest })

  unfoldable pub save_activation :
      ActivationSnapshot F → MemoryStore F → Read (Unit {0}) × MemoryStore F
  save_activation snapshot st = (ok tt, record st { activation = some snapshot })

  unfoldable pub load_activation : MemoryStore F → Read (Option (ActivationSnapshot F))
  load_activation st = ok st.activation

  unfoldable pub append_decision : JournalEntry F → MemoryStore F → Read JournalId × MemoryStore F
  append_decision entry st =
      let id = add64 st.next_journal_id 1 in
      (
        ok id,
        record st {
          next_journal_id = id;
          journal = st.journal ++ record entry { id = some id } ∷ [];
        },
      )

  abbrev pub has_id : JournalId → JournalEntry F → Bool
  has_id id e = elim e.id [ none ↦ false | some j ↦ j == id ]

  -- The first entry with the identifier, resolved unless it already was, and the journal after it.
  unfoldable pub resolve_in :
      JournalId
      → Outcome
      → ℕ
      → List (JournalEntry F)
      → Option (JournalEntry F) × List (JournalEntry F)
  unfolding is_resolved
  resolve_in id outcome now_ns [] = (none, [])
  resolve_in id outcome now_ns (e ∷ es) =
      let rest = resolve_in id outcome now_ns es in
      if has_id id e
      then (let e' =
            if is_resolved e.outcome
            then e
            else record e { outcome = outcome; resolved_at_ns = some now_ns } in
          (some e', e' ∷ es))
      else (rest.0, e ∷ rest.1)

  unfoldable pub resolve_decision :
      JournalId → Outcome → ℕ → MemoryStore F → Read (Option (JournalEntry F)) × MemoryStore F
  unfolding resolve_in
  resolve_decision id outcome now_ns st =
      let (entry, journal) = resolve_in id outcome now_ns st.journal in
      (ok entry, record st { journal = journal })

  abbrev pub is_pending_for : SignalId → NodeId → JournalEntry F → Bool
  is_pending_for signal peer e = e.signal == signal && e.peer == peer && not (is_resolved e.outcome)

  unfoldable pub pending_decision_for :
      SignalId → NodeId → MemoryStore F → Read (Option (JournalEntry F))
  pending_decision_for signal peer st = ok (find (is_pending_for signal peer) st.journal)

  unfoldable pub expired_decisions : ℕ → ℕ → MemoryStore F → Read (List (JournalEntry F))
  expired_decisions deadline_ns limit st = ok (
      take limit
        (filter (λ e. not (is_resolved e.outcome) && ltb e.decided_at_ns deadline_ns) st.journal))

  unfoldable pub trim_journal : ℕ → MemoryStore F → Read ℕ × MemoryStore F
  trim_journal older_than_ns st =
      let rest = filter (λ e. leb older_than_ns e.decided_at_ns) st.journal in
      (ok (length st.journal - length rest), record st { journal = rest })

  unfoldable pub purge_influence : ℕ → MemoryStore F → Read ℕ × MemoryStore F
  purge_influence older_than_ns st =
      let rest = filter (λ i. leb older_than_ns i.at_ns) st.influence in
      (ok (length st.influence - length rest), record st { influence = rest })

  unfoldable pub put_meta : String → List ℕ → MemoryStore F → Read (Unit {0}) × MemoryStore F
  unfolding insert
  put_meta key value st = (ok tt, record st { meta = insert key value st.meta })

  unfoldable pub get_meta : String → MemoryStore F → Read (Option (List ℕ))
  unfolding get
  get_meta key st = ok (get key st.meta)

  unfoldable pub put_signal_history :
      SignalId → List ℕ → ℕ → MemoryStore F → Read (Unit {0}) × MemoryStore F
  unfolding insert
  put_signal_history id body now_ns st =
      if st.retain_history
      then (ok tt, record st { history = insert id body st.history })
      else (err unsupported, st)

  unfoldable pub get_signal_history : SignalId → MemoryStore F → Read (Option (List ℕ))
  unfolding get
  get_signal_history id st = if st.retain_history then ok (get id st.history) else err unsupported

module _ {F : Type 0} ⦃fl : Float F⦄ where
  abbrev pub at_most : Option F → F → Bool
  at_most none w = true
  at_most (some min) w = fl.le min w

  unfoldable pub passes : SynapseFilter F → SynapseRecord F → Bool
  passes f s =
      (is_empty f.states || any (λ x. x == s.state) f.states)
      && at_most f.min_weight s.weight
      && active_before f.last_active_before_ns s.last_active_ns

  -- Weight descending, then identifier.
  abbrev pub lists_before : (String → String → Bool) → SynapseRecord F → SynapseRecord F → Bool
  lists_before id_leb a b =
      if fl.lt b.weight a.weight
      then true
      else if fl.lt a.weight b.weight
      then false
      else id_leb a.id b.id

  unfoldable pub list_synapses :
      (String → String → Bool) → SynapseFilter F → MemoryStore F → Read (List (SynapseRecord F))
  unfolding passes
  list_synapses id_leb f st =
      ok (limited f.limit (sort_by (lists_before id_leb) (filter (passes f) (values st.synapses))))

  abbrev pub sum_of : List F → F
  sum_of xs = sum_from (fl.lit 0 1) xs

  abbrev pub magnitudes_since : NodeId → ℕ → List (Influence F) → List F
  magnitudes_since peer window_start_ns is =
      map (λ i. i.magnitude) (filter (λ i. i.peer == peer && leb window_start_ns i.at_ns) is)

  unfoldable pub record_influence : NodeId → F → ℕ → ℕ → MemoryStore F → Read F × MemoryStore F
  record_influence peer magnitude now_ns window_start_ns st =
      let after =
        st.influence ++ record { peer = peer; magnitude = fl.abs magnitude; at_ns = now_ns } ∷ [] in
      (ok (sum_of (magnitudes_since peer window_start_ns after)), record st { influence = after })

  unfoldable pub influence_since : NodeId → ℕ → MemoryStore F → Read F
  influence_since peer window_start_ns st =
      ok (sum_of (magnitudes_since peer window_start_ns st.influence))
