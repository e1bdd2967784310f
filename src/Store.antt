-- ===== src/Store.antt =====
-- runtime/ntl-core/src/store/mod.rs: what a node persists, and the storage interface as the node sees
-- it. An operation that writes takes the store and returns the new one beside its result.
pub mod Memory
use ntl.Base.{
  ℕ, Bool, true, false, not, Option, none, some, List, [], ◌∷◌, String, Result, PartialEq, arith,
  ◌≡◌, ◌↔◌,
}
use ntl.Float.{Float}
use ntl.Signal.{NodeId, SignalId, SignalType}
use ntl.Activation.{ActivationSnapshot}

-- synapse.rs: the lifecycle state of a synapse.
pub data SynapseState : Type 0 where
  forming active weakening dormant pruned : SynapseState

abbrev pub state_beq : SynapseState → SynapseState → Bool
state_beq forming forming = true
state_beq active active = true
state_beq weakening weakening = true
state_beq dormant dormant = true
state_beq pruned pruned = true
state_beq a b = false

pub state_beq_iff : (a b : SynapseState) → (state_beq a b ≡ true) ↔ (a ≡ b)
state_beq_iff a b = ground arith

instance abbrev pub state_eq : PartialEq SynapseState
state_eq = record { eqb = state_beq; eqb_iff = state_beq_iff }

pub data Outcome : Type 0 where
  pending delivered rejected timed_out transport_failure signature_failure : Outcome

unfoldable pub is_resolved : Outcome → Bool
is_resolved pending = false
is_resolved _ = true

module _ {F : Type 0} ⦃fl : Float F⦄ where
  unfoldable pub reward : Outcome → F
  reward delivered = fl.lit 1 1
  reward pending = fl.lit 0 1
  reward timed_out = fl.neg (fl.lit 1 4)
  reward rejected = fl.neg (fl.lit 1 2)
  reward transport_failure = fl.neg (fl.lit 1 2)
  reward signature_failure = fl.neg (fl.lit 1 1)

pub data StoreError : Type 0 where
  unavailable migration corrupt write unsupported : StoreError

pub record SynapseRecord (F : Type 0) : Type 0 where
  pub id : String
  pub peer : NodeId
  pub weight : F
  pub attenuation_factor : F
  pub state : SynapseState
  pub type_affinity : List (String × ℕ)
  pub established_at_ns : ℕ
  pub last_active_ns : ℕ
  pub signals_transmitted : ℕ
  pub signals_received : ℕ
  pub avg_latency_ns : ℕ
  pub error_rate : F
  pub signature_failures : ℕ
  pub failure_window_start_ns : ℕ

pub record SynapseFilter (F : Type 0) : Type 0 where
  pub states : List SynapseState
  pub min_weight : Option F
  pub last_active_before_ns : Option ℕ
  pub limit : Option ℕ

abbrev pub any_synapse : {F : Type 0} → SynapseFilter F
any_synapse = record { states = []; min_weight = none; last_active_before_ns = none; limit = none }

-- `SynapseFilter::eligible`
abbrev pub eligible : {F : Type 0} → SynapseFilter F
eligible = record {
  states = active ∷ weakening ∷ [];
  min_weight = none;
  last_active_before_ns = none;
  limit = none;
}

pub data PeerSource : Type 0 where
  configured bootstrap discovered observed : PeerSource

pub record PeerRecord : Type 0 where
  pub id : NodeId
  pub addresses : List String
  pub region : Option String
  pub advertised_types : List String
  pub last_seen_ns : ℕ
  pub source : PeerSource

abbrev pub JournalId : Type 0
JournalId = ℕ

pub record JournalEntry (F : Type 0) : Type 0 where
  pub id : Option JournalId
  pub signal : SignalId
  pub signal_type : SignalType
  pub synapse : String
  pub peer : NodeId
  pub score : F
  pub signal_weight : F
  pub explored : Bool
  pub decided_at_ns : ℕ
  pub outcome : Outcome
  pub resolved_at_ns : Option ℕ

abbrev pub Read : Type 0 → Type 0
Read A = Result StoreError A

pub data Durability : Type 0 where
  durable best_effort_writes memory : Durability

-- `trait NodeStore`
pub record NodeStore (S F : Type 0) : Type 0 where
  pub migrate : S → Read (Unit {0}) × S
  pub durability : Durability
  pub flush : S → Read (Unit {0}) × S
  pub put_synapse : SynapseRecord F → S → Read (Unit {0}) × S
  pub get_synapse : String → S → Read (Option (SynapseRecord F))
  pub synapse_for_peer : NodeId → S → Read (Option (SynapseRecord F))
  pub list_synapses : SynapseFilter F → S → Read (List (SynapseRecord F))
  pub delete_synapse : String → S → Read (Unit {0}) × S
  pub put_peer : PeerRecord → S → Read (Unit {0}) × S
  pub get_peer : NodeId → S → Read (Option PeerRecord)
  pub list_peers : Option String → ℕ → S → Read (List PeerRecord)
  pub count_peers : PeerSource → S → Read ℕ
  pub check_and_set_seen : SignalId → ℕ → ℕ → S → Read Bool × S
  pub has_seen : SignalId → ℕ → S → Read Bool
  pub purge_expired_seen : ℕ → S → Read ℕ × S
  pub save_activation : ActivationSnapshot F → S → Read (Unit {0}) × S
  pub load_activation : S → Read (Option (ActivationSnapshot F))
  pub append_decision : JournalEntry F → S → Read JournalId × S
  pub resolve_decision : JournalId → Outcome → ℕ → S → Read (Option (JournalEntry F)) × S
  pub pending_decision_for : SignalId → NodeId → S → Read (Option (JournalEntry F))
  pub expired_decisions : ℕ → ℕ → S → Read (List (JournalEntry F))
  pub recent_decisions : Option SignalType → ℕ → S → Read (List (JournalEntry F))
  pub trim_journal : ℕ → S → Read ℕ × S
  pub record_influence : NodeId → F → ℕ → ℕ → S → Read F × S
  pub influence_since : NodeId → ℕ → S → Read F
  pub purge_influence : ℕ → S → Read ℕ × S
  pub put_meta : String → List ℕ → S → Read (Unit {0}) × S
  pub get_meta : String → S → Read (Option (List ℕ))
  pub signal_history_enabled : S → Bool
  pub put_signal_history : SignalId → List ℕ → ℕ → S → Read (Unit {0}) × S
  pub get_signal_history : SignalId → S → Read (Option (List ℕ))
