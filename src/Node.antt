-- ===== src/Node.antt =====
-- runtime/ntl-core/src/node.rs: the node, where storage, activation, propagation and learning meet. The
-- store, the generator and the gate are the state; the time is read once by each operation. The text of
-- an identifier is made by the ulid crate, and the name of a signal type by `Debug`: both are parameters.
pub mod Monad
pub mod Receive
pub mod Feedback
pub mod Arrival
pub mod Links
pub mod Journal
pub mod Replay
pub mod Emit
pub mod Build
pub mod Restart
pub mod Health
pub mod Reference
use ntl.Base.{
  ℕ, zero, suc, ◌+◌, ◌-◌, ◌%◌, ◌^◌, Bool, true, false, not, ◌&&◌, ◌||◌, Option, none, some, List,
  [], ◌∷◌, map, String, number_eq, ◌==◌, if◌then◌else◌, ltb, saturating_add, saturating_mul, filter,
  any, length, is_empty, Result, ok, err,
}
use ntl.Float.{Float, clamp}
use ntl.Rng.{Rng}
use ntl.Delivery.{
  Receipt, ReceiptStatus, delivered, rejected, receipt_rejected, RejectReason, queue_full, no_route,
  requires_receipt, RetryPolicy,
}
use ntl.Signal.{NodeId, SignalId, SignalType, Signal, signal_requires_receipt}
use ntl.Activation.{
  ActivationConfig, ActivationState, QueuedSignal, AdmitOutcome, admit, drain_if_starving, snapshot,
}
use ntl.Store.{
  SynapseState, forming, active, weakening, dormant, pruned, Outcome, timed_out, transport_failure,
  pending, SynapseRecord, any_synapse, eligible, PeerRecord, observed, JournalId, JournalEntry,
  StoreError, Read, NodeStore,
}
use ntl.Learning.{
  LearningConfig, WeightUpdate, influence_window_start, receipt_deadline, normalize_outbound,
  decayed_weight,
}
use ntl.Synapse.{
  Synapse, SynapseConfig, SignatureFailureOutcome, from_record, to_record, new_with, activate,
  reactivate, apply_outcome, apply_signature_failure,
}
use ntl.Propagation.{
  PropagationConfig, Chosen, select_synapses, check_propagable, flood_depth_reached,
}
use Monad.{Act, pure, fail, and_then}

-- The parts of the configuration that the node reads.
pub record NodeConfig (F : Type 0) : Type 0 where
  pub propagation : PropagationConfig F
  pub learning : LearningConfig F
  pub synapse : SynapseConfig F
  pub activation : ActivationConfig F
  pub retry : RetryPolicy
  pub crypto_module : String

pub record NodeState (S R F : Type 0) : Type 0 where
  pub store : S
  pub rng : R
  pub activation : ActivationState F

-- What a node is made of, apart from its state: its identity and configuration, the methods of the
-- store and of the generator, and the two parameters.
pub record Node (S R F : Type 0) : Type 0 where
  pub identity : NodeId
  pub config : NodeConfig F
  pub store : NodeStore S F
  pub rng : Rng R F
  pub debug : SignalType → String
  pub ulid_text : ℕ → ℕ → String

-- `serialization` wraps an error of the store; `panicked` stands for an index out of bounds.
pub data NodeError : Type 0 where
  serialization : StoreError → NodeError
  cooldown panicked : NodeError

pub record Evicted (F : Type 0) : Type 0 where
  pub signal : QueuedSignal F
  pub reason : RejectReason

pub record Forward : Type 0 where
  pub synapse : String
  pub peer : NodeId
  pub journal_id : JournalId
  pub explored : Bool

pub record Disposition (F : Type 0) : Type 0 where
  pub forward_to : List Forward
  pub handle_locally : List (QueuedSignal F)
  pub receipt : Option Receipt
  pub rejected : Option RejectReason
  pub evicted : Option (Evicted F)
  pub queued : Bool

unfoldable pub receipt_outcome : Receipt → Outcome
receipt_outcome r = elim r.status [
  | delivered ↦ Outcome.delivered
  | rejected reason ↦ Outcome.rejected
]

module _ {F : Type 0} where
  unfoldable pub without : List (QueuedSignal F) → SignalId → List (QueuedSignal F)
  without fired refused = filter (λ q. not (q.id == refused)) fired

  unfoldable pub evicted_needs_receipt : Evicted F → Bool
  evicted_needs_receipt e = requires_receipt e.signal.delivery

  unfoldable pub nothing : Disposition F
  nothing = record {
    forward_to = [];
    handle_locally = [];
    receipt = none;
    rejected = none;
    evicted = none;
    queued = false;
  }

  unfoldable pub refuse : {P : Type 0} → Signal F P → RejectReason → ℕ → Disposition F
  unfolding receipt_rejected
  refuse signal reason hops = record {
    forward_to = [];
    handle_locally = [];
    receipt =
        if signal_requires_receipt signal
        then some (receipt_rejected signal.id reason hops)
        else none;
    rejected = some reason;
    evicted = none;
    queued = false;
  }

-- `trace.len() as u16`
abbrev pub hop_count : {F P : Type 0} → Signal F P → ℕ
hop_count signal = length signal.trace % 2 ^ 16

unfoldable pub type_name : (SignalType → String) → SignalType → String
type_name debug (SignalType.custom name) = name
type_name debug t = debug t

abbrev pub lift_error : {A : Type 0} → Read A → Result NodeError A
lift_error (ok a) = ok a
lift_error (err e) = err (serialization e)

module _ {S R F : Type 0} where
  abbrev pub reading : {A : Type 0} → (S → Read A) → Act (NodeState S R F) NodeError A
  reading f s = (lift_error (f s.store), s)

  abbrev pub writing : {A : Type 0} → (S → Read A × S) → Act (NodeState S R F) NodeError A
  writing f s = let (a, store) = f s.store in (lift_error a, record s { store = store })

  abbrev pub drawn :
      {A : Type 0} → NodeState S R F → Option (A × R) → Result NodeError A × NodeState S R F
  drawn s none = (err panicked, s)
  drawn s (some (a, r)) = (ok a, record s { rng = r })

  abbrev pub drawing : {A : Type 0} → (R → A × R) → Act (NodeState S R F) NodeError A
  drawing f s = let (a, r) = f s.rng in (ok a, record s { rng = r })
