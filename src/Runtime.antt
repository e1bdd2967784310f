-- ===== src/Runtime.antt =====
-- runtime/ntl-net/src/runtime.rs: the table of sessions, the bodies of waiting signals, and the events for the
-- host. A channel to a peer is the list of signals that its writer has not taken yet; the event channel is a
-- list. serde_json, the ulid crate and the cryptographic primitives are parameters.
pub mod Transmit
pub mod ReadLoop
pub mod Maintenance
pub mod Greeting
pub mod Sessions
pub mod Authentic
pub mod Keys
pub mod Binding
pub mod Reachable
pub mod Origin
pub mod Carried
pub mod Ending
pub mod Seeded
pub mod Reload
use ntl.Base.{
  ℕ, ◌+◌, ◌≡◌, Bool, true, false, ◌||◌, Option, none, some, List, [], ◌∷◌, ◌++◌, String, bytes_eq,
  if◌then◌else◌, leb, length, Result, ok, err,
}
use ntl.Base.Map.{get, insert}
use ntl.Float.{Float}
use ntl.Delivery.{Receipt, RejectReason}
use ntl.Signal.{NodeId, SignalId, Signal, hop, attenuate_for_hop}
use ntl.Crypto.{CryptoModule, CryptoError, PublicKey, PrivateKey}
use ntl.Frame.{FrameError}
use ntl.Node.{Node, NodeState, NodeError}
use ntl.Node.Monad.{Act}

pub data Event (F P : Type 0) : Type 0 where
  handled : Signal F P → Event F P
  forwarded : SignalId → ℕ → Bool → Event F P
  released : SignalId → Option (Signal F P) → Event F P
  event_refused : SignalId → RejectReason → Event F P
  receipt_applied : NodeId → Bool → F → Event F P
  peer_connected : NodeId → Event F P
  peer_disconnected : NodeId → Event F P
  signature_failed : NodeId → Bool → Event F P
  headers_clamped : NodeId → SignalId → Bool → Bool → Event F P
  origin_key_unknown : NodeId → NodeId → Event F P
  malformed_signal : NodeId → Event F P

pub data Handshake : Type 0 where
  timed_out missing_field wrong_type other_identity bad_signature unbound_key own_identity
        bad_challenge no_echo duplicate_session peer_pruned :
      Handshake

pub data RuntimeError : Type 0 where
  node_failed : NodeError → RuntimeError
  crypto_failed : CryptoError → RuntimeError
  handshake_failed : Handshake → RuntimeError
  frame_failed : FrameError → RuntimeError

-- A connected peer. The channel is closed once its writer has stopped.
pub record Session (F P : Type 0) : Type 0 where
  pub outbound : List (Signal F P)
  pub is_closed : Bool
  pub public_key : PublicKey

pub record RuntimeState (S R F P : Type 0) : Type 0 where
  pub node : NodeState S R F
  pub sessions : List (NodeId × Session F P)
  pub pending : List (SignalId × Signal F P)
  pub events : List (Event F P)

pub record Identity : Type 0 where
  pub public : PublicKey
  pub private : PrivateKey
  pub node_id : NodeId

-- serde_json: the payloads that the runtime makes, and what it reads out of one.
pub record Json (P : Type 0) : Type 0 where
  pub null : P
  pub hello : PublicKey → List ℕ → P
  pub proof : List ℕ → P
  pub receipt_body : Receipt → P
  pub bytes_field : String → P → Option (List ℕ)
  pub as_receipt : P → Option Receipt

-- What a runtime is made of, apart from its state.
pub record Runtime (S R F P : Type 0) : Type 0 where
  pub node : Node S R F
  pub identity : Identity
  pub crypto : CryptoModule
  pub blake3 : List ℕ → List ℕ
  pub to_vec : Signal F P → Option (List ℕ)
  pub from_slice : List ℕ → Option (Signal F P)
  pub from_parts : ℕ → ℕ → SignalId
  pub json : Json P

abbrev pub peer_queue_depth : ℕ
peer_queue_depth = 256

module _ {F P : Type 0} where
  -- `try_send`
  unfoldable pub try_send : Signal F P → Session F P → Option (Session F P)
  try_send signal session =
      if session.is_closed || leb peer_queue_depth (length session.outbound)
      then none
      else some (record session { outbound = session.outbound ++ signal ∷ [] })

  abbrev pub put_session :
      NodeId
      → List (NodeId × Session F P)
      → Option (Session F P)
      → Option (List (NodeId × Session F P))
  put_session peer sessions none = none
  put_session peer sessions (some session) = some (insert peer session sessions)

  -- A signal for the session of a peer, if there is one and its channel takes it.
  unfoldable pub offer :
      NodeId → Signal F P → List (NodeId × Session F P) → Option (List (NodeId × Session F P))
  unfolding try_send get insert
  offer peer signal sessions = elim (get peer sessions) [
    | none ↦ none
    | some session ↦ put_session peer sessions (try_send signal session)
  ]

module _ {S R F P : Type 0} where
  abbrev pub on_node :
      {A : Type 0} → Act (NodeState S R F) NodeError A → Act (RuntimeState S R F P) NodeError A
  on_node act s = let (reply, node) = act s.node in (reply, record s { node = node })

  abbrev pub event : Event F P → RuntimeState S R F P → RuntimeState S R F P
  event e s = record s { events = s.events ++ e ∷ [] }

  module _ ⦃fl : Float F⦄ (rt : Runtime S R F P) where
    -- The copy of a signal that leaves for a peer.
    unfoldable pub outgoing : Signal F P → Signal F P
    unfolding hop attenuate_for_hop
    outgoing signal =
        attenuate_for_hop rt.node.config.propagation.attenuation_factor
          rt.node.config.propagation.min_propagation_weight (hop rt.identity.node_id signal)
