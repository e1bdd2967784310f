-- ===== src/Signal.antt =====
-- runtime/ntl-core/src/signal.rs: signals, their types, and what a hop does to one. A node's identity
-- is its bytes; the JSON payload is a parameter, as is the CBOR encoder of serde_cbor.
pub mod Hops
pub mod Builder
pub mod Built
pub mod Signing
use ntl.Base.{
  ℕ, zero, suc, ◌+◌, ◌-◌, ◌<◌, Bool, true, false, not, ◌&&◌, Option, none, some, List, [], ◌∷◌,
  ◌++◌, String, if◌then◌else◌, ltb, nat_beq, any, bytes_beq, is_empty, length, Result, ok, err,
  reject_if,
}
use ntl.Float.{Float, clamp, fmax, in_closed}
use ntl.Delivery.{DeliveryClass, best_effort, acknowledged, requires_receipt, Receipt}

abbrev pub NodeId : Type 0
NodeId = List ℕ

abbrev pub SignalId : Type 0
SignalId = ℕ

pub data SignalType : Type 0 where
  data_signal query event command heartbeat discovery receipt_signal : SignalType
  custom : String → SignalType

unfoldable pub to_type_byte : SignalType → ℕ
to_type_byte data_signal = 0
to_type_byte query = 1
to_type_byte event = 2
to_type_byte command = 3
to_type_byte heartbeat = 4
to_type_byte discovery = 5
to_type_byte receipt_signal = 6
to_type_byte (custom name) = 15

unfoldable pub can_be_acknowledged : SignalType → Bool
can_be_acknowledged receipt_signal = false
can_be_acknowledged _ = true

unfoldable pub from_type_byte : ℕ → Option SignalType
from_type_byte b =
    if nat_beq b 0
    then some data_signal
    else if nat_beq b 1
    then some query
    else if nat_beq b 2
    then some event
    else if nat_beq b 3
    then some command
    else if nat_beq b 4
    then some heartbeat
    else if nat_beq b 5
    then some discovery
    else if nat_beq b 6
    then some receipt_signal
    else none

-- propagation.rs: how a signal routes through the network.
pub data PropagationScope (F : Type 0) : Type 0 where
  flood : ℕ → PropagationScope F
  weighted : F → PropagationScope F
  targeted : NodeId → PropagationScope F
  gradient : String → PropagationScope F

pub data Encoding : Type 0 where
  cbor protobuf raw : Encoding

pub record Signal (F P : Type 0) : Type 0 where
  pub id : SignalId
  pub signal_type : SignalType
  pub version : ℕ
  pub origin : NodeId
  pub signature : List ℕ
  pub timestamp : ℕ
  pub payload : P
  pub encoding : Encoding
  pub weight : F
  pub ttl : ℕ
  pub scope : PropagationScope F
  pub correlation_id : Option SignalId
  pub trace : List NodeId
  pub tags : List String
  pub delivery : DeliveryClass

pub record SignalBuilder (F P : Type 0) : Type 0 where
  pub signal_type : SignalType
  pub topic : String
  pub payload : P
  pub weight : F
  pub ttl : ℕ
  pub scope : PropagationScope F
  pub correlation_id : Option SignalId
  pub tags : List String
  pub delivery : DeliveryClass

pub data SignalError : Type 0 where
  weight_out_of_range ttl_expired missing_signature too_large serialization : SignalError

abbrev pub max_trace : ℕ
max_trace = 64

abbrev pub max_size : ℕ
max_size = 1048576

module _ {F P : Type 0} where
  unfoldable pub is_expired : Signal F P → Bool
  is_expired s = nat_beq s.ttl 0

  unfoldable pub hop : NodeId → Signal F P → Signal F P
  hop node_id s = record s {
    ttl = s.ttl - 1;
    trace = if ltb (length s.trace) max_trace then s.trace ++ node_id ∷ [] else s.trace;
  }

  unfoldable pub has_visited : Signal F P → NodeId → Bool
  has_visited s node_id = any (λ n. bytes_beq n node_id) s.trace

  unfoldable pub signal_requires_receipt : Signal F P → Bool
  unfolding requires_receipt
  signal_requires_receipt s = requires_receipt s.delivery

  -- Asking for acknowledgement has no effect on a receipt.
  unfoldable pub acknowledge : SignalBuilder F P → SignalBuilder F P
  unfolding can_be_acknowledged
  acknowledge b =
      if can_be_acknowledged b.signal_type then record b { delivery = acknowledged } else b

module _ {F P : Type 0} ⦃fl : Float F⦄ where
  unfoldable pub validate : Signal F P → Result SignalError (Unit {0})
  unfolding in_closed
  validate s = reject_if (not (in_closed (fl.lit 0 1) (fl.lit 1 1) s.weight)) weight_out_of_range (
      reject_if (nat_beq s.ttl 0) ttl_expired
        (reject_if (is_empty s.signature) missing_signature (ok tt)))

  unfoldable pub attenuate : F → Signal F P → Signal F P
  unfolding clamp
  attenuate factor s = record s {
    weight = clamp (fl.mul s.weight factor) (fl.lit 0 1) (fl.lit 1 1);
  }

  unfoldable pub attenuate_for_hop : F → F → Signal F P → Signal F P
  attenuate_for_hop factor min_propagation_weight s =
      let attenuated = fl.mul s.weight factor in
      record s {
        weight =
            clamp
              (if signal_requires_receipt s && ltb 0 s.ttl
                then fmax attenuated min_propagation_weight
                else attenuated)
              (fl.lit 0 1) (fl.lit 1 1);
      }

  -- `SignalBuilder::new` and the setters that compute.
  unfoldable pub builder : SignalType → String → P → SignalBuilder F P
  builder signal_type topic null = record {
    signal_type = signal_type;
    topic = topic;
    payload = null;
    weight = fl.lit 1 2;
    ttl = 10;
    scope = weighted (fl.lit 0 1);
    correlation_id = none;
    tags = [];
    delivery = best_effort;
  }

  unfoldable pub with_weight : F → SignalBuilder F P → SignalBuilder F P
  unfolding clamp
  with_weight weight b = record b { weight = clamp weight (fl.lit 0 1) (fl.lit 1 1) }

  -- A receipt goes to the origin of the signal that it acknowledges; `body` is its JSON.
  unfoldable pub receipt : P → Receipt → NodeId → SignalBuilder F P
  unfolding builder
  receipt body r origin = record (builder receipt_signal "receipt" body) {
    correlation_id = some r.correlation_id;
    scope = targeted origin;
  }

  -- `build_unsigned_with`, given the time and the identifier drawn from it.
  unfoldable pub build_unsigned :
      SignalBuilder F P → (String → Bool) → NodeId → ℕ → SignalId → Signal F P
  build_unsigned b empty origin now_ns id = record {
    id = id;
    signal_type = b.signal_type;
    version = 1;
    origin = origin;
    signature = [];
    timestamp = now_ns;
    payload = b.payload;
    encoding = cbor;
    weight = b.weight;
    ttl = b.ttl;
    scope = b.scope;
    correlation_id = b.correlation_id;
    trace = [];
    tags = if empty b.topic then b.tags else b.topic ∷ b.tags;
    delivery = b.delivery;
  }

  -- The signal with every field cleared that propagation changes.
  unfoldable pub unsigned : Signal F P → Signal F P
  unsigned s = record s { signature = []; trace = []; ttl = 0; weight = fl.lit 0 1 }

  module _ (to_vec : Signal F P → Option (List ℕ)) where
    unfoldable pub signing_bytes : Signal F P → Option (List ℕ)
    signing_bytes s = to_vec (unsigned s)

    unfoldable pub bounded : List ℕ → Result SignalError (List ℕ)
    bounded bytes = if ltb max_size (length bytes) then err too_large else ok bytes

    unfoldable pub encode : Signal F P → Result SignalError (List ℕ)
    unfolding bounded
    encode s = elim (to_vec s) [ none ↦ err serialization | some bytes ↦ bounded bytes ]

  module _ (from_slice : List ℕ → Option (Signal F P)) where
    unfoldable pub decode : List ℕ → Result SignalError (Signal F P)
    decode bytes =
        if ltb max_size (length bytes)
        then err too_large
        else elim (from_slice bytes) [ none ↦ err serialization | some s ↦ ok s ]
