-- ===== src/Signal/Builder.antt =====
-- The constructors of `Signal` and the setters of `SignalBuilder` in runtime/ntl-core/src/signal.rs that store what
-- they are given, and the estimate of a size.
use ntl.Base.{ℕ, ◌+◌, ◌*◌, some, List, [], ◌∷◌, map, String, length}
use ntl.Float.{Float}
use ntl.Delivery.{DeliveryClass}
use ntl.Signal.{
  data_signal, query, event, command, discovery, heartbeat, SignalId, PropagationScope, Signal,
  SignalBuilder, builder,
}

-- `iter().sum()` over lengths.
abbrev pub total : List ℕ → ℕ
total [] = 0
total (n ∷ ns) = n + total ns

module _ {F P : Type 0} where
  unfoldable pub with_payload : P → SignalBuilder F P → SignalBuilder F P
  with_payload payload b = record b { payload = payload }

  unfoldable pub with_ttl : ℕ → SignalBuilder F P → SignalBuilder F P
  with_ttl ttl b = record b { ttl = ttl }

  unfoldable pub with_scope : PropagationScope F → SignalBuilder F P → SignalBuilder F P
  with_scope scope b = record b { scope = scope }

  unfoldable pub with_correlation : SignalId → SignalBuilder F P → SignalBuilder F P
  with_correlation id b = record b { correlation_id = some id }

  unfoldable pub with_tags : List String → SignalBuilder F P → SignalBuilder F P
  with_tags tags b = record b { tags = tags }

  unfoldable pub with_delivery : DeliveryClass → SignalBuilder F P → SignalBuilder F P
  with_delivery delivery b = record b { delivery = delivery }

  -- The sizes in bytes of a payload's JSON and of a text are parameters.
  unfoldable pub estimated_size : (P → ℕ) → (String → ℕ) → Signal F P → ℕ
  estimated_size json_len text_len s =
      8
      + 16
      + length s.origin
      + length s.signature
      + 8
      + 4
      + 2
      + json_len s.payload
      + length s.trace * 32
      + total (map text_len s.tags)

module _ {F P : Type 0} ⦃fl : Float F⦄ (null : P) where
  -- `Signal::data` and the others by type, with JSON's null for the payload.
  unfoldable pub data_builder : String → SignalBuilder F P
  unfolding builder
  data_builder topic = builder data_signal topic null

  unfoldable pub query_builder : String → SignalBuilder F P
  unfolding builder
  query_builder topic = builder query topic null

  unfoldable pub event_builder : String → SignalBuilder F P
  unfolding builder
  event_builder topic = builder event topic null

  unfoldable pub command_builder : String → SignalBuilder F P
  unfolding builder
  command_builder topic = builder command topic null

  unfoldable pub discovery_builder : SignalBuilder F P
  unfolding builder
  discovery_builder = builder discovery "discovery" null

  unfoldable pub heartbeat_builder : SignalBuilder F P
  unfolding builder
  heartbeat_builder = builder heartbeat "heartbeat" null
