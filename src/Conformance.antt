-- ===== src/Conformance.antt =====
-- runtime/ntl-core/src/store/conformance.rs: the suite that every storage backend is held to. A check is a run over
-- the store that ends with the message of the first requirement that is violated, where the source panics. The
-- identifiers of the ulid crate are a parameter.
pub mod Records
pub mod Journal
pub mod Suite
pub mod Refusals
pub mod Defects
pub mod Broken
use package.text.Mathlib.Text.{starts_with}
use mathlib.Core.Option.{map as map_option}
use ntl.Base.{
  ℕ, zero, suc, ◌+◌, ◌*◌, Bool, true, false, not, ◌&&◌, ◌||◌, Option, none, some, List, [], ◌∷◌,
  String, text_eq, bytes_eq, number_eq, ◌==◌, nat_beq, bytes_beq, leb, ltb, length, all, any,
  if◌then◌else◌, Result, ok, err,
}
use ntl.Base.Map.{get}
use ntl.Float.{Float}
use ntl.Signal.{NodeId, SignalId, SignalType, data_signal}
use ntl.Activation.{ActivationSnapshot}
use ntl.Store.{
  SynapseState, active, state_beq, PeerSource, Outcome, pending, Read, SynapseRecord, SynapseFilter,
  PeerRecord, JournalEntry,
}
use ntl.Store.Memory.Queries.{source_beq}
use ntl.Node.Monad.{Act, pure, fail}

abbrev pub sec : ℕ
sec = 1000000000

-- A node identity of 32 equal bytes.
abbrev pub repeated : ℕ → ℕ → List ℕ
repeated zero b = []
repeated (suc n) b = b ∷ repeated n b

abbrev pub node : ℕ → NodeId
node n = repeated 32 n

abbrev pub signal_id : (ℕ → ℕ → SignalId) → ℕ → SignalId
signal_id from_parts n = from_parts (1700000000000 + n) (n * 18446744073709551616)

-- Equality of two maps, as of two hash maps.
abbrev pub same_count : Option ℕ → ℕ → Bool
same_count none n = false
same_count (some m) n = nat_beq m n

abbrev pub same_map : List (String × ℕ) → List (String × ℕ) → Bool
same_map xs ys =
    nat_beq (length xs) (length ys) && all (λ (p : String × ℕ). same_count (get p.0 ys) p.1) xs

module _ {F : Type 0} ⦃fl : Float F⦄ where
  abbrev pub synapse_record : String → ℕ → F → SynapseRecord F
  synapse_record id peer weight = record {
    id = id;
    peer = node peer;
    weight = weight;
    attenuation_factor = fl.lit 9 10;
    state = active;
    type_affinity = [];
    established_at_ns = 1000;
    last_active_ns = 2000;
    signals_transmitted = 7;
    signals_received = 3;
    avg_latency_ns = 1500000;
    error_rate = fl.lit 0 1;
    signature_failures = 0;
    failure_window_start_ns = 0;
  }

  abbrev pub decision : SignalId → ℕ → ℕ → JournalEntry F
  decision signal peer at_ns = record {
    id = none;
    signal = signal;
    signal_type = data_signal;
    synapse = "syn-a";
    peer = node peer;
    score = fl.lit 3 4;
    signal_weight = fl.lit 4 5;
    explored = false;
    decided_at_ns = at_ns;
    outcome = pending;
    resolved_at_ns = none;
  }

  -- `==` on `f32`, which NaN is not with itself.
  abbrev pub same_float : F → F → Bool
  same_float x y = fl.le x y && fl.le y x

  abbrev pub near : F → F → F → Bool
  near x y epsilon = fl.lt (fl.abs (fl.sub x y)) epsilon

  abbrev pub same_synapse : SynapseRecord F → SynapseRecord F → Bool
  same_synapse a b =
      a.id == b.id
      && a.peer == b.peer
      && same_float a.weight b.weight
      && same_float a.attenuation_factor b.attenuation_factor
      && state_beq a.state b.state
      && same_map a.type_affinity b.type_affinity
      && a.established_at_ns == b.established_at_ns
      && a.last_active_ns == b.last_active_ns
      && a.signals_transmitted == b.signals_transmitted
      && a.signals_received == b.signals_received
      && a.avg_latency_ns == b.avg_latency_ns
      && same_float a.error_rate b.error_rate
      && a.signature_failures == b.signature_failures
      && a.failure_window_start_ns == b.failure_window_start_ns

  abbrev pub same_snapshot : ActivationSnapshot F → ActivationSnapshot F → Bool
  same_snapshot a b =
      same_float a.potential b.potential
      && same_float a.threshold b.threshold
      && a.refractory_until_ns == b.refractory_until_ns
      && a.signals_fired == b.signals_fired
      && a.taken_at_ns == b.taken_at_ns

abbrev pub same_texts : List String → List String → Bool
same_texts [] [] = true
same_texts [] (y ∷ ys) = false
same_texts (x ∷ xs) [] = false
same_texts (x ∷ xs) (y ∷ ys) = x == y && same_texts xs ys

abbrev pub same_option : {A : Type 0} → (A → A → Bool) → Option A → Option A → Bool
same_option f none none = true
same_option f (some a) (some b) = f a b
same_option f none (some b) = false
same_option f (some a) none = false

abbrev pub same_peer : PeerRecord → PeerRecord → Bool
same_peer a b =
    a.id == b.id
    && same_texts a.addresses b.addresses
    && same_option (λ x y. x == y) a.region b.region
    && same_texts a.advertised_types b.advertised_types
    && a.last_seen_ns == b.last_seen_ns
    && source_beq a.source b.source

module _ {S : Type 0} where
  abbrev pub expected : {A : Type 0} → String → Read A × S → Result String A × S
  expected message (ok a, s) = (ok a, s)
  expected message (err e, s) = (err message, s)

  -- `expect` on an operation that writes, and on one that reads.
  unfoldable pub expect : {A : Type 0} → String → (S → Read A × S) → Act S String A
  expect message f s = expected message (f s)

  unfoldable pub expect_read : {A : Type 0} → String → (S → Read A) → Act S String A
  expect_read message f s = expected message (f s, s)

  -- `expect` on an option.
  unfoldable pub present : {A : Type 0} → String → Option A → Act S String A
  present message none s = (err message, s)
  present message (some a) s = (ok a, s)

  unfoldable pub assert : Bool → String → Act S String (Unit {0})
  assert true message s = (ok tt, s)
  assert false message s = (err message, s)
