-- ===== src/Examples/Net.antt =====
-- The data of the network examples: a small codec, a signature scheme, a runtime, and a peer's half of a
-- handshake.
use ntl.Base.{
  ℕ, zero, suc, ◌≡◌, refl, true, Option, none, some, List, [], ◌∷◌, ◌++◌, arith, length,
  length-take, length-append, take, drop, bytes_beq, bytes_eq, eqb_refl, ◌==◌, String, text_eq,
  if◌then◌else◌,
}
use ntl.Float.Fixed.{Fixed, val, fixed_float}
use ntl.Delivery.{DeliveryClass, acknowledged}
use ntl.Signal.{
  NodeId, SignalId, SignalType, Signal, query, discovery, Encoding, cbor, PropagationScope,
  weighted,
}
use ntl.Crypto.{Ed25519, classical_module, CryptoModule}
use ntl.Crypto.Travel.{IsSound}
use ntl.Frame.RoundTrip.{IsCodec}
use ntl.Frame.Words.{take-append, drop-append}
use ntl.Store.Memory.{MemoryStore}
use ntl.Runtime.{Runtime, RuntimeState, Json}
use ntl.Examples.Data.{num, node, state}

-- A codec for plain queries.
abbrev pub to_parts :
    SignalType
    → Encoding
    → Fixed
    → PropagationScope Fixed
    → Option SignalId
    → List NodeId
    → List String
    → DeliveryClass
    → Option (ℕ × ℕ)
to_parts query cbor (val p n) (weighted (val zero zero)) none [] [] acknowledged = some (p, n)
to_parts _ _ _ _ _ _ _ _ = none

abbrev pub net_to_vec : Signal Fixed (List ℕ) → Option (List ℕ)
net_to_vec s =
    elim (to_parts s.signal_type s.encoding s.weight s.scope s.correlation_id s.trace s.tags
      s.delivery) [
        | none ↦ none
        | some parts ↦ some (
            s.id
            ∷ s.version
            ∷ s.timestamp
            ∷ s.ttl
            ∷ parts.0
            ∷ parts.1
            ∷ length s.origin
            ∷ length s.payload
            ∷ (s.origin ++ (s.payload ++ s.signature)))
      ]

abbrev pub net_from_slice : List ℕ → Option (Signal Fixed (List ℕ))
net_from_slice (id ∷ version ∷ timestamp ∷ ttl ∷ p ∷ n ∷ o ∷ l ∷ rest) = some (record {
  id = id;
  signal_type = query;
  version = version;
  origin = take o rest;
  signature = drop l (drop o rest);
  timestamp = timestamp;
  payload = take l (drop o rest);
  encoding = cbor;
  weight = val p n;
  ttl = ttl;
  scope = weighted (val zero zero);
  correlation_id = none;
  trace = [];
  tags = [];
  delivery = acknowledged;
})
net_from_slice _ = none

net_inverse :
    (s : Signal Fixed (List ℕ)) (body : List ℕ)
    → net_to_vec s ≡ some body
    → net_from_slice body ≡ some s
net_inverse s body h = ground (
  arith,
  take-append s.origin (s.payload ++ s.signature),
  drop-append s.origin (s.payload ++ s.signature),
  take-append s.payload s.signature,
  drop-append s.payload s.signature,
)

pub net_codec : IsCodec net_to_vec net_from_slice
net_codec = record { inverse = net_inverse; nonempty = λ s body h. ground arith }

-- A stand-in for a signature scheme: a signature is the key and the message, cut or padded to its length.
abbrev zeros : ℕ → List ℕ
zeros zero = []
zeros (suc n) = 0 ∷ zeros n

length-zeros : (n : ℕ) → length (zeros n) ≡ n
length-zeros zero = refl
length-zeros (suc n) = omega (arith, length-zeros n)

abbrev pub padded : ℕ → List ℕ → List ℕ
padded n bytes = take n (bytes ++ zeros n)

length-padded : (n : ℕ) (bytes : List ℕ) → length (padded n bytes) ≡ n
length-padded n bytes =
    omega (arith, length-take n (bytes ++ zeros n), length-append bytes (zeros n), length-zeros n)

abbrev pub toy_scheme : Ed25519
toy_scheme = record {
  verifying_key = λ seed. padded 32 seed;
  sign_bytes = λ seed message. padded 64 (padded 32 seed ++ message);
  is_point = λ key. true;
  verify_bytes = λ key message signature. bytes_beq signature (padded 64 (key ++ message));
}

pub toy-IsSound : IsSound toy_scheme
toy-IsSound = record {
  key_length = λ seed. length-padded 32 seed;
  key_point = λ seed. refl;
  signature_length = λ seed message. length-padded 64 (padded 32 seed ++ message);
  verifies = λ seed message. eqb_refl (padded 64 (padded 32 seed ++ message));
}

abbrev pub toy_hash : List ℕ → List ℕ
toy_hash bytes = bytes

abbrev pub toy_crypto : CryptoModule
toy_crypto = classical_module toy_scheme toy_hash

abbrev pub my_seed : List ℕ
my_seed = padded 32 (1 ∷ [])

abbrev pub peer_seed : List ℕ
peer_seed = padded 32 (5 ∷ [])

abbrev pub challenge : List ℕ
challenge = padded 32 (77 ∷ [])

-- Payloads are bytes: a hello is a key and a challenge, a proof is a challenge.
abbrev pub toy_json : Json (List ℕ)
toy_json = record {
  null = [];
  hello = λ key c. key ++ c;
  proof = λ c. c;
  receipt_body = λ r. r.correlation_id ∷ [];
  bytes_field = λ field p.
      if field == "public_key"
      then some (take 32 p)
      else if field == "challenge"
      then some (drop 32 p)
      else some p;
  as_receipt = λ p. none;
}

abbrev pub runtime : Runtime (MemoryStore Fixed) ℕ Fixed (List ℕ)
runtime = record {
  node = node;
  identity = record { public = my_seed; private = my_seed; node_id = my_seed };
  crypto = toy_crypto;
  blake3 = toy_hash;
  to_vec = net_to_vec;
  from_slice = net_from_slice;
  from_parts = λ ms randomness. randomness;
  json = toy_json;
}

abbrev pub query_signal : Signal Fixed (List ℕ)
query_signal = record {
  id = 7;
  signal_type = query;
  version = 1;
  origin = peer_seed;
  signature = [];
  timestamp = 0;
  payload = 4 ∷ 2 ∷ [];
  encoding = cbor;
  weight = num 600;
  ttl = 4;
  scope = weighted (num 0);
  correlation_id = none;
  trace = [];
  tags = [];
  delivery = acknowledged;
}

abbrev pub runtime_state : RuntimeState (MemoryStore Fixed) ℕ Fixed (List ℕ)
runtime_state = record { node = state; sessions = []; pending = []; events = [] }

-- A codec that knows the two frames of a peer's handshake; what is signed is the identifier and the payload.
abbrev pub frame_signal : ℕ → List ℕ → List ℕ → Signal Fixed (List ℕ)
frame_signal id payload signature = record query_signal {
  id = id;
  signal_type = discovery;
  payload = payload;
  signature = signature;
}

abbrev pub scheme_signature : ℕ → List ℕ → List ℕ
scheme_signature id payload = padded 64 (peer_seed ++ (id ∷ payload))

abbrev pub peer_hello : Signal Fixed (List ℕ)
peer_hello = frame_signal 21 (peer_seed ++ challenge) (scheme_signature 21 (peer_seed ++ challenge))

abbrev pub peer_proof : Signal Fixed (List ℕ)
peer_proof = frame_signal 22 challenge (scheme_signature 22 challenge)

abbrev pub frame_of : List ℕ → Option (Signal Fixed (List ℕ))
frame_of bytes =
    if bytes == 1 ∷ [] then some peer_hello else if bytes == 2 ∷ [] then some peer_proof else none

abbrev pub greeter : Runtime (MemoryStore Fixed) ℕ Fixed (List ℕ)
greeter = record runtime { to_vec = λ s. some (s.id ∷ s.payload); from_slice = frame_of }
