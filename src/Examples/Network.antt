-- ===== src/Examples/Network.antt =====
-- Examples on frames, signatures and the network runtime.
use ntl.Base.{
  ◌+◌, take, ◌≤◌, ℕ, ◌≡◌, refl, true, false, none, some, List, [], ◌∷◌, ◌++◌, length, ok, err,
}
use ntl.Float.Fixed.{Fixed, fixed_float}
use ntl.Frame.{
  Reader, read_signal, write_signal, to_be_bytes, from_be_bytes, write_body, read_exact, read_body,
  decoded,
}
use ntl.Frame.RoundTrip.{buffer, holding, read_signal-write_signal}
use ntl.Frame.Decode.{Judged, Taken, read_signal-Taken}
use ntl.Signal.{builder, encode, decode, Signal, bounded, unsigned, signing_bytes, build_unsigned}
use ntl.Crypto.{
  sign_signal, verify_signal, keypair_from_seed, array_of, classical_module, classical_sign,
  classical_verify, signing_key, verifying_key, node_id_from_public_key,
}
use ntl.Crypto.Travel.{travelled, sign_signal-verify_signal}
use ntl.Runtime.ReadLoop.{PeerIdentity, read_loop, on_signal}
use ntl.Runtime.Sessions.{pump, open_session}
use ntl.Runtime.Carried.{deliver, connection, pump-read_loop}
use ntl.Runtime.Ending.{Ends, read_loop-Ends}
use ntl.Runtime.Greeting.{
  Exchange, handshake, write_handshake_frame, read_handshake_frame, check_hello, check_proof,
  verify_handshake_frame, payload_bytes, write_frame,
}
use ntl.Node.Monad.{◌>>=◌, or_return}
use ntl.Node.Emit.{emit, build_unsigned_with, generate}
use ntl.Node.Feedback.{upsert_synapse, introduced}
use ntl.Base.Map.{get, insert}
use ntl.Runtime.Authentic.{Shown, handshake_authenticates}
use ntl.Runtime.Reachable.{IsBound, here, then, opened, Reach-IsBound}
use ntl.Runtime.Origin.{IsAuthentic, on_signal-IsAuthentic}
use ntl.Examples.Data.{num, state}
use ntl.Store.Memory.{MemoryStore, check_and_set_seen, synapse_for_peer, put_synapse, put_peer}
use ntl.Store.Memory.Interface.{memory_store}
use ntl.Examples.Net.{
  net_to_vec, net_from_slice, net_codec, toy_scheme, toy-IsSound, toy_hash, toy_crypto, my_seed,
  peer_seed, challenge, runtime, runtime_state, query_signal, greeter,
}

abbrev written : List ℕ
written = elim (net_to_vec query_signal) [
  | none ↦ []
  | some body ↦ to_be_bytes (length body) ++ body
]

abbrev more : Reader
more = record { bytes = 9 ∷ []; breaks = false }

read_signal-write_signal_example :
    (bytes : List ℕ) × (◌≡◌ {A = List ℕ} ([] ++ written) ([] ++ bytes))
    × (read_signal net_from_slice (holding bytes more) ≡ (ok query_signal, more))
unfolding write_signal encode bounded write_body
read_signal-write_signal_example =
    read_signal-write_signal net_to_vec net_from_slice net_codec query_signal [] written more refl

read_signal-Taken_example :
    let (reply, r') = read_signal net_from_slice (holding written more) in
    Taken net_from_slice (length (holding written more).bytes) (length r'.bytes) reply
    × (4 ≤ length (holding written more).bytes
        → Judged net_from_slice
            (holding written more)
            (from_be_bytes (take 4 (holding written more).bytes))
            (reply, r'))
read_signal-Taken_example = read_signal-Taken net_from_slice (holding written more)

abbrev signed_query : Signal Fixed (List ℕ)
signed_query = elim (sign_signal net_to_vec toy_crypto query_signal peer_seed) [
  | ok s ↦ s
  | err e ↦ query_signal
]

sign_signal-verify_signal_example :
    verify_signal net_to_vec toy_crypto
      (travelled ((my_seed, num 900, num 10) ∷ (peer_seed, num 800, num 20) ∷ []) signed_query)
      peer_seed
    ≡ ok true
unfolding keypair_from_seed array_of sign_signal unsigned classical_module
sign_signal-verify_signal_example =
    sign_signal-verify_signal net_to_vec toy_scheme toy_hash toy-IsSound peer_seed peer_seed
      peer_seed query_signal signed_query
      ((my_seed, num 900, num 10) ∷ (peer_seed, num 800, num 20) ∷ []) refl refl

abbrev peer : PeerIdentity
peer = record { node_id = peer_seed; public_key = peer_seed }

-- The times at which the iterations read the clock.
abbrev ticking : ℕ → ℕ
ticking i = 100 + i

pump-read_loop_example :
    (bytes : List ℕ) × (◌≡◌ {A = List ℕ}
      (pump net_to_vec buffer (query_signal ∷ query_signal ∷ []) [])
      ([] ++ bytes))
    × (read_loop runtime 3 peer
          (connection net_to_vec runtime net_codec bytes)
          ticking
          runtime_state
        ≡ (let (reply, s') =
              deliver runtime peer (query_signal ∷ query_signal ∷ []) ticking runtime_state in
            (some reply, s')))
unfolding encode bounded
pump-read_loop_example =
    pump-read_loop net_to_vec runtime net_codec (query_signal ∷ query_signal ∷ []) [] peer ticking
      runtime_state ((_, refl), ((_, refl), tt))

read_loop-Ends_example : Ends runtime peer (holding written more) ticking runtime_state
unfolding to_be_bytes
read_loop-Ends_example = read_loop-Ends runtime peer (holding written more) ticking runtime_state

Reach-IsBound_example : IsBound runtime (open_session peer runtime_state).1
unfolding get
Reach-IsBound_example =
    Reach-IsBound runtime buffer runtime_state (open_session peer runtime_state).1 (λ n. tt)
      (then here (opened peer refl))

on_signal-IsAuthentic_example :
    IsAuthentic runtime peer query_signal 100 runtime_state
      (on_signal runtime peer query_signal 100 runtime_state).1
unfolding get
on_signal-IsAuthentic_example =
    on_signal-IsAuthentic runtime peer query_signal 100 runtime_state refl (λ n. tt)

abbrev meeting : Exchange (MemoryStore Fixed) ℕ Fixed (List ℕ)
meeting = record {
  node = state;
  wire = [];
  reader = record { bytes = 0 ∷ 0 ∷ 0 ∷ 1 ∷ 1 ∷ 0 ∷ 0 ∷ 0 ∷ 1 ∷ 2 ∷ []; breaks = false };
}

abbrev met : Exchange (MemoryStore Fixed) ℕ Fixed (List ℕ)
met = (handshake greeter buffer challenge true true 100 meeting).1

handshake_authenticates_example : Shown greeter buffer challenge meeting.reader met.reader peer
unfolding handshake write_handshake_frame read_handshake_frame check_hello check_proof
    verify_handshake_frame payload_bytes write_frame ◌>>=◌ or_return emit build_unsigned_with
    generate builder build_unsigned sign_signal verify_signal signing_bytes unsigned
    classical_module classical_sign classical_verify signing_key verifying_key array_of
    node_id_from_public_key write_signal encode bounded write_body read_signal read_exact read_body
    decoded decode from_be_bytes to_be_bytes memory_store check_and_set_seen upsert_synapse
    introduced synapse_for_peer put_synapse put_peer get insert
handshake_authenticates_example =
    handshake_authenticates greeter buffer challenge true true 100 meeting met peer refl
