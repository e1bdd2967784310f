-- ===== src/Runtime/Greeting.antt =====
-- The handshake of runtime/ntl-net/src/runtime.rs: hello and proof in both directions. The challenge, whether
-- each read is in time, and the bytes of the peer are the environment's.
use ntl.Base.{
  ℕ, Bool, true, false, not, none, some, List, String, bytes_eq, ◌==◌, if◌then◌else◌, nat_beq,
  length, Result, ok, err,
}
use ntl.Float.{Float}
use ntl.Signal.{NodeId, SignalType, discovery, Signal, SignalBuilder, builder}
use ntl.Crypto.{PublicKey, CryptoError, node_id_from_public_key, sign_signal, verify_signal}
use ntl.Frame.{Reader, Writer, FrameError, read_signal, write_signal}
use ntl.Node.{NodeState, NodeError}
use ntl.Node.Monad.{Act, pure, ◌>>=◌, ◌>>◌, or_return}
use ntl.Node.Emit.{emit}
use ntl.Node.Feedback.{upsert_synapse}
use ntl.Runtime.{
  Runtime, RuntimeError, node_failed, crypto_failed, handshake_failed, frame_failed, Handshake,
  timed_out, missing_field, wrong_type, other_identity, bad_signature, unbound_key, own_identity,
  bad_challenge, no_echo,
}
use ntl.Runtime.ReadLoop.{PeerIdentity}

-- The state of an exchange: the node, what this side has written, and what the peer's bytes are.
pub record Exchange (S R F W : Type 0) : Type 0 where
  pub node : NodeState S R F
  pub wire : W
  pub reader : Reader

abbrev pub challenge_len : ℕ
challenge_len = 32

abbrev pub or_crypto : {A : Type 0} → Result CryptoError A → Result RuntimeError A
or_crypto (ok a) = ok a
or_crypto (err e) = err (crypto_failed e)

abbrev pub require : Bool → Handshake → Result RuntimeError (Unit {0})
require true reason = ok tt
require false reason = err (handshake_failed reason)

abbrev pub is_discovery : SignalType → Bool
is_discovery discovery = true
is_discovery t = false

module _ {S R F P : Type 0} ⦃fl : Float F⦄ (rt : Runtime S R F P) where
  unfoldable pub payload_bytes : String → Signal F P → Result RuntimeError (List ℕ)
  payload_bytes field signal = elim (rt.json.bytes_field field signal.payload) [
    | none ↦ err (handshake_failed missing_field)
    | some bytes ↦ ok bytes
  ]

  unfoldable pub verify_handshake_frame :
      Signal F P → PublicKey → NodeId → Result RuntimeError (Unit {0})
  unfolding verify_signal
  verify_handshake_frame signal key expected =
      or_return (require (is_discovery signal.signal_type) wrong_type) (λ u.
        or_return (require (signal.origin == expected) other_identity) (λ v.
          or_return (or_crypto (verify_signal rt.to_vec rt.crypto signal key))
            (λ verified. require verified bad_signature)))

  -- What the hello of a peer shows: its key, and the challenge that it sets.
  unfoldable pub check_hello : Signal F P → Result RuntimeError (PublicKey × List ℕ)
  unfolding payload_bytes verify_handshake_frame node_id_from_public_key
  check_hello hello = or_return (payload_bytes "public_key" hello) (λ key.
      let derived = node_id_from_public_key rt.blake3 key in
      or_return (require (derived == hello.origin) unbound_key) (λ u.
        or_return (verify_handshake_frame hello key derived) (λ v.
          or_return (require (not (derived == rt.identity.node_id)) own_identity) (λ w.
            or_return (payload_bytes "challenge" hello) (λ theirs.
              or_return (require (nat_beq (length theirs) challenge_len) bad_challenge)
                (λ z. ok (key, theirs)))))))

  unfoldable pub check_proof : Signal F P → PublicKey → List ℕ → Result RuntimeError (Unit {0})
  unfolding payload_bytes verify_handshake_frame node_id_from_public_key
  check_proof proof key challenge =
      or_return (verify_handshake_frame proof key (node_id_from_public_key rt.blake3 key)) (λ u.
        or_return (payload_bytes "proof_for" proof)
          (λ echoed. require (echoed == challenge) no_echo))

module _ {S R F P W : Type 0} ⦃fl : Float F⦄ (rt : Runtime S R F P) (wr : Writer W) where
  abbrev pub Step : Type 0 → Type 0
  Step A = Act (Exchange S R F W) RuntimeError A

  abbrev pub on_store : {A : Type 0} → Act (NodeState S R F) NodeError A → Step A
  on_store act x =
      let (reply, node) = act x.node in
      (elim reply [ ok a ↦ ok a | err e ↦ err (node_failed e) ], record x { node = node })

  -- The `?` operator on a check that does not touch the state.
  abbrev pub lift : {A : Type 0} → Result RuntimeError A → Step A
  lift r x = (r, x)

  abbrev pub written : Result FrameError W → Step (Unit {0})
  written (ok w) x = (ok tt, record x { wire = w })
  written (err e) x = (err (frame_failed e), x)

  unfoldable pub write_frame : Signal F P → Step (Unit {0})
  unfolding write_signal
  write_frame signal x = written (write_signal rt.to_vec wr signal x.wire) x

  abbrev pub discovery_with : P → SignalBuilder F P
  discovery_with payload = record (builder discovery "discovery" rt.json.null) { payload = payload }

  unfoldable pub write_handshake_frame : P → ℕ → Step (Unit {0})
  unfolding emit sign_signal write_frame
  write_handshake_frame payload now_ns = do
    signal ← on_store (emit rt.node rt.from_parts (discovery_with payload) now_ns)
    signed ← lift (or_crypto (sign_signal rt.to_vec rt.crypto signal rt.identity.private))
    write_frame signed

  abbrev pub framed : Result FrameError (Signal F P) → Result RuntimeError (Signal F P)
  framed (ok s) = ok s
  framed (err e) = err (frame_failed e)

  unfoldable pub read_handshake_frame : Bool → Step (Signal F P)
  unfolding read_signal
  read_handshake_frame in_time x =
      let (reply, r) = read_signal rt.from_slice x.reader in
      if in_time
      then (framed reply, record x { reader = r })
      else (err (handshake_failed timed_out), x)

  unfoldable pub handshake : List ℕ → Bool → Bool → ℕ → Step PeerIdentity
  unfolding write_handshake_frame read_handshake_frame check_hello check_proof upsert_synapse
  handshake challenge hello_in_time proof_in_time now_ns = do
    write_handshake_frame (rt.json.hello rt.identity.public challenge) now_ns
    hello ← read_handshake_frame hello_in_time
    greeted ← lift (check_hello rt hello)
    write_handshake_frame (rt.json.proof greeted.1) now_ns
    proof ← read_handshake_frame proof_in_time
    lift (check_proof rt proof greeted.0 challenge)
    record_ ← on_store (upsert_synapse rt.node (node_id_from_public_key rt.blake3 greeted.0) now_ns)
    pure (record { node_id = node_id_from_public_key rt.blake3 greeted.0; public_key = greeted.0 })
