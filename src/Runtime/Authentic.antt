-- ===== src/Runtime/Authentic.antt =====
-- What a handshake of runtime/ntl-net/src/runtime.rs shows about the peer.
use ntl.Base.{
  ℕ, ◌≡◌, ◌≢◌, refl, sym, ap, ◌∙◌, subst, Bool, true, false, not, some, List, arith, bytes_eq,
  bytes_beq_iff, ◌==◌, nat_beq_iff, length, ok, Result-cases, inl, inr,
}
use ntl.Float.{Float}
use ntl.Signal.{SignalType, discovery, Signal}
use ntl.Crypto.{PublicKey, node_id_from_public_key, verify_signal}
use ntl.Frame.{Reader, Writer, read_signal, write_signal}
use ntl.Node.Monad.{>>=-ok, or_return-ok, ok_inj}
use ntl.Runtime.{
  Runtime, Handshake, wrong_type, other_identity, bad_signature, own_identity, no_echo,
  bad_challenge,
}
use ntl.Runtime.ReadLoop.{PeerIdentity}
use ntl.Runtime.Greeting.{
  Exchange, challenge_len, require, payload_bytes, is_discovery, verify_handshake_frame,
  check_hello, check_proof, read_handshake_frame, write_handshake_frame, write_frame, handshake,
}

is_discovery-eq : (t : SignalType) → is_discovery t ≡ true → t ≡ discovery
is_discovery-eq discovery h = refl
is_discovery-eq _ h = absurd (ground arith)

require-ok : (b : Bool) (reason : Handshake) (u : Unit {0}) → require b reason ≡ ok u → b ≡ true
require-ok true reason u h = refl
require-ok false reason u h = absurd (ground arith)

same_bytes : (xs ys : List ℕ) → (xs == ys) ≡ true → xs ≡ ys
same_bytes xs ys h = (bytes_beq_iff xs ys).0 h

module _ {S R F P : Type 0} ⦃fl : Float F⦄ (rt : Runtime S R F P) where
  -- A frame of the handshake that was signed with a key, by the identity that goes with it.
  pub record IsSigned (signal : Signal F P) (key : PublicKey) : Type 0 where
    pub kind : signal.signal_type ≡ discovery
    pub origin : signal.origin ≡ rt.blake3 key
    pub signature : verify_signal rt.to_vec rt.crypto signal key ≡ ok true

  verify_handshake_frame-ok :
      (signal : Signal F P) (key : PublicKey) (u : Unit {0})
      → verify_handshake_frame rt signal key (node_id_from_public_key rt.blake3 key) ≡ ok u
      → IsSigned signal key
  unfolding verify_handshake_frame node_id_from_public_key
  verify_handshake_frame-ok signal key u h =
      let (u₁, e₁, h₁) = or_return-ok _ _ u h in
      let (u₂, e₂, h₂) = or_return-ok _ _ u h₁ in
      let (v, e₃, h₃) = or_return-ok _ _ u h₂ in
      let verified = require-ok v bad_signature u h₃ in
      record {
        kind = is_discovery-eq signal.signal_type (require-ok _ wrong_type u₁ e₁);
        origin = same_bytes signal.origin (rt.blake3 key) (require-ok _ other_identity u₂ e₂);
        signature = ground arith;
      }

  abbrev pub Greeted : Signal F P → PublicKey × List ℕ → Type 0
  Greeted hello (key, theirs) =
      IsSigned hello key × (rt.blake3 key ≢ rt.identity.node_id) × (length theirs ≡ challenge_len)

  same_bytes-ne :
      (key : PublicKey)
      → not (rt.blake3 key == rt.identity.node_id) ≡ true
      → rt.blake3 key ≢ rt.identity.node_id
  same_bytes-ne key h = λ e. ground (arith, bytes_beq_iff (rt.blake3 key) rt.identity.node_id)

  check_hello-ok :
      (hello : Signal F P) (key : PublicKey) (theirs : List ℕ)
      → check_hello rt hello ≡ ok (key, theirs)
      → Greeted hello (key, theirs)
  unfolding check_hello node_id_from_public_key
  check_hello-ok hello key theirs h =
      let (k, e₁, h₁) = or_return-ok _ _ (key, theirs) h in
      let (u₂, e₂, h₂) = or_return-ok _ _ (key, theirs) h₁ in
      let (u₃, e₃, h₃) = or_return-ok _ _ (key, theirs) h₂ in
      let (u₄, e₄, h₄) = or_return-ok _ _ (key, theirs) h₃ in
      let (c, e₅, h₅) = or_return-ok _ _ (key, theirs) h₄ in
      let (u₆, e₆, h₆) = or_return-ok _ _ (key, theirs) h₅ in
      let not_self = same_bytes-ne k (require-ok _ own_identity u₄ e₄) in
      let long : length c ≡ challenge_len =
        (nat_beq_iff (length c) challenge_len).0 (require-ok _ bad_challenge u₆ e₆) in
      let facts : Greeted hello (k, c) =
        (verify_handshake_frame-ok hello k u₃ e₃, not_self, long) in
      subst (λ p. Greeted hello p) (ok_inj (k, c) (key, theirs) h₆) facts

  check_proof-ok :
      (proof : Signal F P) (key : PublicKey) (challenge : List ℕ) (u : Unit {0})
      → check_proof rt proof key challenge ≡ ok u
      → IsSigned proof key × (rt.json.bytes_field "proof_for" proof.payload ≡ some challenge)
  unfolding check_proof payload_bytes
  check_proof-ok proof key challenge u h =
      let (u₁, e₁, h₁) = or_return-ok _ _ u h in
      let (c, e₂, h₂) = or_return-ok _ _ u h₁ in
      let same = same_bytes c challenge (require-ok _ no_echo u h₂) in
      (verify_handshake_frame-ok proof key u₁ e₁, ground arith)

module _ {S R F P W : Type 0} ⦃fl : Float F⦄ (rt : Runtime S R F P) (wr : Writer W) where
  write_frame-reader :
      (signal : Signal F P) (x x' : Exchange S R F W) (u : Unit {0})
      → write_frame rt wr signal x ≡ (ok u, x')
      → x'.reader ≡ x.reader
  unfolding write_frame
  write_frame-reader signal x x' u h =
      elim (Result-cases (write_signal rt.to_vec wr signal x.wire)) [
        | inl (w, e) ↦ ground arith
        | inr (y, e) ↦ absurd (ground arith)
      ]

  write_handshake_frame-ok :
      (payload : P) (now_ns : ℕ) (x x' : Exchange S R F W) (u : Unit {0})
      → write_handshake_frame rt wr payload now_ns x ≡ (ok u, x')
      → x'.reader ≡ x.reader
  unfolding write_handshake_frame
  write_handshake_frame-ok payload now_ns x x' u h =
      let (signal, x₁, e₁, h₁) = >>=-ok _ _ x x' u h in
      let (signed, x₂, e₂, h₂) = >>=-ok _ _ x₁ x' u h₁ in
      write_frame-reader signed x₂ x' u h₂
      ∙ (sym (ap (λ p. p.1.reader) e₂) ∙ sym (ap (λ p. p.1.reader) e₁))

  read_handshake_frame-ok :
      (in_time : Bool) (x x' : Exchange S R F W) (s : Signal F P)
      → read_handshake_frame rt wr in_time x ≡ (ok s, x')
      → read_signal rt.from_slice x.reader ≡ (ok s, x'.reader)
  unfolding read_handshake_frame
  read_handshake_frame-ok in_time x x' s h = ground arith

  -- What the bytes of a peer have shown, read from one reader up to another.
  abbrev pub Shown : List ℕ → Reader → Reader → PeerIdentity → Type 0
  Shown challenge r r' peer =
      (hello : Signal F P) × (proof : Signal F P) × (mid : Reader) × (read_signal rt.from_slice r
        ≡ (ok hello, mid))
      × (read_signal rt.from_slice mid ≡ (ok proof, r'))
      × IsSigned rt hello peer.public_key
      × IsSigned rt proof peer.public_key
      × (rt.json.bytes_field "proof_for" proof.payload ≡ some challenge)
      × (peer.node_id ≡ rt.blake3 peer.public_key)
      × (peer.node_id ≢ rt.identity.node_id)

  -- A handshake that succeeds authenticates the peer over this very connection. The stream held two signed
  -- discovery frames, one after the other, whose origin is the hash of the key that verifies both. The
  -- second one carries the challenge that this side has just sent. The identity returned is that hash, it
  -- is not this node's own, and the key returned is that key.
  pub handshake_authenticates :
      (challenge : List ℕ) (hello_in_time proof_in_time : Bool) (now_ns : ℕ)
      (x x' : Exchange S R F W) (peer : PeerIdentity)
      → handshake rt wr challenge hello_in_time proof_in_time now_ns x ≡ (ok peer, x')
      → Shown challenge x.reader x'.reader peer
  unfolding handshake node_id_from_public_key
  handshake_authenticates challenge in₁ in₂ now_ns x x' peer h =
      let (u₁, x₁, e₁, h₁) = >>=-ok _ _ x x' peer h in
      let (hello, x₂, e₂, h₂) = >>=-ok _ _ x₁ x' peer h₁ in
      let (greeted, x₃, e₃, h₃) = >>=-ok _ _ x₂ x' peer h₂ in
      let (u₄, x₄, e₄, h₄) = >>=-ok _ _ x₃ x' peer h₃ in
      let (proof, x₅, e₅, h₅) = >>=-ok _ _ x₄ x' peer h₄ in
      let (u₆, x₆, e₆, h₆) = >>=-ok _ _ x₅ x' peer h₅ in
      let (rec, x₇, e₇, h₇) = >>=-ok _ _ x₆ x' peer h₆ in
      let r₁ : x₁.reader ≡ x.reader = write_handshake_frame-ok _ now_ns x x₁ u₁ e₁ in
      let r₃ : x₃ ≡ x₂ = sym (ap (λ p. p.1) e₃) in
      let r₄ : x₄.reader ≡ x₂.reader =
        write_handshake_frame-ok _ now_ns x₃ x₄ u₄ e₄ ∙ ap (λ y. y.reader) r₃ in
      let r₆ : x₆ ≡ x₅ = sym (ap (λ p. p.1) e₆) in
      let r₇ : x₇.reader ≡ x₆.reader = sym (ap (λ p. p.1.reader) e₇) in
      let r : x'.reader ≡ x₅.reader =
        sym (ap (λ p. p.1.reader) h₇) ∙ (r₇ ∙ ap (λ y. y.reader) r₆) in
      let first =
        subst (λ y. read_signal rt.from_slice y ≡ (ok hello, x₂.reader)) r₁
          (read_handshake_frame-ok in₁ x₁ x₂ hello e₂) in
      let second =
        subst (λ y. read_signal rt.from_slice y ≡ (ok proof, x₅.reader)) r₄
          (read_handshake_frame-ok in₂ x₄ x₅ proof e₅) in
      let shown = check_hello-ok rt hello greeted.0 greeted.1 (ap (λ p. p.0) e₃) in
      let proven = check_proof-ok rt proof greeted.0 challenge u₆ (ap (λ p. p.0) e₆) in
      let whole : Shown challenge x.reader x₅.reader _ =
        (hello, proof, x₂.reader, first, second, shown.0, proven.0, proven.1, refl, shown.1) in
      subst (λ y. Shown challenge x.reader y peer) (sym r)
        (subst (λ q. Shown challenge x.reader x₅.reader q) (ok_inj _ peer (ap (λ p. p.0) h₇)) whole)
