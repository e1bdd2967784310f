-- ===== src/Runtime/Origin.antt =====
-- The origin of a signal that reaches the node in runtime/ntl-net/src/runtime.rs.
use ntl.Base.{
  ℕ, ◌≡◌, refl, sym, ap, subst, ◌∙◌, ◌⊎◌, inl, inr, true, Option, none, some, String, arith,
  bytes_eq, number_eq, ◌==◌, bytes_beq_iff, ok, Bool-cases, Option-cases, Result-cases,
}
use ntl.Float.{Float}
use ntl.Signal.{Signal}
use ntl.Crypto.{PublicKey, verify_signal}
use ntl.Node.Feedback.{penalize_signature_failure}
use ntl.Runtime.{Runtime, RuntimeState}
use ntl.Runtime.Transmit.{arrival_of}
use ntl.Runtime.ReadLoop.{PeerIdentity, on_signal, on_keyed, origin_key, bad_signature}
use ntl.Runtime.Keys.{key_of}
use ntl.Runtime.Reachable.{BoundKey, IsBound}

module _ {S R F P : Type 0} ⦃fl : Float F⦄ (rt : Runtime S R F P) where
  -- The node after a penalty for the synapse of a peer.
  abbrev pub IsStruck : PeerIdentity → ℕ → RuntimeState S R F P → RuntimeState S R F P → Type 0
  IsStruck peer now_ns s s' =
      (id : String) × (arrival_of rt (some peer.node_id) s.node ≡ some id)
      × (s'.node ≡ (penalize_signature_failure rt.node id now_ns s.node).1)

  origin_key-bound :
      (peer : PeerIdentity) (signal : Signal F P) (s : RuntimeState S R F P) (key : PublicKey)
      → rt.blake3 peer.public_key ≡ peer.node_id
      → IsBound rt s
      → origin_key signal peer s ≡ some key
      → rt.blake3 key ≡ signal.origin
  unfolding origin_key
  origin_key-bound peer signal s key h b e = elim (Bool-cases (signal.origin == peer.node_id)) [
    | inl f ↦
        let k : peer.public_key ≡ key = ground arith in
        subst (λ c. rt.blake3 c ≡ signal.origin) k
          (h ∙ sym ((bytes_beq_iff signal.origin peer.node_id).0 f))
    | inr f ↦
        let k : key_of signal.origin s.sessions ≡ some key = ground arith in
        subst (λ o. BoundKey rt signal.origin o) k (b signal.origin)
  ]

  abbrev pub IsAuthentic :
      PeerIdentity → Signal F P → ℕ → RuntimeState S R F P → RuntimeState S R F P → Type 0
  IsAuthentic peer signal now_ns s s' =
      ((key : PublicKey) × (rt.blake3 key ≡ signal.origin)
        × (verify_signal rt.to_vec rt.crypto signal key ≡ ok true))
      ⊎ ((s'.node ≡ s.node) ⊎ IsStruck peer now_ns s s')

  bad_signature-IsStruck :
      (peer : PeerIdentity) (now_ns : ℕ) (s : RuntimeState S R F P)
      → ((bad_signature rt peer now_ns s).1.node ≡ s.node)
        ⊎ IsStruck peer now_ns s (bad_signature rt peer now_ns s).1
  unfolding bad_signature
  bad_signature-IsStruck peer now_ns s =
      elim (Option-cases (arrival_of rt (some peer.node_id) s.node)) [
        | inl e ↦ inl (rw (bad_signature, e) refl)
        | inr (id, e) ↦ inr (id, e, rw (bad_signature, e) refl)
      ]

  on_keyed-IsAuthentic :
      (peer : PeerIdentity) (signal : Signal F P) (now_ns : ℕ) (s : RuntimeState S R F P)
      (o : Option PublicKey)
      → ((key : PublicKey) → o ≡ some key → rt.blake3 key ≡ signal.origin)
      → IsAuthentic peer signal now_ns s (on_keyed rt signal peer now_ns s o).1
  unfolding on_keyed
  on_keyed-IsAuthentic peer signal now_ns s none h = inr (inl refl)
  on_keyed-IsAuthentic peer signal now_ns s (some key) h =
      elim (Result-cases (verify_signal rt.to_vec rt.crypto signal key)) [
        | inr (x, e) ↦ inr (rw (on_keyed, e) (bad_signature-IsStruck peer now_ns s))
        | inl (v, e) ↦ elim (Bool-cases v) [
          | inl f ↦ inl (key, h key refl, e ∙ ap (λ w. ok w) f)
          | inr f ↦ inr (rw (on_keyed, e, f) (bad_signature-IsStruck peer now_ns s))
        ]
      ]

  -- An arriving signal reaches the node only with a signature that its origin made: the key that verifies
  -- it hashes to the origin it names. If there is no such key the node is as it was, or it has charged the
  -- synapse of the peer that handed the signal over with a signature failure, and nothing else. The peer has
  -- passed the handshake, and the state can be any that the runtime reaches with every key bound.
  pub on_signal-IsAuthentic :
      (peer : PeerIdentity) (signal : Signal F P) (now_ns : ℕ) (s : RuntimeState S R F P)
      → rt.blake3 peer.public_key ≡ peer.node_id
      → IsBound rt s
      → IsAuthentic peer signal now_ns s (on_signal rt peer signal now_ns s).1
  unfolding on_signal
  on_signal-IsAuthentic peer signal now_ns s h b =
      on_keyed-IsAuthentic peer signal now_ns s (origin_key signal peer s)
        (λ key e. origin_key-bound peer signal s key h b e)
