-- ===== src/Crypto/Travel.antt =====
-- `sign_signal` and `verify_signal` of runtime/ntl-core/src/crypto.rs, on a signal that travels.
use ntl.Base.{
  ℕ, ◌≡◌, refl, ◌∙◌, true, Option, some, List, [], ◌∷◌, arith, length, ok, Option-cases, inl, inr,
}
use ntl.Float.{Float}
use ntl.Signal.{NodeId, Signal, hop, attenuate_for_hop, signing_bytes, unsigned}
use ntl.Signal.Signing.{signing_bytes-hop}
use ntl.Crypto.{
  Ed25519, array_of, keypair_from_seed, signing_key, verifying_key, classical_sign,
  classical_verify, classical_module, verify_signal, sign_signal,
}

-- What ed25519_dalek documents: keys and signatures have their lengths, a derived key is a point, and a
-- signature verifies under the key of the seed that made it.
pub record IsSound (ed : Ed25519) : Type 0 where
  pub key_length : (seed : List ℕ) → length (ed.verifying_key seed) ≡ 32
  pub key_point : (seed : List ℕ) → ed.is_point (ed.verifying_key seed) ≡ true
  pub signature_length : (seed message : List ℕ) → length (ed.sign_bytes seed message) ≡ 64
  pub verifies :
      (seed message : List ℕ)
      → ed.verify_bytes (ed.verifying_key seed) message (ed.sign_bytes seed message) ≡ true

array_of-length : (n : ℕ) (bytes : List ℕ) → length bytes ≡ n → array_of n bytes ≡ some bytes
unfolding array_of
array_of-length n bytes h = ground arith

keypair_parts :
    (ed : Ed25519) (seed public private : List ℕ)
    → keypair_from_seed ed seed ≡ ok (public, private)
    → (length seed ≡ 32) × (public ≡ ed.verifying_key seed) × (private ≡ seed)
unfolding keypair_from_seed array_of
keypair_parts ed seed public private h = ground arith

classical_sign-seed :
    (ed : Ed25519) (seed message : List ℕ)
    → length seed ≡ 32
    → classical_sign ed message seed ≡ ok (ed.sign_bytes seed message)
unfolding classical_sign signing_key
classical_sign-seed ed seed message l =
    rw (classical_sign, signing_key, array_of-length 32 seed l) refl

module _ (ed : Ed25519) (sound : IsSound ed) where
  classical_verify-sign :
      (seed message : List ℕ)
      → classical_verify ed message (ed.sign_bytes seed message) (ed.verifying_key seed) ≡ ok true
  unfolding classical_verify verifying_key
  classical_verify-sign seed message =
      rw
        (
          classical_verify,
          verifying_key,
          array_of-length 32 (ed.verifying_key seed) (sound.key_length seed),
          sound.key_point seed,
          array_of-length 64 (ed.sign_bytes seed message) (sound.signature_length seed message),
          sound.verifies seed message,
        )
        refl

module _ {F P : Type 0} ⦃fl : Float F⦄ where
  -- A path of nodes, each with its attenuation and its floor.
  unfoldable pub travelled : List (NodeId × F × F) → Signal F P → Signal F P
  travelled [] s = s
  travelled ((n, factor, floor) ∷ path) s =
      travelled path (attenuate_for_hop factor floor (hop n s))

  signature-travelled :
      (path : List (NodeId × F × F)) (s : Signal F P) → (travelled path s).signature ≡ s.signature
  unfolding travelled attenuate_for_hop hop
  signature-travelled [] s = refl
  signature-travelled ((n, factor, floor) ∷ path) s =
      signature-travelled path (attenuate_for_hop factor floor (hop n s))

  module _ (to_vec : Signal F P → Option (List ℕ)) where
    signing_bytes-travelled :
        (path : List (NodeId × F × F)) (s : Signal F P)
        → signing_bytes to_vec (travelled path s) ≡ signing_bytes to_vec s
    unfolding travelled
    signing_bytes-travelled [] s = refl
    signing_bytes-travelled ((n, factor, floor) ∷ path) s =
        signing_bytes-travelled path (attenuate_for_hop factor floor (hop n s))
        ∙ signing_bytes-hop to_vec n factor floor s

    signing_bytes-signed :
        (s : Signal F P) (g : List ℕ)
        → signing_bytes to_vec (record s { signature = g }) ≡ signing_bytes to_vec s
    unfolding signing_bytes unsigned
    signing_bytes-signed s g = refl

    signed_parts :
        (ed : Ed25519) (blake3 : List ℕ → List ℕ) (seed : List ℕ) (s s' : Signal F P)
        → length seed ≡ 32
        → sign_signal to_vec (classical_module ed blake3) s seed ≡ ok s'
        → (b : List ℕ) × (signing_bytes to_vec s ≡ some b)
          × (s' ≡ record s { signature = ed.sign_bytes seed b })
    unfolding sign_signal classical_module
    signed_parts ed blake3 seed s s' l h = elim (Option-cases (signing_bytes to_vec s)) [
      | inl e ↦ absurd (ground arith)
      | inr (b, e) ↦ (b, e, ground (arith, classical_sign-seed ed seed b l))
    ]

    -- A signature holds along every path. A signal that is signed with the key derived from a seed
    -- verifies under the public key of that seed at each node it reaches, whatever nodes it has passed
    -- and however they attenuated it. Ed25519 does what its documentation says.
    pub sign_signal-verify_signal :
        (ed : Ed25519) (blake3 : List ℕ → List ℕ) (sound : IsSound ed)
        (seed public private : List ℕ) (s s' : Signal F P) (path : List (NodeId × F × F))
        → keypair_from_seed ed seed ≡ ok (public, private)
        → sign_signal to_vec (classical_module ed blake3) s private ≡ ok s'
        → verify_signal to_vec (classical_module ed blake3) (travelled path s') public ≡ ok true
    unfolding verify_signal classical_module
    sign_signal-verify_signal ed blake3 sound seed public private s s' path k h =
        let (l, p, q) = keypair_parts ed seed public private k in
        let (b, e, f) = signed_parts ed blake3 seed s s' l (ground arith) in
        let g = ed.sign_bytes seed b in
        let bytes : signing_bytes to_vec (travelled path s') ≡ some b =
          signing_bytes-travelled path s' ∙ (rw f (signing_bytes-signed s g) ∙ e) in
        let kept : (travelled path s').signature ≡ g = signature-travelled path s' ∙ rw f refl in
        rw (verify_signal, bytes, kept, p) (classical_verify-sign ed sound seed b)
