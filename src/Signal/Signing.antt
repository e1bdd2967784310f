-- ===== src/Signal/Signing.antt =====
-- `signing_bytes` of runtime/ntl-core/src/signal.rs: what the origin's signature covers.
use ntl.Base.{ℕ, ◌≡◌, refl, ap, Option, some, List}
use ntl.Float.{Float}
use ntl.Signal.{NodeId, Signal, hop, attenuate_for_hop, unsigned, signing_bytes}

-- Two signals with the same immutable content.
pub record SameContent {F P : Type 0} (s t : Signal F P) : Type 0 where
  pub id : s.id ≡ t.id
  pub signal_type : s.signal_type ≡ t.signal_type
  pub version : s.version ≡ t.version
  pub origin : s.origin ≡ t.origin
  pub timestamp : s.timestamp ≡ t.timestamp
  pub payload : s.payload ≡ t.payload
  pub encoding : s.encoding ≡ t.encoding
  pub scope : s.scope ≡ t.scope
  pub correlation_id : s.correlation_id ≡ t.correlation_id
  pub tags : s.tags ≡ t.tags
  pub delivery : s.delivery ≡ t.delivery

module _ {F P : Type 0} ⦃fl : Float F⦄ (to_vec : Signal F P → Option (List ℕ)) where
  -- A hop and an attenuation leave the bytes under the origin's signature as they are, whatever the
  -- node, the factor and the floor: a signature made at the origin is checked against the same bytes
  -- at every node of the path.
  pub signing_bytes-hop :
      (n : NodeId) (factor floor : F) (s : Signal F P)
      → signing_bytes to_vec (attenuate_for_hop factor floor (hop n s)) ≡ signing_bytes to_vec s
  unfolding signing_bytes unsigned hop attenuate_for_hop
  signing_bytes-hop n factor floor s = refl

  unsigned-SameContent : (s t : Signal F P) → unsigned s ≡ unsigned t → SameContent s t
  unfolding unsigned
  unsigned-SameContent s t e = record {
    id = ap (λ u. u.id) e;
    signal_type = ap (λ u. u.signal_type) e;
    version = ap (λ u. u.version) e;
    origin = ap (λ u. u.origin) e;
    timestamp = ap (λ u. u.timestamp) e;
    payload = ap (λ u. u.payload) e;
    encoding = ap (λ u. u.encoding) e;
    scope = ap (λ u. u.scope) e;
    correlation_id = ap (λ u. u.correlation_id) e;
    tags = ap (λ u. u.tags) e;
    delivery = ap (λ u. u.delivery) e;
  }

  -- If the encoder keeps different signals apart, two signals with the same signed bytes have the same
  -- immutable content, the delivery class and the payload included: a relay that rewrites any of it
  -- changes the bytes under the signature.
  pub signing_bytes-SameContent :
      ((u v : Signal F P) (b : List ℕ) → to_vec u ≡ some b → to_vec v ≡ some b → u ≡ v)
      → (s t : Signal F P) (b : List ℕ) → signing_bytes to_vec s ≡ some b
      → signing_bytes to_vec t ≡ some b
      → SameContent s t
  unfolding signing_bytes
  signing_bytes-SameContent injective s t b h k =
      unsigned-SameContent s t (injective (unsigned s) (unsigned t) b h k)
