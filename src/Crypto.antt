-- ===== src/Crypto.antt =====
-- runtime/ntl-core/src/crypto.rs: the interface of a cryptographic module, the classical module over it, and
-- how a signal is signed and verified. Ed25519 (ed25519_dalek) and BLAKE3 are parameters.
pub mod Travel
use ntl.Base.{
  ℕ, Bool, true, false, not, Option, none, some, List, [], ◌∷◌, String, if◌then◌else◌, nat_beq,
  length, Result, ok, err,
}
use ntl.Float.{Float}
use ntl.Signal.{NodeId, Signal, signing_bytes}

-- The crate's error kinds that occur here.
pub data CryptoError : Type 0 where
  unsupported bad_key unencodable : CryptoError

abbrev pub PublicKey : Type 0
PublicKey = List ℕ

abbrev pub PrivateKey : Type 0
PrivateKey = List ℕ

abbrev pub Signature : Type 0
Signature = List ℕ

pub record CryptoModule : Type 0 where
  pub module_id : String
  pub generate_keypair : Result CryptoError (PublicKey × PrivateKey)
  pub sign : List ℕ → PrivateKey → Result CryptoError Signature
  pub verify : List ℕ → Signature → PublicKey → Result CryptoError Bool
  pub encrypt : List ℕ → PublicKey → Result CryptoError (List ℕ)
  pub decrypt : List ℕ → PrivateKey → Result CryptoError (List ℕ)
  pub key_exchange : PrivateKey → PublicKey → Result CryptoError (List ℕ)
  pub hash : List ℕ → List ℕ

-- The operations of ed25519_dalek on arrays of the right length: a verifying key is checked when it is
-- built from its bytes.
pub record Ed25519 : Type 0 where
  pub verifying_key : List ℕ → List ℕ
  pub sign_bytes : List ℕ → List ℕ → List ℕ
  pub is_point : List ℕ → Bool
  pub verify_bytes : List ℕ → List ℕ → List ℕ → Bool

-- A slice as an array of `n` bytes.
unfoldable pub array_of : ℕ → List ℕ → Option (List ℕ)
array_of n bytes = if nat_beq (length bytes) n then some bytes else none

abbrev pub or_bad_key :
    {A : Type 0} → Option (List ℕ) → (List ℕ → Result CryptoError A) → Result CryptoError A
or_bad_key none k = err bad_key
or_bad_key (some bytes) k = k bytes

module _ (ed : Ed25519) where
  unfoldable pub keypair_from_seed : List ℕ → Result CryptoError (PublicKey × PrivateKey)
  unfolding array_of
  keypair_from_seed seed =
      or_bad_key (array_of 32 seed) (λ bytes. ok (ed.verifying_key bytes, bytes))

  unfoldable pub signing_key : PrivateKey → Option (List ℕ)
  unfolding array_of
  signing_key key = array_of 32 key

  unfoldable pub verifying_key : PublicKey → Option (List ℕ)
  unfolding array_of
  verifying_key key = elim (array_of 32 key) [
    | none ↦ none
    | some bytes ↦ if ed.is_point bytes then some bytes else none
  ]

  unfoldable pub classical_sign : List ℕ → PrivateKey → Result CryptoError Signature
  unfolding signing_key
  classical_sign message key =
      or_bad_key (signing_key key) (λ signing. ok (ed.sign_bytes signing message))

  -- A signature of the wrong length is a failed verification, not an error.
  unfoldable pub classical_verify : List ℕ → Signature → PublicKey → Result CryptoError Bool
  unfolding verifying_key array_of
  classical_verify message signature key = or_bad_key (verifying_key key) (λ verifying.
      elim (array_of 64 signature) [
        | none ↦ ok false
        | some bytes ↦ ok (ed.verify_bytes verifying message bytes)
      ])

  unfoldable pub classical_module : (List ℕ → List ℕ) → CryptoModule
  unfolding classical_sign classical_verify
  classical_module blake3 = record {
    module_id = "classical-v1";
    generate_keypair = err unsupported;
    sign = classical_sign;
    verify = classical_verify;
    encrypt = λ message key. err unsupported;
    decrypt = λ message key. err unsupported;
    key_exchange = λ local remote. err unsupported;
    hash = blake3;
  }

unfoldable pub node_id_from_public_key : (List ℕ → List ℕ) → PublicKey → NodeId
node_id_from_public_key blake3 key = blake3 key

module _ {F P : Type 0} ⦃fl : Float F⦄ (to_vec : Signal F P → Option (List ℕ))
    (m : CryptoModule) where
  unfoldable pub verify_signal : Signal F P → PublicKey → Result CryptoError Bool
  unfolding signing_bytes
  verify_signal s key = elim (signing_bytes to_vec s) [
    | none ↦ err unencodable
    | some bytes ↦ m.verify bytes s.signature key
  ]

  abbrev pub signed_with :
      Signal F P → Result CryptoError Signature → Result CryptoError (Signal F P)
  signed_with s (ok signature) = ok (record s { signature = signature })
  signed_with s (err e) = err e

  unfoldable pub sign_signal : Signal F P → PrivateKey → Result CryptoError (Signal F P)
  unfolding signing_bytes
  sign_signal s key = elim (signing_bytes to_vec s) [
    | none ↦ err unencodable
    | some bytes ↦ signed_with s (m.sign bytes key)
  ]
