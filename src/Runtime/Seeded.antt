-- ===== src/Runtime/Seeded.antt =====
-- runtime/ntl-net/src/identity.rs: the identity of a node, kept in its store as a seed. The bytes of the operating
-- system's generator are an argument.
use ntl.Base.{ℕ, Option, none, some, List, Result, ok, err}
use ntl.Crypto.{
  CryptoError, Ed25519, PublicKey, PrivateKey, keypair_from_seed, node_id_from_public_key,
}
use ntl.Store.{NodeStore, StoreError}
use ntl.Node.Monad.{Act, pure, lifted, ◌>>=◌, ◌>>◌}
use ntl.Runtime.{Identity}

pub data IdentityError : Type 0 where
  unusable_store : StoreError → IdentityError
  malformed : CryptoError → IdentityError

module _ (ed : Ed25519) (blake3 : List ℕ → List ℕ) where
  unfoldable pub identity_of :
      Result CryptoError (PublicKey × PrivateKey) → Result IdentityError Identity
  unfolding node_id_from_public_key
  identity_of (ok (public_key, private_key)) = ok (record {
    public = public_key;
    private = private_key;
    node_id = node_id_from_public_key blake3 public_key;
  })
  identity_of (err e) = err (malformed e)

  unfoldable pub from_seed : List ℕ → Result IdentityError Identity
  unfolding keypair_from_seed identity_of
  from_seed seed = identity_of (keypair_from_seed ed seed)

  module _ {S F : Type 0} (store : NodeStore S F) where
    unfoldable pub create : List ℕ → Act S IdentityError Identity
    unfolding from_seed lifted
    create fresh = do
      identity ← (λ s. (from_seed fresh, s))
      (λ s. lifted unusable_store (store.put_meta "identity-seed" fresh s))
      (λ s. lifted unusable_store (store.put_meta "node-id" identity.node_id s))
      (λ s. lifted unusable_store (store.flush s))
      pure identity

    unfoldable pub stored_or : List ℕ → Option (List ℕ) → Act S IdentityError Identity
    unfolding create from_seed
    stored_or fresh none s = create fresh s
    stored_or fresh (some seed) s = (from_seed seed, s)

    -- `fresh` is what the operating system's generator fills the seed with, when one is made.
    unfoldable pub load_or_create : List ℕ → Act S IdentityError Identity
    unfolding stored_or lifted
    load_or_create fresh = do
      found ← (λ s. lifted unusable_store (store.get_meta "identity-seed" s, s))
      stored_or fresh found
