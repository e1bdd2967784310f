-- ===== src/Node/Build.antt =====
-- `NodeBuilder` of runtime/ntl-core/src/node.rs: how a node starts over a store. A clock is always there, as it
-- is where the code runs on a host.
use ntl.Base.{
  ℕ, zero, suc, ◌/◌, ◌%◌, Bool, Option, none, some, List, [], ◌∷◌, ◌++◌, String, Result, ok, err,
}
use ntl.Float.{Float}
use ntl.Rng.{Rng, splitmix_next, from_identity}
use ntl.Signal.{NodeId, SignalType}
use ntl.Activation.{ActivationState, ActivationSnapshot, new, restore}
use ntl.Store.{NodeStore, StoreError, Read}
use ntl.Config.{ConfigFailure, default_config, validate, from_file}
use ntl.Node.{Node, NodeConfig}
use ntl.Node.Monad.{lifted, Act, pure, fail, ◌>>=◌, ◌>>◌}

-- The kinds of `Error::Config` that `build` reports.
pub data BuildError : Type 0 where
  invalid : ConfigFailure → BuildError
  no_store : BuildError
  storage : StoreError → BuildError

pub record NodeBuilder (S R F : Type 0) : Type 0 where
  pub config : Option (NodeConfig F)
  pub config_path : Option String
  pub identity : Option NodeId
  pub store : Option (NodeStore S F)
  pub rng : Option R

-- `u64::to_le_bytes`, over a number of bytes.
unfoldable pub to_le_bytes : ℕ → ℕ → List ℕ
to_le_bytes zero n = []
to_le_bytes (suc k) n = n % 256 ∷ to_le_bytes k (n / 256)

-- The loop that makes the bytes of an identity from a seed.
unfoldable pub seeded_bytes : ℕ → ℕ → List ℕ
unfolding to_le_bytes splitmix_next
seeded_bytes zero seed = []
seeded_bytes (suc n) seed =
    let (x, seed') = splitmix_next seed in to_le_bytes 8 x ++ seeded_bytes n seed'

abbrev pub or_storage : {S A : Type 0} → (S → Read A × S) → Act S BuildError A
or_storage f s = lifted storage (f s)

unfoldable pub or_invalid : {S A : Type 0} → Result ConfigFailure A → Act S BuildError A
or_invalid (ok a) s = (ok a, s)
or_invalid (err e) s = (err (invalid e), s)

module _ {S F : Type 0} (store : NodeStore S F) where
  abbrev pub kept : NodeId → Act S BuildError NodeId
  kept id = do or_storage (store.put_meta "node-id" id); pure id

  abbrev pub or_fresh : ℕ → Option NodeId → Act S BuildError NodeId
  or_fresh now_ns (some bytes) = pure bytes
  or_fresh now_ns none = kept (seeded_bytes 4 now_ns)

  -- The identity is kept in the store under "node-id"; without one it is made from the time.
  unfoldable pub establish : Option NodeId → ℕ → Act S BuildError NodeId
  unfolding lifted seeded_bytes
  establish (some id) now_ns = kept id
  establish none now_ns = do
    found ← or_storage (λ s. (store.get_meta "node-id" s, s))
    or_fresh now_ns found

module _ {F : Type 0} ⦃fl : Float F⦄ where
  abbrev pub restored : ActivationState F → Option (ActivationSnapshot F) → ActivationState F
  restored g none = g
  restored g (some snapshot) = restore g snapshot

module _ {F : Type 0} ⦃fl : Float F⦄ (classical : Bool)
    (read_file : String → Option (NodeConfig F)) where
  unfoldable pub chosen_config :
      Option (NodeConfig F) → Option String → Result ConfigFailure (NodeConfig F)
  unfolding default_config from_file
  chosen_config (some c) path = ok c
  chosen_config none (some path) = from_file classical read_file path
  chosen_config none none = ok default_config

-- `boxed` makes a generator of the state of a SplitMix64.
unfoldable pub chosen_rng : {R : Type 0} → (ℕ → R) → Option R → NodeId → ℕ → R
unfolding from_identity
chosen_rng boxed none identity now_ns = boxed (from_identity identity now_ns)
chosen_rng boxed (some r) identity now_ns = r

unfoldable pub found_store :
    {S F : Type 0} → Option (NodeStore S F) → Act S BuildError (NodeStore S F)
found_store none = fail no_store
found_store (some store) = pure store

module _ {S R F : Type 0} ⦃fl : Float F⦄ (rng : Rng R F) (boxed : ℕ → R)
    (debug : SignalType → String) (ulid_text : ℕ → ℕ → String) where
  unfoldable pub started :
      NodeStore S F
      → NodeConfig F
      → Option R
      → ℕ
      → NodeId
      → Act S BuildError (Node S R F × R × ActivationState F)
  unfolding lifted chosen_rng new restore
  started store config given now_ns identity = do
    snapshot ← or_storage (λ s. (store.load_activation s, s))
    pure (
      record {
        identity = identity;
        config = config;
        store = store;
        rng = rng;
        debug = debug;
        ulid_text = ulid_text;
      },
      chosen_rng boxed given identity now_ns,
      restored (new config.activation) snapshot,
    )

  unfoldable pub start_over :
      NodeStore S F
      → NodeConfig F
      → Option R
      → Option NodeId
      → ℕ
      → Act S BuildError (Node S R F × R × ActivationState F)
  unfolding lifted establish started
  start_over store config given id now_ns = do
    or_storage store.migrate
    identity ← establish store id now_ns
    started store config given now_ns identity

  module _ (classical : Bool) (read_file : String → Option (NodeConfig F)) where
    -- The node, and the generator and the gate that it starts with.
    unfoldable pub build :
        NodeBuilder S R F → ℕ → Act S BuildError (Node S R F × R × ActivationState F)
    unfolding validate chosen_config or_invalid found_store start_over
    build b now_ns = do
      config ← or_invalid (chosen_config classical read_file b.config b.config_path)
      or_invalid (validate classical config)
      store ← found_store b.store
      start_over store config b.rng b.identity now_ns
