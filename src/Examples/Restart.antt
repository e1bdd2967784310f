-- ===== src/Examples/Restart.antt =====
-- Examples on a node that starts again over its store.
use ntl.Base.{ℕ, ◌≡◌, refl, true, none, some, [], ok, err}
use ntl.Float.Fixed.{Fixed, fixed_float}
use ntl.Signal.{NodeId}
use ntl.Store.{NodeStore}
use ntl.Store.Memory.{MemoryStore, new, get_meta, put_meta, load_activation}
use ntl.Store.Memory.Interface.{memory_store}
use ntl.Config.{default_config, validate}
use ntl.Node.{Node}
use ntl.Node.Monad.{◌>>=◌, lifted}
use ntl.Activation.{ActivationState}
use ntl.Base.{text_eq}
use ntl.Crypto.{keypair_from_seed, array_of, node_id_from_public_key}
use ntl.Runtime.{Identity}
use ntl.Runtime.Seeded.{IdentityError, load_or_create, stored_or, create, from_seed, identity_of}
use ntl.Runtime.Reload.{load_or_create-load_or_create}
use ntl.Examples.Net.{toy_scheme, toy_hash, my_seed, peer_seed}
use ntl.Examples.Data.{counter}
use ntl.Base.{Result}
use ntl.Node.Build.{
  BuildError, NodeBuilder, build, chosen_config, or_invalid, found_store, start_over, started,
  establish, chosen_rng,
}
use ntl.Node.Restart.{build-build}
use ntl.Node.Reference.{memory_store-KeepsMeta, memory_store-KeepsEntries}

abbrev kept_store : NodeStore (MemoryStore Fixed) Fixed
kept_store = memory_store (λ a b. true)

default_config_valid : validate true (default_config {F = Fixed}) ≡ ok tt
unfolding validate default_config
default_config_valid = refl

abbrev given_none : NodeBuilder (MemoryStore Fixed) ℕ Fixed
given_none = record {
  config = none;
  config_path = none;
  identity = none;
  store = some kept_store;
  rng = none;
}

abbrev start :
    ℕ
    → MemoryStore Fixed
    → Result BuildError (Node (MemoryStore Fixed) ℕ Fixed × ℕ × ActivationState Fixed)
      × MemoryStore Fixed
start now_ns =
    build counter (λ state. state) (λ t. "Query") (λ t r. "s2") true (λ path. none) given_none
      now_ns

abbrev started_identity :
    Result BuildError (Node (MemoryStore Fixed) ℕ Fixed × ℕ × ActivationState Fixed)
      × MemoryStore Fixed
    → NodeId
started_identity (ok (node, r, g), s) = node.identity
started_identity (err e, s) = []

abbrev first_run : MemoryStore Fixed
first_run = (start 7 new).1

build-build_example : started_identity (start 9 first_run) ≡ started_identity (start 7 new)
unfolding build chosen_config default_config validate or_invalid found_store start_over started
    lifted establish chosen_rng ◌>>=◌ memory_store get_meta new put_meta load_activation
build-build_example =
    build-build counter (λ state. state) (λ t. "Query") (λ t r. "s2") true (λ path. none) kept_store
      (memory_store-KeepsMeta (λ a b. true)) given_none given_none 7 9 new first_run first_run _ _ _
      _ _ _ _ refl refl refl refl refl refl

abbrev created : Result IdentityError Identity × MemoryStore Fixed
created = load_or_create toy_scheme toy_hash kept_store my_seed new

load_or_create-load_or_create_example :
    load_or_create toy_scheme toy_hash kept_store peer_seed created.1 ≡ created
unfolding load_or_create stored_or create from_seed identity_of lifted keypair_from_seed array_of
    memory_store get_meta put_meta new ◌>>=◌ node_id_from_public_key
load_or_create-load_or_create_example =
    load_or_create-load_or_create toy_scheme toy_hash kept_store
      (memory_store-KeepsEntries (λ a b. true)) my_seed peer_seed new created.1 created.1 _ refl
      refl
