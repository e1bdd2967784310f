-- ===== src/Node/Emit.antt =====
-- `emit` of runtime/ntl-core/src/node.rs, with `SignalId::generate` of runtime/ntl-core/src/signal.rs. The
-- ulid crate, which puts the time and the randomness together, is a parameter.
use ntl.Base.{ℕ, ◌+◌, ◌*◌, ◌/◌, ◌^◌, text_eq, ◌==◌}
use ntl.Float.{Float}
use ntl.Rng.{Rng}
use ntl.Signal.{Signal, SignalBuilder, SignalId, NodeId, build_unsigned}
use ntl.Node.Monad.{Act, pure, and_then}
use ntl.Node.{Node, NodeState, NodeError, writing, drawing}

module _ {R F : Type 0} (rng : Rng R F) (from_parts : ℕ → ℕ → SignalId) where
  unfoldable pub generate : ℕ → R → SignalId × R
  generate now_ns r =
      let (high, r₁) = rng.next_u64 r in
      let (low, r₂) = rng.next_u64 r₁ in (from_parts (now_ns / 1000000) (high * 2 ^ 64 + low), r₂)

module _ {R F P : Type 0} (rng : Rng R F) (from_parts : ℕ → ℕ → SignalId) ⦃fl : Float F⦄ where
  unfoldable pub build_unsigned_with : SignalBuilder F P → NodeId → ℕ → R → Signal F P × R
  unfolding generate build_unsigned
  build_unsigned_with b origin now_ns r =
      let (id, r') = generate rng from_parts now_ns r in
      (build_unsigned b (λ t. t == "") origin now_ns id, r')

module _ {S R F P : Type 0} ⦃fl : Float F⦄ (node : Node S R F) (from_parts : ℕ → ℕ → SignalId) where
  unfoldable pub emit : SignalBuilder F P → ℕ → Act (NodeState S R F) NodeError (Signal F P)
  unfolding build_unsigned_with
  emit b now_ns =
      and_then (drawing (build_unsigned_with node.rng from_parts b node.identity now_ns)) (λ signal.
        and_then
          (writing (
            node.store.check_and_set_seen signal.id now_ns
              node.config.propagation.dedup_cache_seconds))
          (λ seen. pure signal))
