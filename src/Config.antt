-- ===== src/Config.antt =====
-- runtime/ntl-core/src/config.rs: the defaults of a node's configuration and its validation. The part for the
-- network and for the choice of a storage backend is left out; reading and parsing a file is a parameter.
use ntl.Base.{
  ℕ, Bool, true, false, not, Option, none, some, List, [], ◌∷◌, String, text_eq, ◌==◌, any, Result,
  ok, err, reject_if,
}
use ntl.Float.{Float}
use ntl.Delivery.{default_policy, required_dedup_secs}
use ntl.Activation.{NodeClass, edge, standard, server}
use ntl.Activation.Config as Gate
use ntl.Learning.Config as Learning
use ntl.Learning.Config.{DeploymentClass, edge_deployment, full_node, high_traffic, LearningError}
use ntl.Propagation as Propagation
use ntl.Propagation.{PropagationConfig, PropagationError}
use ntl.Synapse as Synapse
use ntl.Node.{NodeConfig}

pub data ConfigFailure : Type 0 where
  bad_activation : Gate.ConfigError → ConfigFailure
  bad_learning : LearningError → ConfigFailure
  bad_propagation : PropagationError → ConfigFailure
  unsupported_crypto weights_disagree unreadable_file : ConfigFailure

-- crypto.rs: the modules of a build, with or without the classical one.
unfoldable pub supported_modules : Bool → List String
supported_modules true = "classical-v1" ∷ []
supported_modules false = []

abbrev pub node_class : DeploymentClass → NodeClass
node_class edge_deployment = edge
node_class full_node = standard
node_class high_traffic = server

abbrev pub class_fanout : DeploymentClass → ℕ
class_fanout edge_deployment = 3
class_fanout full_node = 5
class_fanout high_traffic = 8

abbrev pub checked {ℓ} :
    {E A : Type ℓ}
    → Result E (Unit {0})
    → (E → ConfigFailure)
    → Result ConfigFailure A
    → Result ConfigFailure A
checked (ok u) f rest = rest
checked (err e) f rest = err (f e)

module _ {F : Type 0} ⦃fl : Float F⦄ where
  unfoldable pub for_class : DeploymentClass → NodeConfig F
  unfolding Gate.for_class Learning.for_class Propagation.default_config Synapse.default_config
  for_class class = record {
    propagation = record Propagation.default_config { max_fanout = class_fanout class };
    learning = Learning.for_class class;
    synapse = Synapse.default_config;
    activation = Gate.for_class (node_class class);
    retry = default_policy;
    crypto_module = "classical-v1";
  }

  -- `NodeConfig::default`
  unfoldable pub default_config : NodeConfig F
  unfolding Gate.for_class Learning.for_class Propagation.default_config Synapse.default_config
  default_config = record {
    propagation = Propagation.default_config;
    learning = Learning.for_class edge_deployment;
    synapse = Synapse.default_config;
    activation = Gate.for_class edge;
    retry = default_policy;
    crypto_module = "classical-v1";
  }

  unfoldable pub validate : Bool → NodeConfig F → Result ConfigFailure (Unit {0})
  unfolding Gate.validate Learning.validate Propagation.validate required_dedup_secs
      supported_modules
  validate classical c = checked (Gate.validate c.activation) bad_activation (
      checked (Learning.validate c.learning) bad_learning (
        checked (Propagation.validate c.propagation (required_dedup_secs c.retry)) bad_propagation (
          reject_if (not (any (λ m. m == c.crypto_module) (supported_modules classical)))
            unsupported_crypto
            (reject_if (fl.lt c.learning.max_weight c.synapse.max_weight) weights_disagree
              (ok tt)))))

  -- What a file holds is given by `read_file`, which reads it and parses it.
  unfoldable pub from_file :
      Bool → (String → Option (NodeConfig F)) → String → Result ConfigFailure (NodeConfig F)
  unfolding validate
  from_file classical read_file path = elim (read_file path) [
    | none ↦ err unreadable_file
    | some c ↦ checked (validate classical c) (λ e. e) (ok c)
  ]
