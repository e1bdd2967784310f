-- ===== src/Examples/Data.antt =====
-- The data of the examples: numbers in thousandths, a generator that counts, a gate with two signals, a
-- signal, synapses and a node over the reference store.
use ntl.Base.{ℕ, ◌+◌, true, false, none, some, [], ◌∷◌, arith, if◌then◌else◌, nat_beq}
use ntl.Float.Fixed.{Fixed, val, fixed_float}
use ntl.Rng.{Rng, IsFair}
use ntl.Delivery.{acknowledged, default_policy}
use ntl.Signal.{Signal, query, cbor, weighted}
use ntl.Activation.{
  ActivationConfig, standard, ActivationState, QueuedSignal, step, drop_lowest_weight,
}
use ntl.Store.{SynapseRecord, active, JournalEntry, pending}
use ntl.Store.Memory.{MemoryStore}
use ntl.Store.Memory.Interface.{memory_store}
use ntl.Learning.{LearningConfig, softmax}
use ntl.Synapse.{Synapse, SynapseConfig, quic, tcp}
use ntl.Propagation.{PropagationConfig}
use ntl.Node.{Node, NodeState}

abbrev pub num : ℕ → Fixed
num n = val n 0

abbrev pub counter : Rng ℕ Fixed
counter = record {
  next_u64 = λ r. (r, r + 1);
  next_f32 = λ r. (num 500, r + 1);
  next_below = λ r n. ((if nat_beq n 0 then none else some 0), r + 1);
}

pub counter-IsFair : IsFair counter
counter-IsFair = record { below = λ r n. ground arith }

abbrev pub queued : ℕ → ℕ → ℕ → QueuedSignal Fixed
queued id w at = record {
  id = id;
  origin = [];
  weight = num w;
  delivery = acknowledged;
  enqueued_at_ns = at;
}

abbrev pub gate : ActivationState Fixed
gate = record {
  potential = num 100;
  threshold = num 500;
  base_threshold = num 500;
  refractory_until_ns = 0;
  refractory_period_ns = 10;
  function = step;
  max_potential = num 10000;
  dynamic = false;
  fire_batch_size = 1;
  max_queue_depth = 2;
  overflow_policy = drop_lowest_weight;
  leak_rate = num 10;
  max_queue_latency_ns = 50;
  queue = queued 1 300 0 ∷ queued 2 200 5 ∷ [];
  signals_fired = 0;
  signals_dropped = 0;
  overflow_events = 0;
}

abbrev pub signal : Signal Fixed ℕ
signal = record {
  id = 7;
  signal_type = query;
  version = 1;
  origin = 9 ∷ [];
  signature = 1 ∷ [];
  timestamp = 0;
  payload = 42;
  encoding = cbor;
  weight = num 600;
  ttl = 4;
  scope = weighted (num 0);
  correlation_id = none;
  trace = (9 ∷ []) ∷ [];
  tags = [];
  delivery = acknowledged;
}

abbrev pub learning : LearningConfig Fixed
learning = record {
  enabled = true;
  learning_rate = num 100;
  decay_half_life_hours = num 24000;
  exploration_temperature = num 100;
  min_temperature = num 10;
  receipt_window_secs = 30;
  min_weight = num 10;
  max_weight = num 1000;
  max_total_outbound_weight = num 1000;
  influence_cap_per_peer = num 200;
  influence_window_secs = 3600;
  signature_failure_penalty = num 500;
  signature_failure_prune_threshold = 2;
  signature_failure_cooldown_secs = 3600;
}

abbrev pub synapse_config : SynapseConfig Fixed
synapse_config = record {
  initial_weight = num 100;
  max_weight = num 900;
  decay_rate = num 10;
  active_threshold = num 100;
  dormancy_threshold = num 10;
  prune_after_hours = 168;
  max_synapses = 1000;
  preferred_transport = quic;
  fallback_transport = tcp;
  attenuation_factor = num 900;
}

abbrev pub stored : SynapseRecord Fixed
stored = record {
  id = "s1";
  peer = 5 ∷ [];
  weight = num 400;
  attenuation_factor = num 900;
  state = active;
  type_affinity = ("Query", 3) ∷ [];
  established_at_ns = 0;
  last_active_ns = 0;
  signals_transmitted = 3;
  signals_received = 0;
  avg_latency_ns = 0;
  error_rate = num 0;
  signature_failures = 1;
  failure_window_start_ns = 0;
}

abbrev pub store : MemoryStore Fixed
store = record {
  synapses = ("s1", stored) ∷ [];
  peers = [];
  seen = [];
  activation = none;
  journal = [];
  next_journal_id = 0;
  influence = [];
  meta = [];
  history = [];
  retain_history = false;
}

abbrev pub synapse : Synapse Fixed
synapse = record {
  id = "s1";
  local_node = 1 ∷ [];
  remote_node = 5 ∷ [];
  weight = num 400;
  state = active;
  transport = quic;
  established_at_ns = 0;
  last_active_ns = 0;
  signals_transmitted = 0;
  signals_received = 0;
  avg_latency_ns = 0;
  error_rate = num 0;
  max_weight = num 900;
  decay_rate = num 10;
  active_threshold = num 100;
  dormancy_threshold = num 10;
  attenuation_factor = num 900;
  signature_failures = 0;
  failure_window_start_ns = 0;
  type_affinity = [];
}

abbrev pub propagation : PropagationConfig Fixed
propagation = record {
  default_strategy = weighted (num 0);
  default_ttl = 10;
  max_accepted_ttl = 32;
  min_propagation_weight = num 10;
  attenuation_factor = num 900;
  max_fanout = 2;
  dedup_cache_seconds = 300;
  scoring = record {
    weight_factor = num 400;
    latency_factor = num 200;
    affinity_factor = num 300;
    recency_factor = num 100;
  };
  exploration = softmax;
}

abbrev pub activation_config : ActivationConfig Fixed
activation_config = record {
  node_class = standard;
  base_threshold = num 500;
  activation_function = step;
  refractory_period_ms = 1;
  max_potential = num 10000;
  dynamic_threshold = true;
  fire_batch_size = 16;
  max_queue_depth = 2;
  overflow_policy = drop_lowest_weight;
  leak_rate = num 10;
  max_queue_latency_ms = 500;
}

abbrev pub node : Node (MemoryStore Fixed) ℕ Fixed
node = record {
  identity = 1 ∷ [];
  config = record {
    propagation = propagation;
    learning = learning;
    synapse = synapse_config;
    activation = activation_config;
    retry = default_policy;
    crypto_module = "classical-v1";
  };
  store = memory_store (λ a b. true);
  rng = counter;
  debug = λ t. "Query";
  ulid_text = λ t r. "s2";
}

abbrev pub state : NodeState (MemoryStore Fixed) ℕ Fixed
state = record { store = store; rng = 0; activation = gate }

abbrev pub decision_entry : JournalEntry Fixed
decision_entry = record {
  id = some 1;
  signal = 7;
  signal_type = query;
  synapse = "s1";
  peer = 5 ∷ [];
  score = num 500;
  signal_weight = num 600;
  explored = false;
  decided_at_ns = 3;
  outcome = pending;
  resolved_at_ns = none;
}

abbrev pub journalled : MemoryStore Fixed
journalled = record store { journal = decision_entry ∷ []; next_journal_id = 1 }
