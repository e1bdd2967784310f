-- ===== src/Synapse.antt =====
-- runtime/ntl-core/src/synapse.rs: a synapse, its weight and its lifecycle. The text of an identifier is
-- made by the ulid crate, which is a parameter.
pub mod Lifecycle
pub mod Trust
use ntl.Base.{
  ℕ, zero, suc, ◌+◌, ◌-◌, ◌*◌, ◌/◌, ◌%◌, ◌^◌, Bool, true, false, ◌||◌, Option, none, some, List, [],
  ◌∷◌, String, if◌then◌else◌, ltb, leb, nat_beq, add64, min, text_eq,
}
use ntl.Base.Map.{get, insert, values}
use ntl.Float.{Float, fmin}
use ntl.Rng.{Rng}
use ntl.Signal.{NodeId}
use ntl.Store.{SynapseState, forming, active, weakening, dormant, pruned, SynapseRecord, Outcome}
use ntl.Learning.{
  LearningConfig, WeightUpdate, apply_reward, apply_affinity_update, apply_signature_penalty,
  influence_window_start, decayed_weight, or_zero,
}

pub record SignatureFailureOutcome : Type 0 where
  pub failures_in_window : ℕ
  pub pruned : Bool

unfoldable pub can_carry : SynapseState → Bool
can_carry active = true
can_carry weakening = true
can_carry _ = false

unfoldable pub is_terminal : SynapseState → Bool
is_terminal pruned = true
is_terminal _ = false

pub data Transport : Type 0 where
  quic tcp unix bluetooth_le : Transport
  custom : String → Transport

pub record Synapse (F : Type 0) : Type 0 where
  pub id : String
  pub local_node : NodeId
  pub remote_node : NodeId
  pub weight : F
  pub state : SynapseState
  pub transport : Transport
  pub established_at_ns : ℕ
  pub last_active_ns : ℕ
  pub signals_transmitted : ℕ
  pub signals_received : ℕ
  pub avg_latency_ns : ℕ
  pub error_rate : F
  pub max_weight : F
  pub decay_rate : F
  pub active_threshold : F
  pub dormancy_threshold : F
  pub attenuation_factor : F
  pub signature_failures : ℕ
  pub failure_window_start_ns : ℕ
  pub type_affinity : List (String × ℕ)

pub record SynapseConfig (F : Type 0) : Type 0 where
  pub initial_weight : F
  pub max_weight : F
  pub decay_rate : F
  pub active_threshold : F
  pub dormancy_threshold : F
  pub prune_after_hours : ℕ
  pub max_synapses : ℕ
  pub preferred_transport : Transport
  pub fallback_transport : Transport
  pub attenuation_factor : F

module _ {F : Type 0} ⦃fl : Float F⦄ where
  unfoldable pub default_config : SynapseConfig F
  default_config = record {
    initial_weight = fl.lit 1 10;
    max_weight = fl.lit 1 1;
    decay_rate = fl.lit 1 100;
    active_threshold = fl.lit 1 10;
    dormancy_threshold = fl.lit 1 100;
    prune_after_hours = 168;
    max_synapses = 1000;
    preferred_transport = quic;
    fallback_transport = tcp;
    attenuation_factor = fl.lit 9 10;
  }

-- One more use of a signal type: `entry(..).or_insert(0) += 1`.
unfoldable pub count_type : String → List (String × ℕ) → List (String × ℕ)
unfolding get insert
count_type t m = elim (get t m) [ none ↦ insert t 1 m | some n ↦ insert t (add64 n 1) m ]

unfoldable pub sum64 : List ℕ → ℕ
sum64 [] = 0
sum64 (n ∷ ns) = add64 n (sum64 ns)

-- `u32::saturating_add`
abbrev pub saturating_add32 : ℕ → ℕ → ℕ
saturating_add32 a b = min (a + b) (2 ^ 32 - 1)

module _ {F R : Type 0} ⦃fl : Float F⦄ (rng : Rng R F) (ulid_text : ℕ → ℕ → String) where
  unfoldable pub new_with : NodeId → NodeId → SynapseConfig F → ℕ → R → Synapse F × R
  new_with local_node remote_node c now_ns r =
      let (high, r₁) = rng.next_u64 r in
      let (low, r₂) = rng.next_u64 r₁ in
      (
        record {
          id = ulid_text (now_ns / 1000000) (high * 2 ^ 64 + low);
          local_node = local_node;
          remote_node = remote_node;
          weight = c.initial_weight;
          state = forming;
          transport = c.preferred_transport;
          established_at_ns = now_ns;
          last_active_ns = now_ns;
          signals_transmitted = 0;
          signals_received = 0;
          avg_latency_ns = 0;
          error_rate = fl.lit 0 1;
          max_weight = c.max_weight;
          decay_rate = c.decay_rate;
          active_threshold = c.active_threshold;
          dormancy_threshold = c.dormancy_threshold;
          attenuation_factor = c.attenuation_factor;
          signature_failures = 0;
          failure_window_start_ns = 0;
          type_affinity = [];
        },
        r₂,
      )

module _ {F : Type 0} where
  unfoldable pub record_reception : ℕ → Synapse F → Synapse F
  record_reception now_ns s = record s {
    signals_received = add64 s.signals_received 1;
    last_active_ns = now_ns;
  }

  unfoldable pub activate : Synapse F → Synapse F
  activate s = elim s.state [ forming ↦ record s { state = active } | _ ↦ s ]

  unfoldable pub reactivate : SynapseConfig F → Synapse F → Synapse F
  reactivate c s = elim s.state [
    | dormant ↦ record s { weight = c.initial_weight; state = active }
    | _ ↦ s
  ]

  unfoldable pub to_record : Synapse F → SynapseRecord F
  to_record s = record {
    id = s.id;
    peer = s.remote_node;
    weight = s.weight;
    attenuation_factor = s.attenuation_factor;
    state = s.state;
    type_affinity = s.type_affinity;
    established_at_ns = s.established_at_ns;
    last_active_ns = s.last_active_ns;
    signals_transmitted = s.signals_transmitted;
    signals_received = s.signals_received;
    avg_latency_ns = s.avg_latency_ns;
    error_rate = s.error_rate;
    signature_failures = s.signature_failures;
    failure_window_start_ns = s.failure_window_start_ns;
  }

  unfoldable pub from_record : SynapseRecord F → NodeId → SynapseConfig F → Synapse F
  from_record rec local_node c = record {
    id = rec.id;
    local_node = local_node;
    remote_node = rec.peer;
    weight = rec.weight;
    state = rec.state;
    transport = c.preferred_transport;
    established_at_ns = rec.established_at_ns;
    last_active_ns = rec.last_active_ns;
    signals_transmitted = rec.signals_transmitted;
    signals_received = rec.signals_received;
    avg_latency_ns = rec.avg_latency_ns;
    error_rate = rec.error_rate;
    max_weight = c.max_weight;
    decay_rate = c.decay_rate;
    active_threshold = c.active_threshold;
    dormancy_threshold = c.dormancy_threshold;
    attenuation_factor = rec.attenuation_factor;
    signature_failures = rec.signature_failures;
    failure_window_start_ns = rec.failure_window_start_ns;
    type_affinity = rec.type_affinity;
  }

module _ {F : Type 0} ⦃fl : Float F⦄ where
  -- The state that the weight and the thresholds give.
  unfoldable pub weight_state : Synapse F → SynapseState
  weight_state s =
      if fl.le s.active_threshold s.weight
      then active
      else if fl.le s.dormancy_threshold s.weight
      then weakening
      else dormant

  unfoldable pub update_state : Synapse F → Synapse F
  unfolding weight_state
  update_state s = elim s.state [
    | pruned ↦ s
    | forming ↦ s
    | _ ↦ record s { state = weight_state s }
  ]

  unfoldable pub strengthen : F → F → Synapse F → Synapse F
  unfolding update_state
  strengthen signal_weight strengthen_factor s = update_state (record s {
    weight = fmin (fl.add s.weight (fl.mul signal_weight strengthen_factor)) s.max_weight;
  })

  unfoldable pub weaken_failure : Synapse F → Synapse F
  weaken_failure s = update_state (record s {
    weight = fl.mul s.weight (fl.lit 9 10);
    error_rate = fl.add (fl.mul s.error_rate (fl.lit 9 10)) (fl.lit 1 10);
  })

  unfoldable pub decay : Synapse F → Synapse F
  decay s = update_state (record s { weight = fl.mul s.weight (fl.sub (fl.lit 1 1) s.decay_rate) })

  unfoldable pub record_transmission : ℕ → String → ℕ → Synapse F → Synapse F
  unfolding count_type
  record_transmission latency_ns signal_type now_ns s = record s {
    signals_transmitted = add64 s.signals_transmitted 1;
    last_active_ns = now_ns;
    avg_latency_ns =
        if nat_beq s.avg_latency_ns 0
        then latency_ns
        else (s.avg_latency_ns * 9 + latency_ns) % 2 ^ 64 / 10;
    type_affinity = count_type signal_type s.type_affinity;
    error_rate = fl.mul s.error_rate (fl.lit 99 100);
  }

  unfoldable pub affinity_for : Synapse F → String → F
  unfolding sum64 get
  affinity_for s signal_type =
      let total = sum64 (values s.type_affinity) in
      if nat_beq total 0
      then fl.lit 0 1
      else fl.div (fl.of_nat (or_zero (get signal_type s.type_affinity))) (fl.of_nat total)

  unfoldable pub apply_outcome :
      Outcome → F → String → F → LearningConfig F → Synapse F → WeightUpdate F × Synapse F
  unfolding apply_reward affinity_for apply_affinity_update
  apply_outcome outcome signal_weight signal_type peer_influence_used learning s =
      let update = apply_reward s.weight outcome signal_weight peer_influence_used learning in
      let affinity = affinity_for s signal_type in
      let updated = apply_affinity_update affinity outcome learning in
      (
        update,
        update_state (record s {
          weight = fmin update.after s.max_weight;
          type_affinity =
              if fl.lt affinity updated
              then count_type signal_type s.type_affinity
              else s.type_affinity;
        }),
      )

  -- The number of failures in the window after one more, and when that window began.
  unfoldable pub count_failure : ℕ → LearningConfig F → Synapse F → ℕ × ℕ
  unfolding influence_window_start
  count_failure now_ns learning s =
      if ltb s.failure_window_start_ns (influence_window_start learning now_ns)
      then (1, now_ns)
      else (saturating_add32 s.signature_failures 1, s.failure_window_start_ns)

  unfoldable pub apply_signature_failure :
      ℕ → LearningConfig F → Synapse F → SignatureFailureOutcome × Synapse F
  unfolding count_failure apply_signature_penalty
  apply_signature_failure now_ns learning s =
      let (failures, start) = count_failure now_ns learning s in
      let counted = record s {
        weight = apply_signature_penalty s.weight learning;
        failure_window_start_ns = start;
        signature_failures = failures;
      } in
      if leb learning.signature_failure_prune_threshold failures
      then (
        record { failures_in_window = failures; pruned = true },
        record counted { state = pruned; last_active_ns = now_ns },
      )
      else (record { failures_in_window = failures; pruned = false }, update_state counted)

  unfoldable pub apply_decay : ℕ → LearningConfig F → Synapse F → Synapse F
  unfolding decayed_weight
  apply_decay now_ns learning s =
      update_state (record s { weight = decayed_weight s.weight s.last_active_ns now_ns learning })
