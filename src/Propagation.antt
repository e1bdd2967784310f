-- ===== src/Propagation.antt =====
-- runtime/ntl-core/src/propagation.rs: scoring of synapses, the choice of those that carry a signal, and
-- the checks on a signal before it goes on.
pub mod Choice
pub mod Headers
use ntl.Base.{
  ℕ, zero, suc, ◌+◌, ◌-◌, ◌*◌, Bool, true, false, not, ◌&&◌, ◌||◌, Option, none, some, List, [],
  ◌∷◌, map, String, text_eq, if◌then◌else◌, ltb, leb, nat_beq, ◌==◌, filter, find, length, is_empty,
  get_elem?, bytes_beq, Result, ok, err, reject_if,
}
use ntl.Base.Sort.{sort_by}
use ntl.Float.{Float, clamp, in_closed}
use ntl.Rng.{Rng}
use ntl.Delivery.{RejectReason, ttl_exhausted, no_route, below_threshold}
use ntl.Signal.{NodeId, Signal, PropagationScope, flood, weighted, targeted, gradient, has_visited}
use ntl.Synapse.{Synapse, can_carry, affinity_for}
use ntl.Learning.{
  LearningConfig, ExplorationPolicy, softmax, Selection, sample_paths, nanos_per_hour,
}

pub record ScoringWeights (F : Type 0) : Type 0 where
  pub weight_factor : F
  pub latency_factor : F
  pub affinity_factor : F
  pub recency_factor : F

pub record PropagationConfig (F : Type 0) : Type 0 where
  pub default_strategy : PropagationScope F
  pub default_ttl : ℕ
  pub max_accepted_ttl : ℕ
  pub min_propagation_weight : F
  pub attenuation_factor : F
  pub max_fanout : ℕ
  pub dedup_cache_seconds : ℕ
  pub scoring : ScoringWeights F
  pub exploration : ExplorationPolicy F

pub data PropagationError : Type 0 where
  bad_max_fanout bad_default_ttl bad_min_propagation_weight bad_attenuation_factor
        bad_dedup_cache_seconds :
      PropagationError

pub record Chosen (F : Type 0) : Type 0 where
  pub synapse : Synapse F
  pub score : F
  pub explored : Bool

pub record HeaderClamp : Type 0 where
  pub weight_clamped : Bool
  pub ttl_clamped : Bool

module _ {F : Type 0} ⦃fl : Float F⦄ where
  unfoldable pub default_scoring : ScoringWeights F
  default_scoring = record {
    weight_factor = fl.lit 2 5;
    latency_factor = fl.lit 1 5;
    affinity_factor = fl.lit 3 10;
    recency_factor = fl.lit 1 10;
  }

  unfoldable pub default_config : PropagationConfig F
  unfolding default_scoring
  default_config = record {
    default_strategy = weighted (fl.lit 0 1);
    default_ttl = 10;
    max_accepted_ttl = 32;
    min_propagation_weight = fl.lit 1 100;
    attenuation_factor = fl.lit 9 10;
    max_fanout = 5;
    dedup_cache_seconds = 300;
    scoring = default_scoring;
    exploration = softmax;
  }

  unfoldable pub validate : PropagationConfig F → ℕ → Result PropagationError (Unit {0})
  unfolding in_closed
  validate c retry_deadline_secs = reject_if (nat_beq c.max_fanout 0) bad_max_fanout (
      reject_if (nat_beq c.default_ttl 0) bad_default_ttl (
        reject_if
          (not (
            fl.le (fl.lit 0 1) c.min_propagation_weight
            && fl.lt c.min_propagation_weight (fl.lit 1 1)))
          bad_min_propagation_weight
          (reject_if (not (in_closed (fl.lit 0 1) (fl.lit 1 1) c.attenuation_factor))
            bad_attenuation_factor
            (reject_if (ltb c.dedup_cache_seconds retry_deadline_secs) bad_dedup_cache_seconds
              (ok tt)))))

  unfoldable pub scoring_sum : ScoringWeights F → F
  scoring_sum w =
      fl.add (fl.add (fl.add w.weight_factor w.latency_factor) w.affinity_factor) w.recency_factor

  unfoldable pub is_normalized : ScoringWeights F → Bool
  unfolding scoring_sum
  is_normalized w = fl.lt (fl.abs (fl.sub (scoring_sum w) (fl.lit 1 1))) (fl.lit 1 1000)

  unfoldable pub score_synapse : Synapse F → String → ℕ → ScoringWeights F → F
  unfolding affinity_for
  score_synapse s signal_type now_ns w =
      let one = fl.lit 1 1 in
      let latency_score =
        if nat_beq s.avg_latency_ns 0
        then one
        else fl.div one (fl.add one (fl.div (fl.of_nat s.avg_latency_ns) (fl.lit 1000000 1))) in
      let affinity_score = affinity_for s signal_type in
      let hours_since_active =
        if ltb s.last_active_ns now_ns
        then fl.div (fl.of_nat (now_ns - s.last_active_ns)) (fl.lit nanos_per_hour 1)
        else fl.lit 0 1 in
      let recency_score = fl.div one (fl.add one hours_since_active) in
      fl.add
        (fl.add (fl.add (fl.mul s.weight w.weight_factor) (fl.mul latency_score w.latency_factor))
          (fl.mul affinity_score w.affinity_factor))
        (fl.mul recency_score w.recency_factor)

  -- The two filters of `select_synapses`.
  abbrev pub arrived_on : Option String → Synapse F → Bool
  arrived_on none s = false
  arrived_on (some arrival) s = s.id == arrival

  abbrev pub meets_floor : PropagationScope F → Synapse F → Bool
  meets_floor (weighted min_synapse_weight) s = fl.le min_synapse_weight s.weight
  meets_floor _ s = true

  unfoldable pub may_carry : PropagationScope F → Option String → Synapse F → Bool
  may_carry scope arrival s = not (arrived_on arrival s) && can_carry s.state && meets_floor scope s

  abbrev pub scored : Bool → String → ℕ → ScoringWeights F → Synapse F → Chosen F
  scored explored signal_type now_ns w s = record {
    synapse = s;
    score = score_synapse s signal_type now_ns w;
    explored = explored;
  }

  abbrev pub best_score_first : Chosen F → Chosen F → Bool
  best_score_first a b = not (fl.lt a.score b.score)

  unfoldable pub fanout : PropagationScope F → ℕ → PropagationConfig F → ℕ
  fanout (flood max_hops) n c = n
  fanout (targeted destination) n c = 1
  fanout _ n c = c.max_fanout

  -- The direct synapse to the destination of a targeted signal.
  unfoldable pub direct : PropagationScope F → List (Synapse F) → Option (Synapse F)
  direct (targeted destination) synapses = find (λ s. bytes_beq s.remote_node destination) synapses
  direct _ synapses = none

  abbrev pub is_flood : PropagationScope F → Bool
  is_flood (flood max_hops) = true
  is_flood _ = false

  -- `eligible[sel.index]` for every selection; `none` is the panic out of bounds.
  unfoldable pub chosen_at : List (Synapse F) → List (Selection F) → Option (List (Chosen F))
  chosen_at eligible [] = some []
  chosen_at eligible (sel ∷ sels) = elim (get_elem? eligible sel.index) [
    | none ↦ none
    | some s ↦ elim (chosen_at eligible sels) [
      | none ↦ none
      | some rest ↦ some (record { synapse = s; score = sel.score; explored = sel.explored } ∷ rest)
    ]
  ]

  module _ {R : Type 0} (rng : Rng R F) where
    unfoldable pub sampled :
        List (Synapse F) → Option (List (Selection F) × R) → Option (List (Chosen F) × R)
    unfolding chosen_at
    sampled eligible none = none
    sampled eligible (some (sels, r)) = elim (chosen_at eligible sels) [
      | none ↦ none
      | some out ↦ some (out, r)
    ]

    -- The choice among the eligible synapses.
    unfoldable pub choose :
        List (Synapse F)
        → PropagationScope F
        → String
        → PropagationConfig F
        → LearningConfig F
        → ℕ
        → R
        → Option (List (Chosen F) × R)
    unfolding sampled fanout
    choose eligible scope signal_type c learning now_ns r =
        let all = map (scored false signal_type now_ns c.scoring) eligible in
        if is_flood scope
        then some (sort_by best_score_first all, r)
        else sampled eligible (
            sample_paths rng (map (λ s. score_synapse s signal_type now_ns c.scoring) eligible)
              (fanout scope (length eligible) c) c.exploration learning r)

    unfoldable pub select_synapses :
        List (Synapse F)
        → PropagationScope F
        → String
        → Option String
        → PropagationConfig F
        → LearningConfig F
        → ℕ
        → R
        → Option (List (Chosen F) × R)
    unfolding choose direct may_carry
    select_synapses synapses scope signal_type arrival c learning now_ns r =
        let eligible = filter (may_carry scope arrival) synapses in
        if is_empty eligible then some ([], r) else (elim (direct scope eligible) [
          | some s ↦ some (scored false signal_type now_ns c.scoring s ∷ [], r)
          | none ↦ choose eligible scope signal_type c learning now_ns r
        ])

module _ {F P : Type 0} ⦃fl : Float F⦄ where
  unfoldable pub check_propagable :
      Signal F P → NodeId → PropagationConfig F → Result RejectReason (Unit {0})
  unfolding has_visited
  check_propagable signal local_node c = reject_if (nat_beq signal.ttl 0) ttl_exhausted (
      reject_if (has_visited signal local_node) no_route
        (reject_if (fl.lt signal.weight c.min_propagation_weight) below_threshold (ok tt)))

  unfoldable pub clamp_inbound_headers : Signal F P → PropagationConfig F → HeaderClamp × Signal F P
  clamp_inbound_headers signal c =
      let out_of_range = fl.lt signal.weight (fl.lit 0 1) || fl.lt (fl.lit 1 1) signal.weight in
      let too_long = ltb c.max_accepted_ttl signal.ttl in
      (
        record { weight_clamped = out_of_range; ttl_clamped = too_long },
        record signal {
          weight =
              if out_of_range then clamp signal.weight (fl.lit 0 1) (fl.lit 1 1) else signal.weight;
          ttl = if too_long then c.max_accepted_ttl else signal.ttl;
        },
      )

  unfoldable pub flood_depth_reached : Signal F P → Bool
  flood_depth_reached signal = elim signal.scope [
    | flood max_hops ↦ leb max_hops (length signal.trace)
    | _ ↦ false
  ]
