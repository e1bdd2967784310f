-- ===== src/Activation.antt =====
-- runtime/ntl-core/src/activation.rs: the activation gate, which holds arriving signals in a bounded
-- queue and releases them in batches. The generator is handed in and returned.
pub mod Config
pub mod Queue
pub mod Admit
pub mod Batch
pub mod Drain
use ntl.Base.{
  ℕ, ◌+◌, ◌*◌, ◌≤◌, Bool, true, false, not, ◌&&◌, ◌||◌, Option, none, some, List, [], ◌∷◌, ◌++◌,
  if◌then◌else◌, ltb, leb, nat_beq, min, max, length, take, drop, remove_at, is_empty, any, add64,
  saturating_add, saturating_mul, saturating_sub,
}
use ntl.Base.Sort.{sort_by}
use ntl.Float.{Float, fmin, clamp}
use ntl.Rng.{Rng}
use ntl.Delivery.{DeliveryClass, requires_receipt, RejectReason, queue_full}

pub data ActivationFunction : Type 0 where
  step sigmoid leaky : ActivationFunction

pub data OverflowPolicy : Type 0 where
  drop_lowest_weight drop_newest drop_oldest : OverflowPolicy

pub data NodeClass : Type 0 where
  edge standard server infrastructure : NodeClass

pub record ActivationConfig (F : Type 0) : Type 0 where
  pub node_class : NodeClass
  pub base_threshold : F
  pub activation_function : ActivationFunction
  pub refractory_period_ms : ℕ
  pub max_potential : F
  pub dynamic_threshold : Bool
  pub fire_batch_size : ℕ
  pub max_queue_depth : ℕ
  pub overflow_policy : OverflowPolicy
  pub leak_rate : F
  pub max_queue_latency_ms : ℕ

pub record QueuedSignal (F : Type 0) : Type 0 where
  pub id : ℕ
  pub origin : List ℕ
  pub weight : F
  pub delivery : DeliveryClass
  pub enqueued_at_ns : ℕ

pub record AdmitOutcome (F : Type 0) : Type 0 where
  pub fired : List (QueuedSignal F)
  pub dropped : Option (QueuedSignal F)
  pub drop_reason : Option RejectReason

pub record ActivationState (F : Type 0) : Type 0 where
  pub potential : F
  pub threshold : F
  pub base_threshold : F
  pub refractory_until_ns : ℕ
  pub refractory_period_ns : ℕ
  pub function : ActivationFunction
  pub max_potential : F
  pub dynamic : Bool
  pub fire_batch_size : ℕ
  pub max_queue_depth : ℕ
  pub overflow_policy : OverflowPolicy
  pub leak_rate : F
  pub max_queue_latency_ns : ℕ
  pub queue : List (QueuedSignal F)
  pub signals_fired : ℕ
  pub signals_dropped : ℕ
  pub overflow_events : ℕ

-- store/mod.rs: the snapshot of the gate that is persisted.
pub record ActivationSnapshot (F : Type 0) : Type 0 where
  pub potential : F
  pub threshold : F
  pub refractory_until_ns : ℕ
  pub signals_fired : ℕ
  pub taken_at_ns : ℕ

-- `Iterator::min_by` with its index: of several minima the first. `gt` is "compares as greater".
unfoldable pub min_from {ℓ} : {A : Type ℓ} → (A → A → Bool) → ℕ → ℕ × A → List A → ℕ × A
min_from gt n best [] = best
min_from gt n best (x ∷ xs) = min_from gt (n + 1) (if gt best.1 x then (n, x) else best) xs

unfoldable pub min_by {ℓ} : {A : Type ℓ} → (A → A → Bool) → List A → Option (ℕ × A)
unfolding min_from
min_by gt [] = none
min_by gt (x ∷ xs) = some (min_from gt 1 (0, x) xs)

module _ {F : Type 0} where
  -- The key `(s.enqueued_at_ns, s.id)`, in the lexicographic order.
  unfoldable pub enqueued_later : QueuedSignal F → QueuedSignal F → Bool
  enqueued_later a b =
      ltb b.enqueued_at_ns a.enqueued_at_ns
      || (nat_beq a.enqueued_at_ns b.enqueued_at_ns && ltb b.id a.id)

  unfoldable pub needs_receipt : AdmitOutcome F → Bool
  needs_receipt o = elim o.dropped [ none ↦ false | some d ↦ requires_receipt d.delivery ]

  -- An eviction: the signal at an index leaves, and the arrival takes the last place.
  unfoldable pub replace :
      QueuedSignal F
      → List (QueuedSignal F)
      → ℕ × QueuedSignal F
      → QueuedSignal F × List (QueuedSignal F)
  replace signal queue (i, evicted) = (evicted, remove_at i queue ++ signal ∷ [])

  unfoldable pub drop_oldest_of :
      QueuedSignal F → List (QueuedSignal F) → QueuedSignal F × List (QueuedSignal F)
  unfolding replace
  drop_oldest_of signal queue = elim (min_by enqueued_later queue) [
    | none ↦ (signal, queue)
    | some found ↦ replace signal queue found
  ]

module _ {F : Type 0} ⦃fl : Float F⦄ where
  unfoldable pub new : ActivationConfig F → ActivationState F
  new config = record {
    potential = fl.lit 0 1;
    threshold = config.base_threshold;
    base_threshold = config.base_threshold;
    refractory_until_ns = 0;
    refractory_period_ns = saturating_mul config.refractory_period_ms 1000000;
    function = config.activation_function;
    max_potential = config.max_potential;
    dynamic = config.dynamic_threshold;
    fire_batch_size = max config.fire_batch_size 1;
    max_queue_depth = max config.max_queue_depth 1;
    overflow_policy = config.overflow_policy;
    leak_rate = config.leak_rate;
    max_queue_latency_ns = saturating_mul config.max_queue_latency_ms 1000000;
    queue = [];
    signals_fired = 0;
    signals_dropped = 0;
    overflow_events = 0;
  }

  unfoldable pub restore : ActivationState F → ActivationSnapshot F → ActivationState F
  unfolding clamp
  restore g snapshot = record g {
    potential = clamp snapshot.potential (fl.lit 0 1) g.max_potential;
    threshold = snapshot.threshold;
    refractory_until_ns = snapshot.refractory_until_ns;
    signals_fired = snapshot.signals_fired;
  }

  unfoldable pub snapshot : ActivationState F → ℕ → ActivationSnapshot F
  snapshot g now_ns = record {
    potential = g.potential;
    threshold = g.threshold;
    refractory_until_ns = g.refractory_until_ns;
    signals_fired = g.signals_fired;
    taken_at_ns = now_ns;
  }

  -- `a.weight.partial_cmp(&b.weight)` is greater; NaN compares as equal.
  unfoldable pub heavier : QueuedSignal F → QueuedSignal F → Bool
  heavier a b = fl.lt b.weight a.weight

  -- The arrival replaces the weakest signal only if that is strictly lighter.
  unfoldable pub displace :
      QueuedSignal F
      → List (QueuedSignal F)
      → ℕ × QueuedSignal F
      → QueuedSignal F × List (QueuedSignal F)
  unfolding replace
  displace signal queue found =
      if fl.lt (found.1).weight signal.weight then replace signal queue found else (signal, queue)

  unfoldable pub drop_lowest_of :
      QueuedSignal F → List (QueuedSignal F) → QueuedSignal F × List (QueuedSignal F)
  unfolding displace
  drop_lowest_of signal queue = elim (min_by heavier queue) [
    | none ↦ (signal, queue)
    | some found ↦ displace signal queue found
  ]

  -- The dropped signal and the queue that stays, when the queue is full.
  unfoldable pub overflow :
      OverflowPolicy
      → QueuedSignal F
      → List (QueuedSignal F)
      → QueuedSignal F × List (QueuedSignal F)
  unfolding drop_oldest_of drop_lowest_of
  overflow drop_newest signal queue = (signal, queue)
  overflow drop_oldest signal queue = drop_oldest_of signal queue
  overflow drop_lowest_weight signal queue = drop_lowest_of signal queue

  unfoldable pub enqueue :
      ActivationState F
      → QueuedSignal F
      → ActivationState F × Option (QueuedSignal F) × Option RejectReason
  enqueue g signal =
      if ltb (length g.queue) g.max_queue_depth
      then (record g { queue = g.queue ++ signal ∷ [] }, none, none)
      else (let (dropped, queue) = overflow g.overflow_policy signal g.queue in
          (
            record g {
              queue = queue;
              overflow_events = add64 g.overflow_events 1;
              signals_dropped = add64 g.signals_dropped 1;
            },
            some dropped,
            some queue_full,
          ))

  -- The comparator of `fire` does not say "greater": heavier first, then the smaller identifier.
  unfoldable pub fires_before : QueuedSignal F → QueuedSignal F → Bool
  fires_before a b =
      if fl.lt b.weight a.weight
      then true
      else if fl.lt a.weight b.weight
      then false
      else leb a.id b.id

  unfoldable pub fire : ActivationState F → ℕ → List (QueuedSignal F) × ActivationState F
  fire g now_ns =
      let sorted = sort_by fires_before g.queue in
      let n = min g.fire_batch_size (length sorted) in
      (
        take n sorted,
        record g {
          queue = drop n sorted;
          potential = fl.lit 0 1;
          refractory_until_ns = saturating_add now_ns g.refractory_period_ns;
          signals_fired = add64 g.signals_fired (length (take n sorted));
        },
      )

  unfoldable pub load_factor : ActivationState F → F
  unfolding clamp
  load_factor g =
      clamp (fl.div (fl.of_nat (length g.queue)) (fl.of_nat g.max_queue_depth)) (fl.lit 0 1)
        (fl.lit 1 1)

  unfoldable pub recompute_threshold : ActivationState F → ActivationState F
  recompute_threshold g = record g {
    threshold = fl.mul g.base_threshold (fl.add (fl.lit 1 1) (load_factor g));
  }

  unfoldable pub adjust_for_load : ActivationState F → F → ActivationState F
  unfolding clamp
  adjust_for_load g load =
      if g.dynamic
      then record g {
        threshold =
            fl.mul g.base_threshold (fl.add (fl.lit 1 1) (clamp load (fl.lit 0 1) (fl.lit 1 1)));
      }
      else g

  unfoldable pub waited : ℕ → ℕ → QueuedSignal F → Bool
  waited guard_ns now_ns s = leb guard_ns (saturating_sub now_ns s.enqueued_at_ns)

  unfoldable pub is_starving : ActivationState F → ℕ → Bool
  unfolding waited
  is_starving g now_ns =
      if nat_beq g.max_queue_latency_ns 0
      then false
      else any (waited g.max_queue_latency_ns now_ns) g.queue

  unfoldable pub in_refractory : ActivationState F → ℕ → Bool
  in_refractory g now_ns = ltb now_ns g.refractory_until_ns

  unfoldable pub drain_if_starving :
      ActivationState F → ℕ → List (QueuedSignal F) × ActivationState F
  unfolding in_refractory
  drain_if_starving g now_ns =
      if in_refractory g now_ns || not (is_starving g now_ns) then ([], g) else fire g now_ns

  unfoldable pub drain_batch : ActivationState F → ℕ → List (QueuedSignal F) × ActivationState F
  drain_batch g now_ns = if is_empty g.queue then ([], g) else fire g now_ns

  unfoldable pub reset : ActivationState F → ActivationState F
  reset g = record g {
    potential = fl.lit 0 1;
    threshold = g.base_threshold;
    refractory_until_ns = 0;
    queue = [];
    signals_fired = 0;
    signals_dropped = 0;
    overflow_events = 0;
  }

  unfoldable pub charge : ActivationState F → F → F → ActivationState F
  unfolding fmin
  charge g weight synapse_weight = record g {
    potential = fmin (fl.add g.potential (fl.mul weight synapse_weight)) g.max_potential;
  }

  abbrev pub retune : ActivationState F → ActivationState F
  retune g = if g.dynamic then recompute_threshold g else g

  module _ {R : Type 0} (rng : Rng R F) where
    abbrev sigmoid_at : ActivationState F → F
    sigmoid_at g = fl.div (fl.lit 1 1) (
        fl.add (fl.lit 1 1)
          (fl.exp (fl.mul (fl.neg (fl.lit 10 1)) (fl.sub g.potential g.threshold))))

    -- The draw of `Leaky` is made only if the threshold is not reached.
    unfoldable pub evaluate_by : ActivationFunction → ActivationState F → R → Bool × R
    evaluate_by step g r = (fl.le g.threshold g.potential, r)
    evaluate_by sigmoid g r = let (draw, r') = rng.next_f32 r in (fl.lt draw (sigmoid_at g), r')
    evaluate_by leaky g r =
        let (draw, r') = rng.next_f32 r in
        if fl.le g.threshold g.potential then (true, r) else (fl.lt draw g.leak_rate, r')

    unfoldable pub evaluate : ActivationState F → R → Bool × R
    unfolding evaluate_by
    evaluate g r = if is_empty g.queue then (false, r) else evaluate_by g.function g r

    -- The last stage of `admit`: whether the gate fires. A refractory gate asks for no draw.
    unfoldable pub release :
        ActivationState F → ℕ → R → List (QueuedSignal F) × ActivationState F × R
    release g now_ns r =
        if in_refractory g now_ns
        then ([], g, r)
        else (let (go, r') = evaluate g r in
            if go || is_starving g now_ns
            then (let (batch, g') = fire g now_ns in (batch, g', r'))
            else ([], g, r'))

    unfoldable pub admit :
        ActivationState F → QueuedSignal F → F → ℕ → R → AdmitOutcome F × ActivationState F × R
    admit g signal synapse_weight now_ns r =
        let (g', dropped, drop_reason) = enqueue (charge g signal.weight synapse_weight) signal in
        let (fired, g'', r') = release (retune g') now_ns r in
        (record { fired = fired; dropped = dropped; drop_reason = drop_reason }, g'', r')
