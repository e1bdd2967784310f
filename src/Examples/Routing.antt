-- ===== src/Examples/Routing.antt =====
-- Examples on signals, synapses and the choice of who carries a signal.
use ntl.Base.{ℕ, ◌<◌, ◌≡◌, refl, true, false, some, List, [], ◌∷◌, min, arith, String, ok}
use ntl.Float.{◌≼◌}
use ntl.Learning.{decayed_weight}
use ntl.Synapse.{apply_decay}
use ntl.Synapse.Lifecycle.{apply_decay-apply_decay}
use ntl.Float.Fixed.{Fixed, fixed_float, Fixed-IsOrdered, Fixed-HasLiterals}
use ntl.Signal.{Signal, attenuate_for_hop, signal_requires_receipt, weighted}
use ntl.Signal.{SignalBuilder, builder, with_weight, build_unsigned, validate, query}
use ntl.Signal.Builder.{with_ttl, with_delivery}
use ntl.Signal.Built.{started, weight, ttl, delivery, build_unsigned-validate}
use ntl.Delivery.{acknowledged}
use ntl.Signal.Hops.{attenuate_for_hop_bounds}
use ntl.Store.{pruned, forming, Outcome}
use ntl.Learning.{LearningConfig, influence_window_start}
use ntl.Synapse.{Synapse, can_carry, strengthen, apply_outcome, weaken_failure}
use ntl.Synapse.Lifecycle.{
  none_yet, then_used, here, lived, strengthened, weakened, Life-pruned, Uses-forming,
  weight-le_max,
}
use ntl.Synapse.Trust.{failures, failures-pruned}
use ntl.Propagation.{select_synapses, clamp_inbound_headers}
use ntl.Propagation.Choice.{IsChoice, select_synapses-IsChoice}
use ntl.Propagation.Headers.{clamp_inbound_headers_bounds}
use ntl.Examples.Data.{num, counter, counter-IsFair, signal, learning, synapse, propagation}

attenuate_for_hop_bounds_example :
    let s' = attenuate_for_hop (num 10) (num 50) signal in
    (num 0 ≼ s'.weight)
    × (s'.weight ≼ num 1000)
    × (signal_requires_receipt signal ≡ true → 0 < 4 → num 50 ≼ s'.weight)
attenuate_for_hop_bounds_example =
    attenuate_for_hop_bounds Fixed-IsOrdered Fixed-HasLiterals (num 10) (num 50) signal refl refl
      refl

abbrev inflated : Signal Fixed ℕ
inflated = record signal { weight = num 7000; ttl = 900 }

clamp_inbound_headers_bounds_example :
    let s = (clamp_inbound_headers inflated propagation).1 in
    (num 0 ≼ s.weight)
    × (s.weight ≼ num 1000)
    × (s.ttl ≡ min 900 32)
    × (clamp_inbound_headers s propagation
        ≡ (record { weight_clamped = false; ttl_clamped = false }, s))
clamp_inbound_headers_bounds_example =
    clamp_inbound_headers_bounds Fixed-IsOrdered Fixed-HasLiterals inflated propagation refl

abbrev peers : List (Synapse Fixed)
peers =
    synapse
    ∷ record synapse { id = "s2"; remote_node = 6 ∷ [] }
    ∷ record synapse { id = "s3"; state = pruned }
    ∷ []

select_synapses-IsChoice_example :
    IsChoice peers (weighted (num 50)) (some "s1") "Query" 10 propagation (
      select_synapses counter peers
        (weighted (num 50))
        "Query"
        (some "s1")
        propagation
        learning
        10
        0)
select_synapses-IsChoice_example =
    select_synapses-IsChoice counter counter-IsFair peers (weighted (num 50)) "Query" (some "s1")
      propagation learning 10 0

abbrev fresh : Synapse Fixed
fresh = record synapse { state = forming }

Uses-forming_example :
    can_carry (weaken_failure (strengthen (num 900) (num 900) fresh)).state ≡ false
Uses-forming_example =
    Uses-forming
      (then_used {s = fresh} (strengthened (num 900) (num 900)) (then_used weakened none_yet)) refl

abbrev dead : Synapse Fixed
dead = record synapse { state = pruned }

Life-pruned_example :
    ((strengthen (num 900) (num 900) dead).state ≡ pruned)
    × (can_carry (strengthen (num 900) (num 900) dead).state ≡ false)
Life-pruned_example = Life-pruned (lived {s = dead} (strengthened (num 900) (num 900)) here) refl

weight-le_max_example :
    ((w f : Fixed) → (strengthen w f synapse).weight ≼ num 900)
    × ((o : Outcome) (w : Fixed) (t : String) (used : Fixed) (c : LearningConfig Fixed)
        → (apply_outcome o w t used c synapse).1.weight ≼ num 900)
weight-le_max_example = weight-le_max Fixed-IsOrdered synapse refl

failures-pruned_example : (failures learning (10 ∷ 20 ∷ []) synapse).state ≡ pruned
unfolding influence_window_start
failures-pruned_example =
    failures-pruned learning (10 ∷ 20 ∷ []) synapse (omega arith, (omega arith, tt)) (omega arith)
      (omega arith) (omega arith)

apply_decay-apply_decay_example :
    (apply_decay 7200 learning (apply_decay 3600 learning synapse)).weight
    ≡ decayed_weight (decayed_weight (num 400) 0 3600 learning) 0 7200 learning
apply_decay-apply_decay_example = apply_decay-apply_decay synapse 3600 7200 learning

-- A weight of 1.5, and the class set after it.
abbrev asked : SignalBuilder Fixed ℕ
asked = with_delivery acknowledged (with_weight (num 1500) (with_ttl 3 (builder query "weather" 0)))

build_unsigned-validate_example :
    validate (record (build_unsigned asked (λ t. false) (9 ∷ []) 100 7) { signature = 1 ∷ [] })
    ≡ ok tt
unfolding with_ttl builder with_weight with_delivery
build_unsigned-validate_example =
    build_unsigned-validate Fixed-IsOrdered Fixed-HasLiterals (λ t. false) (9 ∷ []) 100 7 (1 ∷ [])
      (delivery acknowledged (weight (num 1500) refl (ttl 3 (started query "weather" 0))))
      (λ e. ground arith) refl
