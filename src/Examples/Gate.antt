-- ===== src/Examples/Gate.antt =====
-- Examples on the activation gate, sampling, retries and the generator.
use ntl.Base.{
  suc, ◌↔◌, ◌/◌, ◌≤◌, true, ℕ, ◌+◌, ◌^◌, ◌<◌, ◌≡◌, refl, ◌⊎◌, false, ok, none, some, [], ◌∷◌, ◌++◌,
  Perm, All, length, arith, add64,
}
use ntl.Base.Sort.{IsSorted}
use ntl.Float.{◌≼◌, ◌≺◌, clamp}
use ntl.Float.Fixed.{Fixed, nan, fixed_float, Fixed-IsOrdered, Fixed-HasLiterals}
use ntl.Delivery.{queue_full}
use ntl.Activation.{
  ActivationState, admit, fire, fires_before, overflow, drop_lowest_weight, edge, step, evaluate,
  ActivationConfig,
}
use ntl.Activation.Queue.{overflow-lowest}
use ntl.Activation.Admit.{admit-perm, of_option, IsValid, admit-IsValid, admit_report}
use ntl.Activation.Batch.{fire_heaviest}
use ntl.Activation.Drain.{polls, Patient, polls-Patient_all}
use ntl.Learning.{epsilon_greedy, sample_paths, apply_reward, capped_delta, raw_delta}
use ntl.Learning.Greedy.{IsSample, sample_paths-IsSample}
use ntl.Learning.Reward.{apply_reward_bounds}
use ntl.Store.{delivered, reward}
use ntl.Rng.{next_below}
use ntl.Rng.Below.{first_word, next_below_uniform}
use ntl.Activation.Config.{for_class, validate, validate_nan, validate-for_class}
use ntl.Examples.Data.{num, counter, counter-IsFair, queued, gate, learning}

admit-perm_example :
    let (o, g', _) = admit counter gate (queued 3 250 60) (num 1000) 60 0 in
    Perm (o.fired ++ of_option o.dropped ++ g'.queue) (queued 3 250 60 ∷ gate.queue)
admit-perm_example = admit-perm counter gate (queued 3 250 60) (num 1000) 60 0

gate-IsValid : IsValid gate
gate-IsValid = record {
  depth_pos = omega arith;
  batch_pos = omega arith;
  bounded = omega arith;
  ceiling = refl;
  charged = refl;
}

admit-IsValid_example : IsValid (admit counter gate (queued 3 250 60) nan 60 0).1
admit-IsValid_example =
    admit-IsValid Fixed-IsOrdered counter gate (queued 3 250 60) nan 60 0 gate-IsValid

admit_report_example :
    let (o, g', _) = admit counter gate (queued 3 250 60) (num 1000) 60 0 in
    ((2 < 2) × (o.dropped ≡ none) × (o.drop_reason ≡ none) × (g'.signals_dropped ≡ 0))
    ⊎ ((2 ≤ 2)
        × (o.dropped ≡ some (overflow drop_lowest_weight (queued 3 250 60) gate.queue).0)
        × (o.drop_reason ≡ some queue_full)
        × (g'.signals_dropped ≡ add64 0 1))
admit_report_example = admit_report counter gate (queued 3 250 60) (num 1000) 60 0

fire_heaviest_example :
    (length (fire gate 60).0 ≡ 1)
    × IsSorted fires_before (fire gate 60).0
    × All (λ a. All (λ b. b.weight ≼ a.weight) (fire gate 60).1.queue) (fire gate 60).0
fire_heaviest_example = fire_heaviest Fixed-IsOrdered gate 60 (refl, (refl, tt))

overflow-lowest_example :
    All
      (λ z. (overflow drop_lowest_weight (queued 3 250 60) gate.queue).0.weight ≼ z.weight)
      (queued 3 250 60 ∷ gate.queue)
    × (((overflow drop_lowest_weight (queued 3 250 60) gate.queue).0 ≡ queued 3 250 60)
        ⊎ ((overflow drop_lowest_weight (queued 3 250 60) gate.queue).0.weight ≺ num 250))
overflow-lowest_example =
    overflow-lowest Fixed-IsOrdered (queued 3 250 60) (queued 1 300 0) (queued 2 200 5 ∷ [])
      (refl, (refl, (refl, tt)))

polls-Patient_all_example : Patient 50 60 (polls (100 ∷ 110 ∷ []) gate).queue
polls-Patient_all_example =
    polls-Patient_all 60 100 (100 ∷ 110 ∷ []) gate (omega arith) (omega arith) (omega arith)
      (omega arith, (omega arith, tt)) (omega arith)

sample_paths-IsSample_example : IsSample (num 300 ∷ num 700 ∷ num 500 ∷ []) 2 (
    sample_paths counter (num 300 ∷ num 700 ∷ num 500 ∷ []) 2 (epsilon_greedy (num 900)) learning 0)
sample_paths-IsSample_example =
    sample_paths-IsSample counter counter-IsFair (num 300 ∷ num 700 ∷ num 500 ∷ []) 2
      (epsilon_greedy (num 900)) learning 0

apply_reward_bounds_example :
    let u = apply_reward (num 400) delivered (num 600) (num 190) learning in
    let raw = raw_delta delivered (num 600) learning in
    (num 10 ≼ u.after)
    × (u.after ≼ num 1000)
    × (u.before ≡ num 400)
    × (u.applied_delta ≡ fixed_float.sub u.after (num 400))
    × (fixed_float.lt (num 0) raw ≡ false
        → (u.after ≡ clamp (fixed_float.add (num 400) raw) (num 10) (num 1000))
          × (u.capped ≡ false))
    × (num 0 ≺ raw
        → num 200 ≼ num 190
        → (u.after ≡ clamp (fixed_float.add (num 400) (num 0)) (num 10) (num 1000))
          × (u.capped ≡ true))
    × (num 0 ≺ raw
        → fixed_float.le (num 200) (num 190) ≡ false
        → (delta : Fixed) × (u.after ≡ clamp (fixed_float.add (num 400) delta) (num 10) (num 1000))
          × (delta ≼ raw)
          × (delta ≼ fixed_float.sub (num 200) (num 190))
          × (u.capped ≡ false → delta ≡ raw))
unfolding capped_delta raw_delta reward clamp
apply_reward_bounds_example =
    apply_reward_bounds Fixed-IsOrdered (num 400) delivered (num 600) (num 190) learning refl refl
      refl refl

abbrev word : ℕ → ℕ × ℕ
word r = (12345, r + 1)

next_below_uniform_example :
    (first_word 10 3 + 2 ^ 64 / 10 ≤ 2 ^ 64)
    × ((r : ℕ)
        → ((next_below word 1 r 10).0 ≡ some 3)
          ↔ ((first_word 10 3 ≤ (word r).0) × ((word r).0 < first_word 10 3 + 2 ^ 64 / 10)))
    × ((fuel r : ℕ)
        → (next_below word 1 r 10).0 ≡ none
        → (next_below word (suc fuel) r 10).0 ≡ (next_below word fuel (word r).1 10).0)
next_below_uniform_example = next_below_uniform word 10 3 (omega arith) (omega arith)

abbrev edge_config : ActivationConfig Fixed
edge_config = for_class edge

validate_nan_example :
    (validate (record edge_config { base_threshold = nan }) ≡ ok tt)
    × ((g : ActivationState Fixed) (r : ℕ)
        → g.function ≡ step
        → g.threshold ≡ nan
        → (evaluate counter g r).0 ≡ false)
validate_nan_example =
    validate_nan Fixed-IsOrdered counter edge_config nan
      (validate-for_class Fixed-IsOrdered Fixed-HasLiterals edge) refl
