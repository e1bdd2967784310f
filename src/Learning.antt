-- ===== src/Learning.antt =====
-- runtime/ntl-core/src/learning.rs: the routing model, which learns weights from outcomes and samples
-- among scored paths.
pub mod Config
pub mod Reward
pub mod Sampling
pub mod Greedy
use ntl.Base.{
  ℕ, zero, suc, ◌+◌, ◌-◌, ◌*◌, ◌≤◌, Bool, true, false, not, ◌&&◌, ◌||◌, Option, none, some, List,
  [], ◌∷◌, ◌++◌, map, if◌then◌else◌, ltb, leb, nat_beq, min, length, take, drop, get_elem?,
  is_empty, saturating_mul, saturating_sub, Result, ok, err, reject_if, swap_remove, set, range,
  get_or,
}
use ntl.Base.Sort.{sort_by}
use ntl.Float.{Float, fmax, clamp}
use ntl.Rng.{Rng}
use ntl.Store.{Outcome, reward}

pub record LearningConfig (F : Type 0) : Type 0 where
  pub enabled : Bool
  pub learning_rate : F
  pub decay_half_life_hours : F
  pub exploration_temperature : F
  pub min_temperature : F
  pub receipt_window_secs : ℕ
  pub min_weight : F
  pub max_weight : F
  pub max_total_outbound_weight : F
  pub influence_cap_per_peer : F
  pub influence_window_secs : ℕ
  pub signature_failure_penalty : F
  pub signature_failure_prune_threshold : ℕ
  pub signature_failure_cooldown_secs : ℕ

abbrev pub nanos_per_sec : ℕ
nanos_per_sec = 1000000000

abbrev pub nanos_per_hour : ℕ
nanos_per_hour = 3600 * nanos_per_sec

pub record WeightUpdate (F : Type 0) : Type 0 where
  pub before : F
  pub after : F
  pub applied_delta : F
  pub capped : Bool

pub data ExplorationPolicy (F : Type 0) : Type 0 where
  softmax : ExplorationPolicy F
  epsilon_greedy : F → ExplorationPolicy F

pub record Selection (F : Type 0) : Type 0 where
  pub index : ℕ
  pub score : F
  pub explored : Bool

module _ {F : Type 0} where
  unfoldable pub influence_window_start : LearningConfig F → ℕ → ℕ
  influence_window_start c now_ns =
      saturating_sub now_ns (saturating_mul c.influence_window_secs nanos_per_sec)

  unfoldable pub receipt_deadline : LearningConfig F → ℕ → ℕ
  receipt_deadline c now_ns =
      saturating_sub now_ns (saturating_mul c.receipt_window_secs nanos_per_sec)

abbrev pub some_eq : ℕ → Option ℕ → Bool
some_eq i none = false
some_eq i (some j) = nat_beq i j

abbrev pub or_zero : Option ℕ → ℕ
or_zero none = 0
or_zero (some k) = k

module _ {F : Type 0} ⦃fl : Float F⦄ where
  unfoldable pub effective_temperature : LearningConfig F → F
  unfolding fmax
  effective_temperature c = fmax c.exploration_temperature c.min_temperature

  -- The delta after the influence cap, and whether the cap reduced it.
  unfoldable pub capped_delta : F → F → F → F × Bool
  capped_delta raw used cap =
      if fl.lt (fl.lit 0 1) raw && fl.le cap used
      then (fl.lit 0 1, true)
      else if fl.lt (fl.lit 0 1) raw
      then (let headroom = fl.sub cap used in
          if fl.lt headroom raw then (headroom, true) else (raw, false))
      else (raw, false)

  unfoldable pub raw_delta : Outcome → F → LearningConfig F → F
  raw_delta outcome signal_weight c =
      fl.mul (fl.mul c.learning_rate (reward outcome))
        (clamp signal_weight (fl.lit 0 1) (fl.lit 1 1))

  unfoldable pub apply_reward : F → Outcome → F → F → LearningConfig F → WeightUpdate F
  apply_reward weight outcome signal_weight used c =
      let (delta, capped) =
        capped_delta (raw_delta outcome signal_weight c) used c.influence_cap_per_peer in
      let after = clamp (fl.add weight delta) c.min_weight c.max_weight in
      record {
        before = weight;
        after = after;
        applied_delta = fl.sub after weight;
        capped = capped;
      }

  unfoldable pub apply_signature_penalty : F → LearningConfig F → F
  apply_signature_penalty weight c =
      fmax (fl.mul weight (fl.sub (fl.lit 1 1) c.signature_failure_penalty)) c.min_weight

  unfoldable pub apply_affinity_update : F → Outcome → LearningConfig F → F
  apply_affinity_update affinity outcome c =
      clamp (fl.add affinity (fl.mul c.learning_rate (reward outcome))) (fl.lit 0 1) (fl.lit 1 1)

  unfoldable pub decayed_weight : F → ℕ → ℕ → LearningConfig F → F
  decayed_weight weight last_active_ns now_ns c =
      if leb now_ns last_active_ns
      then weight
      else (let elapsed_hours = fl.of_ratio (now_ns - last_active_ns) nanos_per_hour in
          fmax (fl.mul weight (fl.exp2 (fl.div (fl.neg elapsed_hours) c.decay_half_life_hours)))
            c.min_weight)

  -- `iter().sum()`
  unfoldable pub sum_from : F → List F → F
  sum_from acc [] = acc
  sum_from acc (x ∷ xs) = sum_from (fl.add acc x) xs

  -- The rescaled weights with the factor, or nothing when the budget is kept.
  unfoldable pub normalize_outbound : List F → LearningConfig F → Option (F × List F)
  unfolding sum_from
  normalize_outbound weights c =
      let total = sum_from (fl.lit 0 1) weights in
      if fl.le total c.max_total_outbound_weight || fl.le total (fl.lit 0 1)
      then none
      else (let factor = fl.div c.max_total_outbound_weight total in
          some (factor, map (λ w. fmax (fl.mul w factor) c.min_weight) weights))

  -- The fold of `argmax`: a later score wins unless the best so far is at least as large.
  unfoldable pub argmax_from : ℕ → Option (ℕ × F) → List F → Option (ℕ × F)
  argmax_from i best [] = best
  argmax_from i none (s ∷ ss) = argmax_from (i + 1) (some (i, s)) ss
  argmax_from i (some (j, b)) (s ∷ ss) =
      argmax_from (i + 1) (if fl.le s b then some (j, b) else some (i, s)) ss

  abbrev pub index_of : Option (ℕ × F) → Option ℕ
  index_of none = none
  index_of (some (i, s)) = some i

  unfoldable pub argmax : List F → Option ℕ
  unfolding argmax_from
  argmax scores = index_of (argmax_from 0 none scores)

  -- The scan for the slot whose accumulated weight reaches the target; the last slot if none does.
  unfoldable pub scan_slot : F → F → ℕ → ℕ → List F → ℕ
  scan_slot target acc slot last [] = last
  scan_slot target acc slot last (w ∷ ws) =
      let acc' = fl.add acc w in
      if fl.le target acc' then slot else scan_slot target acc' (slot + 1) last ws

  abbrev pub higher_first : Selection F → Selection F → Bool
  higher_first a b = not (fl.lt a.score b.score)

  unfoldable pub max_from : F → List F → F
  max_from acc [] = acc
  max_from acc (x ∷ xs) = max_from (fmax acc x) xs

  -- `scores[i]`; the indices at hand are always within the slice, where the default plays no part.
  abbrev pub score_at : List F → ℕ → F
  score_at scores i = get_or scores i (fl.lit 0 1)

  -- The order of the candidates under `EpsilonGreedy`.
  abbrev pub ranks_before : List F → ℕ → ℕ → Bool
  ranks_before scores a b =
      if fl.lt (score_at scores b) (score_at scores a)
      then true
      else if fl.lt (score_at scores a) (score_at scores b)
      then false
      else leb a b

  abbrev pub selections : List F → Option ℕ → Bool → List ℕ → List (Selection F)
  selections scores marked polarity [] = []
  selections scores marked polarity (i ∷ is) =
      record {
        index = i;
        score = score_at scores i;
        explored = if some_eq i marked then polarity else not polarity;
      }
      ∷ selections scores marked polarity is

  abbrev pub best_first :
      {R : Type 0} → Option (List (Selection F) × R) → Option (List (Selection F) × R)
  best_first none = none
  best_first (some (out, r)) = some (sort_by higher_first out, r)

  module _ {R : Type 0} (rng : Rng R F) where
    -- The slot to take among the remaining candidates: weighted by softmax, or uniform where the
    -- distribution is degenerate.
    unfoldable pub pick_slot : List F → F → List ℕ → R → ℕ × R
    unfolding sum_from scan_slot max_from
    pick_slot scores temperature remaining r =
        let max_score = max_from fl.neg_infinity (map (score_at scores) remaining) in
        let weights =
          map (λ i. fl.exp (fl.div (fl.sub (score_at scores i) max_score) temperature)) remaining in
        let total = sum_from (fl.lit 0 1) weights in
        if fl.lt (fl.lit 0 1) total && fl.is_finite total
        then (let (draw, r') = rng.next_f32 r in
            (scan_slot (fl.mul draw total) (fl.lit 0 1) 0 (length weights - 1) weights, r'))
        else (let (k, r') = rng.next_below r (length remaining) in (or_zero k, r'))

    -- The rounds of `softmax_sample`: the indices chosen, in order, and those that remain. `none` is
    -- the panic of `swap_remove` out of bounds.
    unfoldable pub softmax_rounds : ℕ → List F → F → List ℕ → R → Option (List ℕ × List ℕ × R)
    softmax_rounds zero scores temperature remaining r = some ([], remaining, r)
    softmax_rounds (suc k) scores temperature [] r = some ([], [], r)
    softmax_rounds (suc k) scores temperature (i ∷ is) r =
        let (pick, r') = pick_slot scores temperature (i ∷ is) r in
        elim (swap_remove pick (i ∷ is)) [
          | none ↦ none
          | some (index, rest) ↦ elim (softmax_rounds k scores temperature rest r') [
            | none ↦ none
            | some (chosen, left, r'') ↦ some (index ∷ chosen, left, r'')
          ]
        ]

    -- Whatever is not the best score is marked as explored.
    unfoldable pub softmax_sample : List F → ℕ → F → R → Option (List (Selection F) × R)
    softmax_sample scores k temperature r =
        elim (softmax_rounds (min k (length scores)) scores temperature (range (length scores)) r) [
          | none ↦ none
          | some (chosen, left, r') ↦ some (selections scores (argmax scores) false chosen, r')
        ]

    -- The substitution of `epsilon_greedy_sample`: the weakest pick gives way to one from the pool.
    unfoldable pub substitute : List ℕ → List ℕ → ℕ → Option ℕ × R → Option (List ℕ × Option ℕ × R)
    substitute chosen pool k (none, r) = some (chosen, none, r)
    substitute chosen pool k (some pick, r) = elim (get_elem? pool pick) [
      | none ↦ none
      | some swapped_in ↦ some (set chosen (k - 1) swapped_in, some swapped_in, r)
    ]

    unfoldable pub greedy_indices : List F → ℕ → F → R → Option (List ℕ × Option ℕ × R)
    unfolding substitute
    greedy_indices scores k epsilon r =
        let order = sort_by (ranks_before scores) (range (length scores)) in
        let (draw, r') = rng.next_f32 r in
        if fl.lt draw epsilon && ltb k (length order)
        then substitute (take k order) (drop k order) k (rng.next_below r' (length (drop k order)))
        else some (take k order, none, r')

    unfoldable pub epsilon_greedy_sample : List F → ℕ → F → R → Option (List (Selection F) × R)
    epsilon_greedy_sample scores k epsilon r =
        elim (greedy_indices scores (min k (length scores)) epsilon r) [
          | none ↦ none
          | some (chosen, marked, r') ↦ some (selections scores marked true chosen, r')
        ]

    unfoldable pub sample_by :
        ExplorationPolicy F → List F → ℕ → LearningConfig F → R → Option (List (Selection F) × R)
    sample_by softmax scores k c r = softmax_sample scores k (effective_temperature c) r
    sample_by (epsilon_greedy epsilon) scores k c r = epsilon_greedy_sample scores k epsilon r

    unfoldable pub sample_paths :
        List F → ℕ → ExplorationPolicy F → LearningConfig F → R → Option (List (Selection F) × R)
    unfolding sample_by
    sample_paths scores k policy c r =
        if is_empty scores || nat_beq k 0
        then some ([], r)
        else best_first (sample_by policy scores k c r)
