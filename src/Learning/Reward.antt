-- ===== src/Learning/Reward.antt =====
-- The learning rule of runtime/ntl-core/src/learning.rs: a weight update, the cap on influence, decay, and the
-- budget of outbound weight.
use ntl.Base.{
  ℕ, ◌≤◌, ◌≡◌, refl, ap, true, false, ◌||◌, none, some, List, [], ◌∷◌, map, arith, length, All, ◌-◌,
  length-map,
}
use ntl.Float.{Float, ◌≼◌, ◌≺◌, IsNum, fmax, clamp}
use ntl.Float.Laws.{IsOrdered, clamp_bounds, fmax-ge_right, le_of_lt, le_of_not_lt}
use ntl.Store.{Outcome}
use ntl.Learning.{
  LearningConfig, capped_delta, raw_delta, apply_reward, decayed_weight, sum_from,
  normalize_outbound,
}

module _ {F : Type 0} ⦃fl : Float F⦄ (laws : IsOrdered F) where
  -- The delta that an outcome moves a weight by, after the cap on the peer's influence.
  abbrev pub delta_of : Outcome → F → F → LearningConfig F → F
  delta_of outcome signal_weight used c =
      (capped_delta (raw_delta outcome signal_weight c) used c.influence_cap_per_peer).0

  -- The cap on influence: a positive delta is cut to what the peer has left in its window, to nothing
  -- once the window is used up; a delta that is not positive passes unchanged and is never reported as
  -- capped. The delta and what is left are numbers.
  pub capped_delta_bounds :
      (raw used cap : F)
      → IsNum raw
      → IsNum (fl.sub cap used)
      → let (delta, capped) = capped_delta raw used cap in
        (fl.lt (fl.lit 0 1) raw ≡ false → (delta ≡ raw) × (capped ≡ false))
        × (fl.lit 0 1 ≺ raw → cap ≼ used → (delta ≡ fl.lit 0 1) × (capped ≡ true))
        × (fl.lit 0 1 ≺ raw → fl.le cap used ≡ false → (delta ≼ raw) × (delta ≼ fl.sub cap used))
        × (fl.lit 0 1 ≺ raw → fl.le cap used ≡ false → capped ≡ false → delta ≡ raw)
  unfolding capped_delta
  capped_delta_bounds raw used cap n m =
      ground (arith, le_of_lt laws (fl.sub cap used) raw, le_of_not_lt laws (fl.sub cap used) raw)

  pub apply_reward_bounds :
      (weight : F) (outcome : Outcome) (signal_weight used : F) (c : LearningConfig F)
      → IsNum (fl.add weight (delta_of outcome signal_weight used c))
      → IsNum (raw_delta outcome signal_weight c)
      → IsNum (fl.sub c.influence_cap_per_peer used)
      → c.min_weight ≼ c.max_weight
      → let u = apply_reward weight outcome signal_weight used c in
        let raw = raw_delta outcome signal_weight c in
        let cap = c.influence_cap_per_peer in
        (c.min_weight ≼ u.after)
        × (u.after ≼ c.max_weight)
        × (u.before ≡ weight)
        × (u.applied_delta ≡ fl.sub u.after weight)
        × (fl.lt (fl.lit 0 1) raw ≡ false
            → (u.after ≡ clamp (fl.add weight raw) c.min_weight c.max_weight) × (u.capped ≡ false))
        × (fl.lit 0 1 ≺ raw
            → cap ≼ used
            → (u.after ≡ clamp (fl.add weight (fl.lit 0 1)) c.min_weight c.max_weight)
              × (u.capped ≡ true))
        × (fl.lit 0 1 ≺ raw
            → fl.le cap used ≡ false
            → (delta : F) × (u.after ≡ clamp (fl.add weight delta) c.min_weight c.max_weight)
              × (delta ≼ raw)
              × (delta ≼ fl.sub cap used)
              × (u.capped ≡ false → delta ≡ raw))
  unfolding apply_reward
  apply_reward_bounds weight outcome signal_weight used c n m k h =
      let raw = raw_delta outcome signal_weight c in
      let (low, high) =
        clamp_bounds laws (fl.add weight (delta_of outcome signal_weight used c)) c.min_weight
          c.max_weight n h in
      let (loss, spent, left, whole) = capped_delta_bounds raw used c.influence_cap_per_peer m k in
      let moved = λ (d : F). clamp (fl.add weight d) c.min_weight c.max_weight in
      (
        low,
        high,
        refl,
        refl,
        (λ p. let (e, q) = loss p in (ap moved e, q)),
        (λ p q. let (e, f) = spent p q in (ap moved e, f)),
        (λ p q.
            let (d, e) = left p q in
            (delta_of outcome signal_weight used c, refl, d, e, whole p q)),
      )

  -- Decay never takes a weight that is at or above the floor below it, and does nothing when no time
  -- has passed since the last activity. The floor is a number.
  pub decayed_weight_floor :
      (weight : F) (last now_ns : ℕ) (c : LearningConfig F)
      → c.min_weight ≼ weight
      → (c.min_weight ≼ decayed_weight weight last now_ns c)
        × (now_ns ≤ last → decayed_weight weight last now_ns c ≡ weight)
  unfolding decayed_weight
  decayed_weight_floor weight last now_ns c h = ground (
    arith,
    laws.refl_of_le c.min_weight weight h,
    fmax-ge_right laws
        (fl.mul weight (
          fl.exp2
            (fl.div (fl.neg (fl.of_ratio (now_ns - last) 3600000000000)) c.decay_half_life_hours)))
        c.min_weight,
  )

  floored :
      (c : LearningConfig F) (factor : F) (ws : List F)
      → IsNum c.min_weight
      → All (λ w. c.min_weight ≼ w) (map (λ w. fmax (fl.mul w factor) c.min_weight) ws)
  floored c factor [] n = tt
  floored c factor (w ∷ ws) n =
      (fmax-ge_right laws (fl.mul w factor) c.min_weight n, floored c factor ws n)

  -- Rescaling happens exactly when the weights sum above both the budget and zero. It keeps the number
  -- of weights, and leaves each at or above the floor, which is a number.
  pub normalize_outbound_lem :
      (ws : List F) (c : LearningConfig F)
      → IsNum c.min_weight
      → let total = sum_from (fl.lit 0 1) ws in
        let over = fl.le total c.max_total_outbound_weight || fl.le total (fl.lit 0 1) in
        (over ≡ true → normalize_outbound ws c ≡ none)
        × (over ≡ false
            → (factor : F) × (out : List F) × (normalize_outbound ws c ≡ some (factor, out))
              × (length out ≡ length ws)
              × All (λ w. c.min_weight ≼ w) out)
  unfolding normalize_outbound
  normalize_outbound_lem ws c n =
      let factor = fl.div c.max_total_outbound_weight (sum_from (fl.lit 0 1) ws) in
      (
        (λ e. rw e refl),
        λ e. (
          factor,
          map (λ w. fmax (fl.mul w factor) c.min_weight) ws,
          rw e refl,
          length-map (λ w. fmax (fl.mul w factor) c.min_weight) ws,
          floored c factor ws n,
        ),
      )
