-- ===== src/Activation/Batch.antt =====
-- `fire` of runtime/ntl-core/src/activation.rs: which signals it takes, and the rest that follows.
use ntl.Base.{
  ℕ, ◌+◌, ◌<◌, ◌≡◌, refl, ◌↔◌, true, List, [], ◌∷◌, arith, length, take, drop, min, All, All-drop,
  All-take, length-take, u64_max,
}
use ntl.Base.Sort.{
  IsTotal, IsSorted, sort_by, sort_by-All, sort_by-IsSorted, take-drop-IsSorted, take-IsSorted,
  length-sort_by,
}
use ntl.Float.{Float, ◌≼◌, IsNum}
use ntl.Float.Laws.{IsOrdered, lt_asymm, le_of_not_lt, le_of_lt}
use ntl.Activation.{QueuedSignal, ActivationState, fires_before, fire, in_refractory}

module _ {F : Type 0} ⦃fl : Float F⦄ (laws : IsOrdered F) where
  open laws use {le_trans, lt-eq}

  abbrev pub Weighs : QueuedSignal F → Type 0
  Weighs s = IsNum s.weight

  fires_before-heavier :
      (a b : QueuedSignal F) → Weighs a → Weighs b → fires_before a b ≡ true → b.weight ≼ a.weight
  unfolding fires_before
  fires_before-heavier a b p q h =
      ground (arith, le_of_lt laws b.weight a.weight, le_of_not_lt laws a.weight b.weight p q)

  fires_before-IsTotal : IsTotal Weighs fires_before
  unfolding fires_before
  fires_before-IsTotal = record {
    total = λ a b p q h. ground (arith, lt_asymm laws a.weight b.weight);
    trans = λ a b c p q r h k. ground (
      arith,
      lt-eq b.weight a.weight,
      lt-eq a.weight b.weight,
      lt-eq c.weight b.weight,
      lt-eq b.weight c.weight,
      lt-eq c.weight a.weight,
      lt-eq a.weight c.weight,
      le_of_lt laws c.weight b.weight,
      le_of_lt laws b.weight a.weight,
      le_of_lt laws c.weight a.weight,
      le_trans c.weight b.weight a.weight,
      le_trans a.weight c.weight b.weight,
      le_trans b.weight a.weight c.weight,
    );
  }

  weights-below :
      (a : QueuedSignal F) (xs : List (QueuedSignal F))
      → Weighs a
      → All Weighs xs
      → All (λ b. fires_before a b ≡ true) xs
      → All (λ b. b.weight ≼ a.weight) xs
  weights-below a [] p ps h = tt
  weights-below a (x ∷ xs) p (q, qs) (h, hs) =
      (fires_before-heavier a x p q h, weights-below a xs p qs hs)

  batch-below :
      (xs ys : List (QueuedSignal F))
      → All Weighs xs
      → All Weighs ys
      → All (λ a. All (λ b. fires_before a b ≡ true) ys) xs
      → All (λ a. All (λ b. b.weight ≼ a.weight) ys) xs
  batch-below [] ys p q h = tt
  batch-below (x ∷ xs) ys (p, ps) q (h, hs) = (weights-below x ys p q h, batch-below xs ys ps q hs)

  -- A fire releases as many signals as the batch size allows, in order (heavier first, then by
  -- identifier), and every signal that stays is no heavier than any that is released. All weights
  -- are numbers.
  pub fire_heaviest :
      (g : ActivationState F) (now_ns : ℕ)
      → All Weighs g.queue
      → (length (fire g now_ns).0 ≡ min g.fire_batch_size (length g.queue))
        × IsSorted fires_before (fire g now_ns).0
        × All (λ a. All (λ b. b.weight ≼ a.weight) (fire g now_ns).1.queue) (fire g now_ns).0
  unfolding fire
  fire_heaviest g now_ns ws =
      let sorted = sort_by fires_before g.queue in
      let n = min g.fire_batch_size (length sorted) in
      let order = sort_by-IsSorted fires_before-IsTotal g.queue ws in
      let numbers = sort_by-All fires_before Weighs g.queue ws in
      (
        omega (arith, length-take n sorted, length-sort_by fires_before g.queue),
        take-IsSorted fires_before n sorted order,
        batch-below (take n sorted) (drop n sorted) (All-take Weighs n sorted numbers)
            (All-drop Weighs n sorted numbers) (take-drop-IsSorted fires_before n sorted order),
      )

module _ {F : Type 0} ⦃fl : Float F⦄ where
  -- After a fire the gate is refractory for exactly the configured period, counted from the fire and
  -- cut off at the largest timestamp, and its potential starts again from zero.
  pub fire_rests :
      (g : ActivationState F) (now_ns t : ℕ)
      → ((in_refractory (fire g now_ns).1 t ≡ true)
          ↔ ((t < now_ns + g.refractory_period_ns) × (t < u64_max)))
        × ((fire g now_ns).1.potential ≡ fl.lit 0 1)
  unfolding fire in_refractory
  fire_rests g now_ns t = (ground arith, refl)
