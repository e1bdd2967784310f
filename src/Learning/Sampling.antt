-- ===== src/Learning/Sampling.antt =====
-- Softmax sampling of runtime/ntl-core/src/learning.rs: its slots and its rounds.
use mathlib.Core.List.Perm
use ntl.Base.{
  ℕ, zero, suc, ◌+◌, ◌-◌, ◌≤◌, ◌<◌, ◌≡◌, refl, ap, inl, inr, ◌&&◌, Option, none, some, List, [],
  ◌∷◌, ◌++◌, map, Perm, arith, length, Bool-cases, swap_remove-perm, length-map,
}
use ntl.Float.{Float}
use ntl.Rng.{Rng, IsFair, Drawn}
use ntl.Learning.{or_zero, sum_from, max_from, score_at, scan_slot, pick_slot, softmax_rounds}

module _ {F : Type 0} ⦃fl : Float F⦄ where
  scan_slot-le :
      (target acc : F) (slot last : ℕ) (ws : List F)
      → slot + length ws ≤ suc last
      → scan_slot target acc slot last ws ≤ last
  unfolding scan_slot
  scan_slot-le target acc slot last [] h = omega arith
  scan_slot-le target acc slot last (w ∷ ws) h =
      ground (arith, scan_slot-le target (fl.add acc w) (slot + 1) last ws)

Drawn-or_zero : (n : ℕ) (o : Option ℕ) → 0 < n → Drawn n o → or_zero o < n
Drawn-or_zero n none p d = absurd (omega arith)
Drawn-or_zero n (some k) p d = d

module _ {F R : Type 0} ⦃fl : Float F⦄ (rng : Rng R F) (fair : IsFair rng) where
  -- The slot of a round is within the candidates that remain.
  pick_slot-lt :
      (scores : List F) (temperature : F) (i : ℕ) (is : List ℕ) (r : R)
      → (pick_slot rng scores temperature (i ∷ is) r).0 < suc (length is)
  unfolding pick_slot
  pick_slot-lt scores temperature i is r =
      let max_score = max_from fl.neg_infinity (map (score_at scores) (i ∷ is)) in
      let weights =
        map (λ j. fl.exp (fl.div (fl.sub (score_at scores j) max_score) temperature)) (i ∷ is) in
      let total = sum_from (fl.lit 0 1) weights in
      let n =
        length-map (λ j. fl.exp (fl.div (fl.sub (score_at scores j) max_score) temperature))
          (i ∷ is) in
      elim (Bool-cases (fl.lt (fl.lit 0 1) total && fl.is_finite total)) [
        | inl e ↦ rw e (
            omega (
              arith,
              n,
              scan_slot-le (fl.mul (rng.next_f32 r).0 total) (fl.lit 0 1) 0 (length weights - 1)
                  weights (omega (arith, n)),
            ))
        | inr e ↦ rw e (
            Drawn-or_zero (length (i ∷ is)) (rng.next_below r (length (i ∷ is))).0 (omega arith)
              (fair.below r (length (i ∷ is))))
      ]

  -- The indices chosen and the rest, when there are as many candidates as rounds.
  unfoldable pub Draws : ℕ → List ℕ → Option (List ℕ × List ℕ × R) → Type 0
  Draws k remaining o =
      (chosen : List ℕ) × (left : List ℕ) × (r : R) × (o ≡ some (chosen, left, r))
      × (length chosen ≡ k)
      × Perm (chosen ++ left) remaining

  pub softmax_rounds-Draws :
      (k : ℕ) (scores : List F) (temperature : F) (remaining : List ℕ) (r : R)
      → k ≤ length remaining
      → Draws k remaining (softmax_rounds rng k scores temperature remaining r)
  unfolding softmax_rounds Draws
  softmax_rounds-Draws zero scores temperature remaining r h =
      ([], remaining, r, refl, refl, Perm.rfl)
  softmax_rounds-Draws (suc k) scores temperature [] r h = absurd (omega arith)
  softmax_rounds-Draws (suc k) scores temperature (i ∷ is) r h =
      let slot = pick_slot rng scores temperature (i ∷ is) r in
      let (x, rest, e, p, m) =
        swap_remove-perm slot.0 (i ∷ is) (pick_slot-lt scores temperature i is r) in
      let (chosen, left, r', f, n, q) =
        softmax_rounds-Draws k scores temperature rest slot.1 (omega arith) in
      (x ∷ chosen, left, r', rw (e, softmax_rounds, f) refl, ap suc n, Perm.trans (Perm.cons x q) p)
