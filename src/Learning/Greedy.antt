-- ===== src/Learning/Greedy.antt =====
-- Epsilon-greedy sampling of runtime/ntl-core/src/learning.rs, and `sample_paths` for both policies.
use mathlib.Core.List.Perm
use mathlib.Core.List.{perm_middle}
use ntl.Base.{
  ℕ, suc, ◌-◌, ◌≤◌, ◌<◌, ◌≡◌, refl, sym, ap, ◌∙◌, subst, inl, inr, Bool, true, false, ◌&&◌, ◌||◌,
  Option, none, some, List, [], ◌∷◌, ◌++◌, map, Perm, arith, length, min, Bool-cases, range,
  length-range_from, All, ltb, get_elem?-some, remove_at, remove_at-perm, set, set-perm, length-set,
  take, drop, length-take, length-drop, take-append-drop, is_empty, nat_beq,
}
use ntl.Base.Sort.{sort_by, sort_by-perm, length-sort_by, sort_by-All}
use ntl.Float.{Float}
use ntl.Rng.{Rng, IsFair, Drawn}
use ntl.Learning.{
  Selection, score_at, selections, softmax_sample, substitute, greedy_indices,
  epsilon_greedy_sample, sample_by, sample_paths, best_first, higher_first, ranks_before, argmax,
  ExplorationPolicy, softmax, epsilon_greedy, LearningConfig, effective_temperature,
}
use ntl.Learning.Sampling.{Draws, softmax_rounds-Draws}

module _ {R : Type 0} where
  -- Picks of the greedy policy: the indices chosen, as many as asked for, are the candidates without
  -- some rest.
  unfoldable Picks : ℕ → List ℕ → Option (List ℕ × Option ℕ × R) → Type 0
  Picks k candidates o =
      (chosen : List ℕ) × (marked : Option ℕ) × (r : R) × (o ≡ some (chosen, marked, r))
      × (length chosen ≡ k)
      × ((left : List ℕ) × Perm (chosen ++ left) candidates)

module _ {F : Type 0} where
  abbrev pub indices : List (Selection F) → List ℕ
  indices out = map (λ s. s.index) out

module _ {F R : Type 0} ⦃fl : Float F⦄ (rng : Rng R F) (fair : IsFair rng) where
  -- The substitution, when the pool is not empty and the draw was from the pool.
  substitute-Picks :
      (chosen pool : List ℕ) (k : ℕ) (o : Option ℕ) (r : R)
      → 0 < k
      → length chosen ≡ k
      → 0 < length pool
      → Drawn (length pool) o
      → Picks k (chosen ++ pool) (substitute rng chosen pool k (o, r))
  unfolding substitute Picks
  substitute-Picks chosen pool k none r p n q d = (chosen, none, r, refl, n, (pool, Perm.rfl))
  substitute-Picks chosen pool k (some i) r p n q d =
      let (x, e) = get_elem?-some pool i d in
      let (old, w) = set-perm chosen (k - 1) x (omega arith) in
      let rest = remove_at i pool in
      (
        set chosen (k - 1) x,
        some x,
        r,
        rw (substitute, e) refl,
        omega (arith, length-set chosen (k - 1) x),
        (
          old ∷ rest,
          Perm.trans (perm_middle (set chosen (k - 1) x) rest) (
              Perm.trans (Perm.append_right rest w) (
                Perm.trans (Perm.symm (perm_middle chosen rest))
                  (Perm.append_left chosen (Perm.symm (remove_at-perm i pool x e))))),
        ),
      )

  greedy_indices-Picks :
      (scores : List F) (k : ℕ) (epsilon : F) (r : R)
      → 0 < k
      → k ≤ length scores
      → Picks k (range (length scores)) (greedy_indices rng scores k epsilon r)
  unfolding greedy_indices Picks
  greedy_indices-Picks scores k epsilon r p h =
      let order = sort_by (ranks_before scores) (range (length scores)) in
      let n = length-sort_by (ranks_before scores) (range (length scores)) in
      let m = length-range_from 0 (length scores) in
      let whole : Perm (take k order ++ drop k order) (range (length scores)) =
        subst (λ l. Perm l (range (length scores))) (sym (take-append-drop k order))
          (sort_by-perm (ranks_before scores) (range (length scores))) in
      let s = rng.next_f32 r in
      elim (Bool-cases (fl.lt s.0 epsilon && ltb k (length order))) [
        | inl e ↦
            let q : 0 < length (drop k order) = ground (arith, length-drop k order) in
            let draw = rng.next_below s.1 (length (drop k order)) in
            let (chosen, marked, r', f, l, (left, t)) =
              substitute-Picks (take k order) (drop k order) k draw.0 draw.1 p
                (omega (arith, length-take k order, n, m)) q
                (fair.below s.1 (length (drop k order))) in
            (chosen, marked, r', rw e f, l, (left, Perm.trans t whole))
        | inr e ↦ (
          take k order,
          none,
          s.1,
          rw e refl,
          omega (arith, length-take k order, n, m),
          (drop k order, whole),
        )
      ]

module _ {F : Type 0} ⦃fl : Float F⦄ where
  selections-indices :
      (scores : List F) (m : Option ℕ) (b : Bool) (is : List ℕ)
      → indices (selections scores m b is) ≡ is
  selections-indices scores m b [] = refl
  selections-indices scores m b (i ∷ is) = ap (◌∷◌ i) (selections-indices scores m b is)

  selections-length :
      (scores : List F) (m : Option ℕ) (b : Bool) (is : List ℕ)
      → length (selections scores m b is) ≡ length is
  selections-length scores m b [] = refl
  selections-length scores m b (i ∷ is) = ap suc (selections-length scores m b is)

  selections-scores :
      (scores : List F) (m : Option ℕ) (b : Bool) (is : List ℕ)
      → All (λ s. s.score ≡ score_at scores s.index) (selections scores m b is)
  selections-scores scores m b [] = tt
  selections-scores scores m b (i ∷ is) = (refl, selections-scores scores m b is)

  -- A sample: as many selections as asked for, of distinct paths, each with the score of its path.
  unfoldable pub IsSample : {R : Type 0} → List F → ℕ → Option (List (Selection F) × R) → Type 0
  IsSample {R} scores k o =
      (out : List (Selection F)) × (r : R) × (o ≡ some (out, r))
      × (length out ≡ k)
      × All (λ s. s.score ≡ score_at scores s.index) out
      × ((left : List ℕ) × Perm (indices out ++ left) (range (length scores)))

  selections-IsSample :
      {R : Type 0} (scores : List F) (m : Option ℕ) (b : Bool) (is left : List ℕ) (k : ℕ) (r : R)
      → length is ≡ k
      → Perm (is ++ left) (range (length scores))
      → IsSample scores k (some (selections scores m b is, r))
  unfolding IsSample
  selections-IsSample scores m b is left k r n p = (
    selections scores m b is,
    r,
    refl,
    selections-length scores m b is ∙ n,
    selections-scores scores m b is,
    (
      left,
      subst (λ l. Perm (l ++ left) (range (length scores))) (sym (selections-indices scores m b is))
          p,
    ),
  )

  best_first-IsSample :
      {R : Type 0} (scores : List F) (k : ℕ) (o : Option (List (Selection F) × R))
      → IsSample scores k o
      → IsSample scores k (best_first o)
  unfolding IsSample
  best_first-IsSample scores k o (out, r, e, n, a, (left, p)) = (
    sort_by higher_first out,
    r,
    rw e refl,
    length-sort_by higher_first out ∙ n,
    sort_by-All higher_first (λ s. s.score ≡ score_at scores s.index) out a,
    (
      left,
      Perm.trans (Perm.append_right left (Perm.map (λ s. s.index) (sort_by-perm higher_first out)))
          p,
    ),
  )

module _ {F R : Type 0} ⦃fl : Float F⦄ (rng : Rng R F) (fair : IsFair rng) where
  softmax_sample-IsSample :
      (scores : List F) (k : ℕ) (temperature : F) (r : R)
      → IsSample scores (min k (length scores)) (softmax_sample rng scores k temperature r)
  unfolding softmax_sample Draws
  softmax_sample-IsSample scores k temperature r =
      let (chosen, left, r', e, n, p) =
        softmax_rounds-Draws rng fair (min k (length scores)) scores temperature
          (range (length scores)) r (omega (arith, length-range_from 0 (length scores))) in
      rw (softmax_sample, e)
        (selections-IsSample scores (argmax scores) false chosen left (min k (length scores)) r' n
          p)

  epsilon_greedy_sample-IsSample :
      (scores : List F) (k : ℕ) (epsilon : F) (r : R)
      → 0 < min k (length scores)
      → IsSample scores (min k (length scores)) (epsilon_greedy_sample rng scores k epsilon r)
  unfolding epsilon_greedy_sample Picks
  epsilon_greedy_sample-IsSample scores k epsilon r h =
      let (chosen, marked, r', e, n, (left, p)) =
        greedy_indices-Picks rng fair scores (min k (length scores)) epsilon r h (omega arith) in
      rw (epsilon_greedy_sample, e)
        (selections-IsSample scores marked true chosen left (min k (length scores)) r' n p)

  sample_by-IsSample :
      (policy : ExplorationPolicy F) (scores : List F) (k : ℕ) (c : LearningConfig F) (r : R)
      → 0 < min k (length scores)
      → IsSample scores (min k (length scores)) (sample_by rng policy scores k c r)
  unfolding sample_by
  sample_by-IsSample softmax scores k c r h =
      softmax_sample-IsSample scores k (effective_temperature c) r
  sample_by-IsSample (epsilon_greedy epsilon) scores k c r h =
      epsilon_greedy_sample-IsSample scores k epsilon r h

  nothing :
      (scores : List F) (k : ℕ) (r : R)
      → (is_empty scores || nat_beq k 0) ≡ true
      → IsSample scores (min k (length scores)) (some ([], r))
  unfolding IsSample
  nothing [] k r e = ([], r, refl, omega arith, tt, ([], Perm.rfl))
  nothing (s ∷ ss) k r e = ([], r, refl, ground arith, tt, (range (suc (length ss)), Perm.rfl))

  some_paths :
      (scores : List F) (k : ℕ)
      → (is_empty scores || nat_beq k 0) ≡ false
      → 0 < min k (length scores)
  some_paths [] k e = absurd (cc)
  some_paths (s ∷ ss) k e = ground arith

  -- With a generator that keeps to its bound, sampling always returns, under both policies, `min k n`
  -- selections among n scored paths. Their indices, with those of the paths left out, are the numbers
  -- below n, each once; and each carries the score of its path.
  pub sample_paths-IsSample :
      (scores : List F) (k : ℕ) (policy : ExplorationPolicy F) (c : LearningConfig F) (r : R)
      → IsSample scores (min k (length scores)) (sample_paths rng scores k policy c r)
  unfolding sample_paths
  sample_paths-IsSample scores k policy c r = elim (Bool-cases (is_empty scores || nat_beq k 0)) [
    | inl e ↦ rw (e, sample_paths) (nothing scores k r e)
    | inr e ↦
        rw (e, sample_paths)
          (best_first-IsSample scores (min k (length scores)) (sample_by rng policy scores k c r)
            (sample_by-IsSample policy scores k c r (some_paths scores k e)))
  ]
