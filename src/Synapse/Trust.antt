-- ===== src/Synapse/Trust.antt =====
-- Signature failures in runtime/ntl-core/src/synapse.rs: the count in a window, and pruning.
use ntl.Base.{
  ℕ, subst, ◌+◌, ◌-◌, ◌^◌, ◌≤◌, ◌<◌, ◌≡◌, ◌↔◌, ◌≢◌, true, List, [], ◌∷◌, arith, length, min, All,
  sym,
}
use ntl.Float.{Float}
use ntl.Store.{pruned}
use ntl.Learning.{LearningConfig, influence_window_start}
use ntl.Synapse.{Synapse, count_failure, apply_signature_failure, update_state, weight_state}

module _ {F : Type 0} ⦃fl : Float F⦄ where
  -- Signature failures one after another, at the given times.
  unfoldable pub failures : LearningConfig F → List ℕ → Synapse F → Synapse F
  failures c [] s = s
  failures c (t ∷ ts) s = failures c ts (apply_signature_failure t c s).1

  -- A failure that finds the window of the count still open.
  abbrev pub InWindow : LearningConfig F → Synapse F → ℕ → Type 0
  InWindow c s t = influence_window_start c t ≤ s.failure_window_start_ns

  update_state-counts :
      (s : Synapse F)
      → ((update_state s).signature_failures ≡ s.signature_failures)
        × ((update_state s).failure_window_start_ns ≡ s.failure_window_start_ns)
  unfolding update_state
  update_state-counts s = ground arith

  one_failure :
      (c : LearningConfig F) (t : ℕ) (s : Synapse F)
      → InWindow c s t
      → let s' = (apply_signature_failure t c s).1 in
        (s'.signature_failures ≡ min (s.signature_failures + 1) (2 ^ 32 - 1))
        × (s'.failure_window_start_ns ≡ s.failure_window_start_ns)
        × (c.signature_failure_prune_threshold ≤ min (s.signature_failures + 1) (2 ^ 32 - 1)
            → s'.state ≡ pruned)
  unfolding apply_signature_failure count_failure update_state
  one_failure c t s h = ground arith

  -- One failure or more, all while the window of the count is open, leave the synapse pruned if they
  -- and the failures counted before reach the threshold. Together they are fewer than 2^32.
  pub failures-pruned :
      (c : LearningConfig F) (ts : List ℕ) (s : Synapse F)
      → All (InWindow c s) ts
      → 0 < length ts
      → c.signature_failure_prune_threshold ≤ s.signature_failures + length ts
      → s.signature_failures + length ts < 2 ^ 32
      → (failures c ts s).state ≡ pruned
  unfolding failures
  failures-pruned c [] s a p h b = absurd (omega arith)
  failures-pruned c (t ∷ []) s (i, a) p h b = (one_failure c t s i).2 (omega arith)
  failures-pruned c (t ∷ u ∷ ts) s (i, a) p h b =
      let (n, w, q) = one_failure c t s i in
      let s' = (apply_signature_failure t c s).1 in
      failures-pruned c (u ∷ ts) s'
        (subst (λ v. All (λ x. influence_window_start c x ≤ v) (u ∷ ts)) (sym w) a) (omega arith)
        (omega (arith, n)) (omega (arith, n))

  -- One failure prunes a synapse that was not pruned exactly when its report says so, which is when the
  -- count it reports has reached the threshold.
  pub apply_signature_failure-pruned :
      (c : LearningConfig F) (now_ns : ℕ) (s : Synapse F)
      → s.state ≢ pruned
      → let (report, s') = apply_signature_failure now_ns c s in
        ((s'.state ≡ pruned) ↔ (report.pruned ≡ true))
        × ((report.pruned ≡ true)
            ↔ (c.signature_failure_prune_threshold ≤ report.failures_in_window))
        × (s'.signature_failures ≡ report.failures_in_window)
  unfolding apply_signature_failure update_state weight_state
  apply_signature_failure-pruned c now_ns s h = ground arith
