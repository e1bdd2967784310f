-- ===== src/Activation/Drain.antt =====
-- The latency guard of runtime/ntl-core/src/activation.rs: `drain_if_starving`, polled over time.
use ntl.Base.{
  ℕ, ◌+◌, ◌-◌, ◌*◌, ◌≤◌, ◌<◌, ◌≡◌, sym, subst, inl, inr, true, false, ◌||◌, not, List, [], ◌∷◌,
  arith, length, length-drop, min, All, All-drop, any, Bool-cases,
}
use ntl.Base.Sort.{sort_by, sort_by-All, length-sort_by}
use ntl.Float.{Float}
use ntl.Activation.{
  QueuedSignal, ActivationState, fires_before, fire, in_refractory, is_starving, waited,
  drain_if_starving,
}

-- Times from a given one on, each at least a refractory period after the last.
abbrev pub Spaced : ℕ → ℕ → List ℕ → Type 0
Spaced period from [] = Unit
Spaced period from (t ∷ ts) = (from ≤ t) × Spaced period (t + period) ts

module _ {F : Type 0} ⦃fl : Float F⦄ where
  -- Polls of `drain_if_starving` at the given times, with no arrival between them.
  pub polls : List ℕ → ActivationState F → ActivationState F
  polls [] g = g
  polls (t ∷ ts) g = polls ts (drain_if_starving g t).1

  abbrev pub Patient : ℕ → ℕ → List (QueuedSignal F) → Type 0
  Patient guard t xs = All (λ s. waited guard t s ≡ false) xs

  any-false :
      (guard t : ℕ) (xs : List (QueuedSignal F))
      → any (waited guard t) xs ≡ false
      → Patient guard t xs
  any-false guard t [] h = tt
  any-false guard t (x ∷ xs) h = (ground arith, any-false guard t xs (ground arith))

  any-later :
      (guard s t : ℕ) (xs : List (QueuedSignal F))
      → s ≤ t
      → any (waited guard s) xs ≡ true
      → any (waited guard t) xs ≡ true
  unfolding waited
  any-later guard s t [] h e = absurd (cc)
  any-later guard s t (x ∷ xs) h e = ground (arith, any-later guard s t xs h)

  fire-Patient :
      (guard t now : ℕ) (g : ActivationState F)
      → Patient guard t g.queue
      → Patient guard t (fire g now).1.queue
  unfolding fire
  fire-Patient guard t now g p =
      All-drop (λ s. waited guard t s ≡ false)
        (min g.fire_batch_size (length (sort_by fires_before g.queue)))
        (sort_by fires_before g.queue)
        (sort_by-All fires_before (λ s. waited guard t s ≡ false) g.queue p)

  drain-Patient :
      (guard t now : ℕ) (g : ActivationState F)
      → Patient guard t g.queue
      → Patient guard t (drain_if_starving g now).1.queue
  unfolding drain_if_starving
  drain-Patient guard t now g p =
      elim (Bool-cases (in_refractory g now || not (is_starving g now))) [
        | inl e ↦ rw (e, drain_if_starving) p
        | inr e ↦ rw (e, drain_if_starving) (fire-Patient guard t now g p)
      ]

  polls-Patient :
      (guard t : ℕ) (ts : List ℕ) (g : ActivationState F)
      → Patient guard t g.queue
      → Patient guard t (polls ts g).queue
  unfolding polls
  polls-Patient guard t [] g p = p
  polls-Patient guard t (u ∷ us) g p = polls-Patient guard t us _ (drain-Patient guard t u g p)

  -- A poll at a time when the gate may fire and some signal has waited past the guard.
  drain-fires :
      (g : ActivationState F) (t : ℕ)
      → g.refractory_until_ns ≤ t
      → 0 < g.max_queue_latency_ns
      → any (waited g.max_queue_latency_ns t) g.queue ≡ true
      → drain_if_starving g t ≡ fire g t
  unfolding drain_if_starving is_starving
  drain-fires g t h p e = ground arith

  fire-shrinks :
      (g : ActivationState F) (t : ℕ)
      → length (fire g t).1.queue ≡ length g.queue - g.fire_batch_size
  unfolding fire
  fire-shrinks g t = omega (
    arith,
    length-drop (min g.fire_batch_size (length (sort_by fires_before g.queue)))
        (sort_by fires_before g.queue),
    length-sort_by fires_before g.queue,
  )

  empty-Patient :
      (guard t n : ℕ) (xs : List (QueuedSignal F)) → length xs ≤ n * 0 → Patient guard t xs
  empty-Patient guard t n [] h = tt
  empty-Patient guard t n (x ∷ xs) h = absurd (omega arith)

  -- Liveness of the latency guard. Poll the gate at times at which it may fire, with no arrival in
  -- between, once for each batch that the queue holds: then no signal is left that had waited past the
  -- guard at the start.
  pub polls-Patient_all :
      (t0 from : ℕ) (ts : List ℕ) (g : ActivationState F)
      → 0 < g.max_queue_latency_ns
      → t0 ≤ from
      → g.refractory_until_ns ≤ from
      → Spaced g.refractory_period_ns from ts
      → length g.queue ≤ g.fire_batch_size * length ts
      → Patient g.max_queue_latency_ns t0 (polls ts g).queue
  unfolding polls fire
  polls-Patient_all t0 from [] g p h r s n =
      empty-Patient g.max_queue_latency_ns t0 g.fire_batch_size g.queue n
  polls-Patient_all t0 from (t ∷ ts) g p h r (s, ss) n =
      elim (Bool-cases (any (waited g.max_queue_latency_ns t0) g.queue)) [
        | inl e ↦
            subst (λ q. Patient g.max_queue_latency_ns t0 (polls ts q.1).queue)
              (sym (
                drain-fires g t (omega arith) p
                  (any-later g.max_queue_latency_ns t0 t g.queue (omega arith) e)))
              (polls-Patient_all t0 (t + g.refractory_period_ns) ts (fire g t).1 p (omega arith)
                (omega arith) ss (omega (arith, fire-shrinks g t)))
        | inr e ↦
            polls-Patient g.max_queue_latency_ns t0 (t ∷ ts) g
              (any-false g.max_queue_latency_ns t0 g.queue e)
      ]
