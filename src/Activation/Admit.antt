-- ===== src/Activation/Admit.antt =====
-- `admit` of runtime/ntl-core/src/activation.rs as a whole: the invariant of the gate, where signals go, and what is
-- reported.
use mathlib.Core.List.Perm
use mathlib.Core.List.{append_assoc, perm_append_singleton, perm_append_comm}
use ntl.Base.{
  ℕ, ◌≤◌, ◌<◌, ◌≡◌, subst, ◌⊎◌, inl, inr, ◌||◌, Option, none, some, List, [], ◌∷◌, ◌++◌, Perm,
  arith, length, length-append, length-drop, take-append-drop, min, Bool-cases, ltb, add64,
}
use ntl.Base.Sort.{sort_by, sort_by-perm, length-sort_by}
use ntl.Float.{Float, ◌≼◌}
use ntl.Float.Laws.{IsOrdered, fmin-le_right}
use ntl.Rng.{Rng}
use ntl.Delivery.{queue_full}
use ntl.Activation.{
  QueuedSignal, ActivationState, overflow, enqueue, fires_before, fire, in_refractory, evaluate,
  is_starving, release, charge, retune, recompute_threshold, admit,
}
use ntl.Activation.Queue.{overflow-Conserves}

perm_rotate {ℓ} : {A : Type ℓ} (xs ys zs : List A) → Perm (xs ++ ys ++ zs) (ys ++ (xs ++ zs))
perm_rotate xs ys zs =
    subst (Perm (xs ++ ys ++ zs)) (append_assoc ys xs zs)
      (Perm.append_right zs (perm_append_comm xs ys))

module _ {F : Type 0} where
  abbrev pub of_option : Option (QueuedSignal F) → List (QueuedSignal F)
  of_option none = []
  of_option (some s) = s ∷ []

module _ {F : Type 0} ⦃fl : Float F⦄ where
  -- The batch and the queue that stays are the old queue, rearranged.
  fire-perm :
      (g : ActivationState F) (now_ns : ℕ)
      → Perm ((fire g now_ns).0 ++ (fire g now_ns).1.queue) g.queue
  unfolding fire
  fire-perm g now_ns =
      let sorted = sort_by fires_before g.queue in
      rw (take-append-drop (min g.fire_batch_size (length sorted)) sorted)
        (sort_by-perm fires_before g.queue)

  enqueue-perm :
      (g : ActivationState F) (signal : QueuedSignal F)
      → Perm (of_option (enqueue g signal).1 ++ (enqueue g signal).0.queue) (signal ∷ g.queue)
  unfolding enqueue
  enqueue-perm g signal = elim (Bool-cases (ltb (length g.queue) g.max_queue_depth)) [
    | inl e ↦ rw (e, enqueue) (perm_append_singleton signal g.queue)
    | inr e ↦ rw (e, enqueue) (overflow-Conserves g.overflow_policy signal g.queue).0
  ]

  retune_queue : (g : ActivationState F) → (retune g).queue ≡ g.queue
  unfolding recompute_threshold
  retune_queue g = ground arith

  module _ {R : Type 0} (rng : Rng R F) where
    release-perm :
        (g : ActivationState F) (now_ns : ℕ) (r : R)
        → Perm ((release rng g now_ns r).0 ++ (release rng g now_ns r).1.queue) g.queue
    unfolding release
    release-perm g now_ns r = elim (Bool-cases (in_refractory g now_ns)) [
      | inl e ↦ rw (e, release) Perm.rfl
      | inr e ↦ elim (Bool-cases ((evaluate rng g r).0 || is_starving g now_ns)) [
        | inl f ↦ rw (e, release, f) (fire-perm g now_ns)
        | inr f ↦ rw (e, release, f) Perm.rfl
      ]
    ]

    -- No signal is lost or made up by an arrival: what the gate releases, what it reports as dropped and
    -- what stays in the queue are together the old queue and the arrival, each as often as before.
    pub admit-perm :
        (g : ActivationState F) (signal : QueuedSignal F) (w : F) (now_ns : ℕ) (r : R)
        → let (o, g', _) = admit rng g signal w now_ns r in
          Perm (o.fired ++ of_option o.dropped ++ g'.queue) (signal ∷ g.queue)
    unfolding admit charge
    admit-perm g signal w now_ns r =
        let g1 = charge g signal.weight w in
        let g2 = (enqueue g1 signal).0 in
        let dropped = of_option (enqueue g1 signal).1 in
        Perm.trans (perm_rotate (release rng (retune g2) now_ns r).0 dropped _) (
          Perm.trans (Perm.append_left dropped (release-perm (retune g2) now_ns r))
            (rw (retune_queue g2) (enqueue-perm g1 signal)))

-- The invariant of the gate.
pub record IsValid {F : Type 0} ⦃fl : Float F⦄ (g : ActivationState F) : Type 0 where
  pub depth_pos : 0 < g.max_queue_depth
  pub batch_pos : 0 < g.fire_batch_size
  pub bounded : length g.queue ≤ g.max_queue_depth
  pub ceiling : fl.lit 0 1 ≼ g.max_potential
  pub charged : g.potential ≼ g.max_potential

module _ {F : Type 0} ⦃fl : Float F⦄ (laws : IsOrdered F) where
  charge-IsValid : (g : ActivationState F) (weight w : F) → IsValid g → IsValid (charge g weight w)
  unfolding charge
  charge-IsValid g weight w v = record {
    depth_pos = v.depth_pos;
    batch_pos = v.batch_pos;
    bounded = v.bounded;
    ceiling = v.ceiling;
    charged = fmin-le_right laws _ g.max_potential (laws.refl_of_le _ _ v.ceiling).1;
  }

  enqueue-IsValid :
      (g : ActivationState F) (signal : QueuedSignal F) → IsValid g → IsValid (enqueue g signal).0
  unfolding enqueue
  enqueue-IsValid g signal v = ground (
    arith,
    length-append g.queue (signal ∷ []),
    (overflow-Conserves g.overflow_policy signal g.queue).1,
  )

  retune-IsValid : (g : ActivationState F) → IsValid g → IsValid (retune g)
  unfolding recompute_threshold
  retune-IsValid g v = ground arith

  fire-IsValid : (g : ActivationState F) (now_ns : ℕ) → IsValid g → IsValid (fire g now_ns).1
  unfolding fire
  fire-IsValid g now_ns v = record {
    depth_pos = v.depth_pos;
    batch_pos = v.batch_pos;
    bounded = omega (
      arith,
      length-drop (min g.fire_batch_size (length (sort_by fires_before g.queue)))
          (sort_by fires_before g.queue),
      length-sort_by fires_before g.queue,
      v.bounded,
    );
    ceiling = v.ceiling;
    charged = v.ceiling;
  }

  module _ {R : Type 0} (rng : Rng R F) where
    release-IsValid :
        (g : ActivationState F) (now_ns : ℕ) (r : R)
        → IsValid g
        → IsValid (release rng g now_ns r).1
    unfolding release
    release-IsValid g now_ns r v = ground (arith, fire-IsValid g now_ns v)

    -- An arrival keeps the gate's invariant: the queue stays within its bound and the potential within
    -- its ceiling, whatever the weights are, NaN included.
    pub admit-IsValid :
        (g : ActivationState F) (signal : QueuedSignal F) (w : F) (now_ns : ℕ) (r : R)
        → IsValid g
        → IsValid (admit rng g signal w now_ns r).1
    unfolding admit
    admit-IsValid g signal w now_ns r v =
        release-IsValid _ now_ns r
          (retune-IsValid _ (enqueue-IsValid _ signal (charge-IsValid g signal.weight w v)))

module _ {F : Type 0} ⦃fl : Float F⦄ {R : Type 0} (rng : Rng R F) where
  enqueue_report :
      (g : ActivationState F) (signal : QueuedSignal F)
      → ((length g.queue < g.max_queue_depth
          × ((enqueue g signal).1 ≡ none)
          × ((enqueue g signal).2 ≡ none)
          × ((enqueue g signal).0.signals_dropped ≡ g.signals_dropped)))
        ⊎ ((g.max_queue_depth ≤ length g.queue)
            × ((enqueue g signal).1 ≡ some (overflow g.overflow_policy signal g.queue).0)
            × ((enqueue g signal).2 ≡ some queue_full)
            × ((enqueue g signal).0.signals_dropped ≡ add64 g.signals_dropped 1))
  unfolding enqueue
  enqueue_report g signal = ground arith

  release-dropped_count :
      (g : ActivationState F) (now_ns : ℕ) (r : R)
      → (release rng g now_ns r).1.signals_dropped ≡ g.signals_dropped
  unfolding release fire
  release-dropped_count g now_ns r = ground arith

  -- An arrival below the queue's bound sheds nothing and reports nothing. At the bound it sheds the
  -- signal that the overflow policy selects, reports it with the reason `queue_full`, and counts it.
  pub admit_report :
      (g : ActivationState F) (signal : QueuedSignal F) (w : F) (now_ns : ℕ) (r : R)
      → let (o, g', _) = admit rng g signal w now_ns r in
        ((length g.queue < g.max_queue_depth)
          × (o.dropped ≡ none)
          × (o.drop_reason ≡ none)
          × (g'.signals_dropped ≡ g.signals_dropped))
        ⊎ ((g.max_queue_depth ≤ length g.queue)
            × (o.dropped ≡ some (overflow g.overflow_policy signal g.queue).0)
            × (o.drop_reason ≡ some queue_full)
            × (g'.signals_dropped ≡ add64 g.signals_dropped 1))
  unfolding admit charge recompute_threshold
  admit_report g signal w now_ns r = ground (
    arith,
    enqueue_report (charge g signal.weight w) signal,
    release-dropped_count (retune (enqueue (charge g signal.weight w) signal).0) now_ns r,
  )

  -- A refractory gate releases nothing and draws nothing, whatever arrives.
  pub admit_refractory :
      (g : ActivationState F) (signal : QueuedSignal F) (w : F) (now_ns : ℕ) (r : R)
      → now_ns < g.refractory_until_ns
      → ((admit rng g signal w now_ns r).0.fired ≡ []) × ((admit rng g signal w now_ns r).2 ≡ r)
  unfolding admit release in_refractory recompute_threshold enqueue charge
  admit_refractory g signal w now_ns r h = ground arith
