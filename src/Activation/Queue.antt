-- ===== src/Activation/Queue.antt =====
-- The queue of runtime/ntl-core/src/activation.rs: overflow and its policies.
use mathlib.Core.List.Perm
use mathlib.Core.List.{perm_append_singleton}
use ntl.Base.{
  ℕ, zero, suc, ◌+◌, ◌≤◌, ◌<◌, ◌≡◌, refl, sym, ap, ◌∙◌, subst, ◌⊎◌, inl, inr, Bool, true, false,
  none, some, List, [], ◌∷◌, Perm, arith, get_elem?, remove_at, remove_at-perm, length,
  length-append, length-remove_at, All, All-map, ◌≢◌, Bool-cases, Option-cases, if◌then◌else◌,
}
use ntl.Float.{Float, ◌≼◌, ◌≺◌, IsNum}
use ntl.Float.Laws.{IsOrdered, lt_asymm, le_of_not_lt, lt_of_le, le_of_lt}
use ntl.Activation.{
  QueuedSignal, OverflowPolicy, drop_lowest_weight, drop_newest, drop_oldest, min_from, min_by,
  enqueued_later, heavier, replace, displace, drop_oldest_of, drop_lowest_of, overflow,
}

module _ {ℓ} {A : Type ℓ} (gt : A → A → Bool) where
  min_from_found :
      (n : ℕ) (best : ℕ × A) (xs : List A)
      → (min_from gt n best xs ≡ best)
        ⊎ ((k : ℕ) × ((min_from gt n best xs).0 ≡ n + k)
            × (get_elem? xs k ≡ some (min_from gt n best xs).1))
  unfolding min_from
  min_from_found n best [] = inl refl
  min_from_found n best (x ∷ xs) = elim (Bool-cases (gt best.1 x)) [
    | inl e ↦
        rw (e, min_from)
          (elim (min_from_found (n + 1) (n, x) xs) [
            | inl h ↦ inr (0, ground (arith, ap (λ t. t.0) h), ground (arith, ap (λ t. t.1) h))
            | inr (k, h, f) ↦ inr (suc k, ground arith, f)
          ])
    | inr e ↦
        rw (e, min_from)
          (elim (min_from_found (n + 1) best xs) [
            | inl h ↦ inl h
            | inr (k, h, f) ↦ inr (suc k, ground arith, f)
          ])
  ]

  -- The index that `min_by` reports is the place of the element that it reports.
  pub min_by_found :
      (xs : List A) (found : ℕ × A)
      → min_by gt xs ≡ some found
      → get_elem? xs found.0 ≡ some found.1
  unfolding min_by
  min_by_found [] found e = absurd (cc)
  min_by_found (x ∷ xs) found e = elim (min_from_found 1 (0, x) xs) [
    | inl h ↦ ground (arith, h)
    | inr (k, h, f) ↦ ground (arith, h)
  ]

-- A test for "greater" that is a strict weak order on the elements that meet P.
pub record IsStrict {ℓ κ} {A : Type ℓ} (P : A → Type κ) (gt : A → A → Bool) : Type (ℓ ⊔ κ) where
  pub irrefl : (a : A) → P a → gt a a ≡ false
  pub asymm : (a b : A) → P a → P b → gt a b ≡ true → gt b a ≡ false
  pub trans : (a b c : A) → P a → P b → P c → gt a b ≡ false → gt b c ≡ false → gt a c ≡ false

module _ {ℓ κ} {A : Type ℓ} {P : A → Type κ} {gt : A → A → Bool} (s : IsStrict P gt) where
  min_from_least :
      (n : ℕ) (best : ℕ × A) (xs : List A) (y : A)
      → P best.1
      → All P xs
      → (min_from gt n best xs).1 ≡ y
      → P y × (gt y best.1 ≡ false) × All (λ z. gt y z ≡ false) xs
  unfolding min_from
  min_from_least n best [] y p ps h = rw (← h) (p, s.irrefl best.1 p, tt)
  min_from_least n best (x ∷ xs) y p (q, ps) h = elim (Bool-cases (gt best.1 x)) [
    | inl e ↦
        let (py, ly, ay) = min_from_least (n + 1) (n, x) xs y q ps (rw (e, min_from) at h) in
        (py, s.trans y x best.1 py q p ly (s.asymm best.1 x p q e), (ly, ay))
    | inr e ↦
        let (py, ly, ay) = min_from_least (n + 1) best xs y p ps (rw (e, min_from) at h) in
        (py, ly, (s.trans y best.1 x py p q ly e, ay))
  ]

  -- What `min_by` reports is not greater than any element of the list.
  pub min_by_least :
      (xs : List A) (found : ℕ × A)
      → All P xs
      → min_by gt xs ≡ some found
      → P found.1 × All (λ z. gt found.1 z ≡ false) xs
  unfolding min_by
  min_by_least [] found ps e = absurd (cc)
  min_by_least (x ∷ xs) found (p, ps) e =
      let (py, ly, ay) = min_from_least 1 (0, x) xs found.1 p ps (ground (arith, e)) in
      (py, (ly, ay))

get_elem?-lt {ℓ} :
    {A : Type ℓ} (xs : List A) (i : ℕ) (x : A) → get_elem? xs i ≡ some x → i < length xs
get_elem?-lt [] i x e = absurd (cc)
get_elem?-lt (y ∷ ys) zero x e = omega arith
get_elem?-lt (y ∷ ys) (suc i) x e = omega (arith, get_elem?-lt ys i x e)

module _ {F : Type 0} where
  -- Lengths and contents after an eviction.
  replace-perm :
      (signal : QueuedSignal F) (queue : List (QueuedSignal F)) (found : ℕ × QueuedSignal F)
      → get_elem? queue found.0 ≡ some found.1
      → Perm ((replace signal queue found).0 ∷ (replace signal queue found).1) (signal ∷ queue)
  unfolding replace
  replace-perm signal queue found e =
      Perm.trans (Perm.cons found.1 (perm_append_singleton signal (remove_at found.0 queue))) (
        Perm.trans (Perm.swap signal found.1 (remove_at found.0 queue))
          (Perm.cons signal (Perm.symm (remove_at-perm found.0 queue found.1 e))))

  replace-length :
      (signal : QueuedSignal F) (queue : List (QueuedSignal F)) (found : ℕ × QueuedSignal F)
      → get_elem? queue found.0 ≡ some found.1
      → length (replace signal queue found).1 ≡ length queue
  unfolding replace
  replace-length signal queue found e = omega (
    arith,
    length-append (remove_at found.0 queue) (signal ∷ []),
    length-remove_at found.0 queue (get_elem?-lt queue found.0 found.1 e),
  )

  -- Shedding on a full queue keeps the number of signals, and every signal is either kept or the one
  -- that is shed.
  abbrev pub Conserves :
      QueuedSignal F → List (QueuedSignal F) → QueuedSignal F × List (QueuedSignal F) → Type 0
  Conserves signal queue r = Perm (r.0 ∷ r.1) (signal ∷ queue) × (length r.1 ≡ length queue)

  kept-Conserves :
      (signal : QueuedSignal F) (queue : List (QueuedSignal F))
      → Conserves signal queue (signal, queue)
  kept-Conserves signal queue = (Perm.rfl, refl)

  replace-Conserves :
      (signal : QueuedSignal F) (queue : List (QueuedSignal F)) (found : ℕ × QueuedSignal F)
      → get_elem? queue found.0 ≡ some found.1
      → Conserves signal queue (replace signal queue found)
  replace-Conserves signal queue found e =
      (replace-perm signal queue found e, replace-length signal queue found e)

  drop_oldest_of-Conserves :
      (signal : QueuedSignal F) (queue : List (QueuedSignal F))
      → Conserves signal queue (drop_oldest_of signal queue)
  unfolding drop_oldest_of
  drop_oldest_of-Conserves signal queue = elim (Option-cases (min_by enqueued_later queue)) [
    | inl e ↦ rw (e, drop_oldest_of) (kept-Conserves signal queue)
    | inr (found, e) ↦
        rw (e, drop_oldest_of)
          (replace-Conserves signal queue found (min_by_found enqueued_later queue found e))
  ]

module _ {F : Type 0} ⦃fl : Float F⦄ where
  drop_lowest_of-Conserves :
      (signal : QueuedSignal F) (queue : List (QueuedSignal F))
      → Conserves signal queue (drop_lowest_of signal queue)
  unfolding drop_lowest_of
  drop_lowest_of-Conserves signal queue = elim (Option-cases (min_by heavier queue)) [
    | inl e ↦ rw (e, drop_lowest_of) (kept-Conserves signal queue)
    | inr (found, e) ↦ elim (Bool-cases (fl.lt (found.1).weight signal.weight)) [
      | inl l ↦
          rw (e, drop_lowest_of, l, displace)
            (replace-Conserves signal queue found (min_by_found heavier queue found e))
      | inr l ↦ rw (e, drop_lowest_of, l, displace) (kept-Conserves signal queue)
    ]
  ]

  -- Under every policy, an overflow loses exactly the signal that it reports as dropped.
  pub overflow-Conserves :
      (policy : OverflowPolicy) (signal : QueuedSignal F) (queue : List (QueuedSignal F))
      → Conserves signal queue (overflow policy signal queue)
  unfolding overflow
  overflow-Conserves drop_newest signal queue = kept-Conserves signal queue
  overflow-Conserves drop_oldest signal queue = drop_oldest_of-Conserves signal queue
  overflow-Conserves drop_lowest_weight signal queue = drop_lowest_of-Conserves signal queue

module _ {F : Type 0} where
  enqueued_later-IsStrict : IsStrict {A = QueuedSignal F} (λ s. Unit {0}) enqueued_later
  unfolding enqueued_later
  enqueued_later-IsStrict = record {
    irrefl = λ a p. ground arith;
    asymm = λ a b p q h. ground arith;
    trans = λ a b c p q r h k. ground arith;
  }

module _ {F : Type 0} ⦃fl : Float F⦄ (laws : IsOrdered F) where
  heavier-IsStrict : IsStrict {A = QueuedSignal F} (λ s. IsNum s.weight) heavier
  unfolding heavier
  heavier-IsStrict = record {
    irrefl = λ a p. lt_of_le laws _ _ p;
    asymm = λ a b p q h. lt_asymm laws _ _ h;
    trans = λ a b c p q r h k.
        lt_of_le laws _ _
          (laws.le_trans _ _ _ (le_of_not_lt laws _ _ q p h) (le_of_not_lt laws _ _ r q k));
  }

All-Unit {ℓ} : {A : Type ℓ} (xs : List A) → All (λ x. Unit {0}) xs
All-Unit [] = tt
All-Unit (x ∷ xs) = (tt, All-Unit xs)

min_by-ne-none {ℓ} :
    {A : Type ℓ} (gt : A → A → Bool) (x : A) (xs : List A) → min_by gt (x ∷ xs) ≢ none
unfolding min_by
min_by-ne-none gt x xs e = cc

module _ {F : Type 0} where
  not-later→le :
      (a b : QueuedSignal F) → enqueued_later a b ≡ false → a.enqueued_at_ns ≤ b.enqueued_at_ns
  unfolding enqueued_later
  not-later→le a b h = ground arith

module _ {F : Type 0} ⦃fl : Float F⦄ where
  overflow-oldest_found :
      (signal : QueuedSignal F) (queue : List (QueuedSignal F)) (found : ℕ × QueuedSignal F)
      → min_by enqueued_later queue ≡ some found
      → (overflow drop_oldest signal queue).0 ≡ found.1
  unfolding overflow
  overflow-oldest_found signal queue found e = rw (e, drop_oldest_of, replace)

  -- On a full queue the policy `drop_oldest` sheds a queued signal that has waited longest: no queued
  -- signal was enqueued before it.
  pub overflow-oldest :
      (signal s : QueuedSignal F) (queue : List (QueuedSignal F))
      → All
          (λ z. (overflow drop_oldest signal (s ∷ queue)).0.enqueued_at_ns ≤ z.enqueued_at_ns)
          (s ∷ queue)
        × ((i : ℕ) × (get_elem? (s ∷ queue) i ≡ some (overflow drop_oldest signal (s ∷ queue)).0))
  overflow-oldest signal s queue = elim (Option-cases (min_by enqueued_later (s ∷ queue))) [
    | inl e ↦ absurd (min_by-ne-none enqueued_later s queue e)
    | inr (found, e) ↦
        subst
          (λ t.
            All (λ z. t.enqueued_at_ns ≤ z.enqueued_at_ns) (s ∷ queue)
            × ((i : ℕ) × (get_elem? (s ∷ queue) i ≡ some t)))
          (sym (overflow-oldest_found signal (s ∷ queue) found e))
          (
            All-map (λ z. enqueued_later found.1 z ≡ false) (not-later→le found.1) (s ∷ queue)
                (min_by_least enqueued_later-IsStrict (s ∷ queue) found (All-Unit (s ∷ queue)) e).1,
            (found.0, min_by_found enqueued_later (s ∷ queue) found e),
          )
  ]

module _ {F : Type 0} ⦃fl : Float F⦄ (laws : IsOrdered F) where
  lightest :
      (a : QueuedSignal F) (xs : List (QueuedSignal F))
      → IsNum a.weight
      → All (λ z. IsNum z.weight) xs
      → All (λ z. heavier a z ≡ false) xs
      → All (λ z. a.weight ≼ z.weight) xs
  unfolding heavier
  lightest a [] p ps h = tt
  lightest a (x ∷ xs) p (q, qs) (h, hs) =
      (le_of_not_lt laws x.weight a.weight q p h, lightest a xs p qs hs)

  above-lightest :
      (w v : F) (xs : List (QueuedSignal F))
      → w ≼ v
      → All (λ z. v ≼ z.weight) xs
      → All (λ z. w ≼ z.weight) xs
  above-lightest w v [] h a = tt
  above-lightest w v (x ∷ xs) h (b, a) = (laws.le_trans w v x.weight h b, above-lightest w v xs h a)

  overflow-lowest_found :
      (signal : QueuedSignal F) (queue : List (QueuedSignal F)) (found : ℕ × QueuedSignal F)
      → min_by heavier queue ≡ some found
      → (overflow drop_lowest_weight signal queue).0
        ≡ (if fl.lt (found.1).weight signal.weight then found.1 else signal)
  unfolding overflow replace
  overflow-lowest_found signal queue found e = rw (e, drop_lowest_of) (ground arith)

  -- On a full queue the policy `drop_lowest_weight` sheds a signal that is no heavier than any other,
  -- the arrival included, and it sheds another signal than the arrival only if that is strictly
  -- lighter than the arrival. All weights are numbers.
  pub overflow-lowest :
      (signal s : QueuedSignal F) (queue : List (QueuedSignal F))
      → All (λ z. IsNum z.weight) (signal ∷ s ∷ queue)
      → All
          (λ z. (overflow drop_lowest_weight signal (s ∷ queue)).0.weight ≼ z.weight)
          (signal ∷ s ∷ queue)
        × (((overflow drop_lowest_weight signal (s ∷ queue)).0 ≡ signal)
            ⊎ ((overflow drop_lowest_weight signal (s ∷ queue)).0.weight ≺ signal.weight))
  overflow-lowest signal s queue (p, ps) = elim (Option-cases (min_by heavier (s ∷ queue))) [
    | inl e ↦ absurd (min_by-ne-none heavier s queue e)
    | inr (found, e) ↦
        let (q, least) = min_by_least (heavier-IsStrict laws) (s ∷ queue) found ps e in
        let light : All (λ z. (found.1).weight ≼ z.weight) (s ∷ queue) =
          lightest found.1 (s ∷ queue) q ps least in
        let Best : QueuedSignal F → Type 0 = λ t.
          All (λ z. t.weight ≼ z.weight) (signal ∷ s ∷ queue)
          × ((t ≡ signal) ⊎ (t.weight ≺ signal.weight)) in
        let chosen = overflow-lowest_found signal (s ∷ queue) found e in
        elim (Bool-cases (fl.lt (found.1).weight signal.weight)) [
          | inl l ↦
              subst Best (sym (chosen ∙ ap (λ b. if b then found.1 else signal) l))
                ((le_of_lt laws (found.1).weight signal.weight l, light), inr l)
          | inr l ↦ subst Best (sym (chosen ∙ ap (λ b. if b then found.1 else signal) l)) (
            (
              p,
              above-lightest signal.weight (found.1).weight (s ∷ queue)
                  (le_of_not_lt laws (found.1).weight signal.weight q p l) light,
            ),
            inl refl,
          )
        ]
  ]
