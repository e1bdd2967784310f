-- ===== src/Propagation/Choice.antt =====
-- `select_synapses` of runtime/ntl-core/src/propagation.rs.
use ntl.Base.{
  ℕ, zero, suc, ◌<◌, ◌≡◌, refl, sym, inl, inr, Bool, true, false, Option, some, List, [], ◌∷◌, map,
  arith, length, length-map, All, All-map, Bool-cases, Option-cases, filter, find, is_empty,
  get_elem?, get_elem?-some, String, min, bytes_beq, subst, ap, ◌∙◌, Perm, range, ◌++◌, all,
  all-append, all-Perm, range-below, leb,
}
use ntl.Base.Sort.{sort_by, sort_by-All, length-sort_by}
use ntl.Float.{Float}
use ntl.Rng.{Rng, IsFair}
use ntl.Signal.{PropagationScope, flood, weighted, targeted, gradient}
use ntl.Synapse.{Synapse, can_carry}
use ntl.Learning.{LearningConfig, Selection, score_at}
use ntl.Learning.Greedy.{IsSample, indices, sample_paths-IsSample}
use ntl.Propagation.{
  PropagationConfig, Chosen, score_synapse, may_carry, scored, best_score_first, fanout, direct,
  is_flood, chosen_at, sampled, choose, select_synapses, meets_floor, arrived_on,
}

filter-All {ℓ} : {A : Type ℓ} (p : A → Bool) (xs : List A) → All (λ x. p x ≡ true) (filter p xs)
filter-All p [] = tt
filter-All p (x ∷ xs) = elim (Bool-cases (p x)) [
  | inl e ↦ rw e (e, filter-All p xs)
  | inr e ↦ rw e (filter-All p xs)
]

get_elem?-All {ℓ κ} :
    {A : Type ℓ} (P : A → Type κ) (xs : List A) (i : ℕ) (x : A)
    → All P xs
    → get_elem? xs i ≡ some x
    → P x
get_elem?-All P [] i x a e = absurd (cc)
get_elem?-All P (y ∷ ys) zero x (a, rest) e = subst P (ground arith) a
get_elem?-All P (y ∷ ys) (suc i) x (a, rest) e = get_elem?-All P ys i x rest e

nonempty-length {ℓ} : {A : Type ℓ} (xs : List A) → is_empty xs ≡ false → 0 < length xs
nonempty-length [] e = absurd (cc)
nonempty-length (x ∷ xs) e = omega arith

is_empty-length {ℓ} : {A : Type ℓ} (xs : List A) → is_empty xs ≡ true → length xs ≡ 0
is_empty-length [] e = refl
is_empty-length (x ∷ xs) e = absurd (cc)

module _ {F : Type 0} where
  in_range :
      (sels : List (Selection F)) (left : List ℕ) (n : ℕ)
      → Perm (indices sels ++ left) (range n)
      → all (λ i. leb (suc i) n) (indices sels) ≡ true
  in_range sels left n p = ground (
    arith,
    all-append (λ i. leb (suc i) n) (indices sels) left,
    all-Perm (λ i. leb (suc i) n) p (range-below n),
  )

module _ {F : Type 0} ⦃fl : Float F⦄ where
  -- A synapse that may be asked: connected, not where the signal came from, and above the floor.
  abbrev pub IsOpen : PropagationScope F → Option String → Synapse F → Type 0
  IsOpen scope arrival s =
      (can_carry s.state ≡ true) × (arrived_on arrival s ≡ false) × (meets_floor scope s ≡ true)

  -- What a choice owes its caller: the synapse is open, and the score is its own.
  abbrev pub IsFit :
      PropagationScope F → Option String → String → ℕ → PropagationConfig F → Chosen F → Type 0
  IsFit scope arrival signal_type now_ns c x =
      IsOpen scope arrival x.synapse
      × (x.score ≡ score_synapse x.synapse signal_type now_ns c.scoring)

  eligible-IsOpen :
      (scope : PropagationScope F) (arrival : Option String) (synapses : List (Synapse F))
      → All (IsOpen scope arrival) (filter (may_carry scope arrival) synapses)
  unfolding may_carry
  eligible-IsOpen scope arrival synapses =
      All-map (λ s. may_carry scope arrival s ≡ true) (λ s e. ground arith)
        (filter (may_carry scope arrival) synapses) (filter-All (may_carry scope arrival) synapses)

  -- A score taken from the list of scores is the score of the synapse at that place.
  score_at-map :
      (f : Synapse F → F) (xs : List (Synapse F)) (i : ℕ) (x : Synapse F)
      → get_elem? xs i ≡ some x
      → score_at (map f xs) i ≡ f x
  score_at-map f [] i x e = absurd (cc)
  score_at-map f (y ∷ ys) zero x e = ground arith
  score_at-map f (y ∷ ys) (suc i) x e = score_at-map f ys i x e

  -- Reading the synapse of every selection succeeds when the indices are in range.
  chosen_at-fit :
      (f : Synapse F → F) (Q : Synapse F → Type 0) (eligible : List (Synapse F))
      (sels : List (Selection F))
      → All Q eligible
      → All (λ s. s.score ≡ score_at (map f eligible) s.index) sels
      → all (λ i. leb (suc i) (length eligible)) (indices sels) ≡ true
      → (out : List (Chosen F)) × (chosen_at eligible sels ≡ some out)
        × (length out ≡ length sels)
        × All (λ x. Q x.synapse × (x.score ≡ f x.synapse)) out
  unfolding chosen_at
  chosen_at-fit f Q eligible [] q a b = ([], refl, refl, tt)
  chosen_at-fit f Q eligible (s ∷ ss) q (e, a) b =
      let (x, g) = get_elem?-some eligible s.index (ground arith) in
      let (out, h, n, p) = chosen_at-fit f Q eligible ss q a (ground arith) in
      (
        record { synapse = x; score = s.score; explored = s.explored } ∷ out,
        rw (g, chosen_at, h) refl,
        ap suc n,
        ((get_elem?-All Q eligible s.index x q g, e ∙ score_at-map f eligible s.index x g), p),
      )

  map-fit :
      (f : Synapse F → F) (g : Synapse F → Chosen F) (Q : Synapse F → Type 0)
      (xs : List (Synapse F))
      → ((s : Synapse F) → ((g s).synapse ≡ s) × ((g s).score ≡ f s))
      → All Q xs
      → All (λ x. Q x.synapse × (x.score ≡ f x.synapse)) (map g xs)
  map-fit f g Q [] h a = tt
  map-fit f g Q (x ∷ xs) h (q, a) =
      ((subst Q (sym (h x).0) q, (h x).1 ∙ ap f (sym (h x).0)), map-fit f g Q xs h a)

  find-fit :
      (Q : Synapse F → Type 0) (p : Synapse F → Bool) (xs : List (Synapse F)) (x : Synapse F)
      → All Q xs
      → find p xs ≡ some x
      → Q x
  find-fit Q p [] x a e = absurd (cc)
  find-fit Q p (y ∷ ys) x (q, a) e = elim (Bool-cases (p y)) [
    | inl f ↦ subst Q (ground arith) q
    | inr f ↦ find-fit Q p ys x a (rw f at e)
  ]

  direct-fit :
      (Q : Synapse F → Type 0) (scope : PropagationScope F) (xs : List (Synapse F)) (x : Synapse F)
      (n : ℕ) (c : PropagationConfig F)
      → All Q xs
      → direct scope xs ≡ some x
      → Q x × (fanout scope n c ≡ 1)
  unfolding direct fanout
  direct-fit Q (flood h) xs x n c a e = absurd (cc)
  direct-fit Q (weighted w) xs x n c a e = absurd (cc)
  direct-fit Q (gradient t) xs x n c a e = absurd (cc)
  direct-fit Q (targeted d) xs x n c a e =
      (find-fit Q (λ s. bytes_beq s.remote_node d) xs x a e, refl)

  -- A choice: synapses that are fit to carry, as many as the scope asks for and the topology has.
  unfoldable pub IsChoice :
      {R : Type 0}
      → List (Synapse F)
      → PropagationScope F
      → Option String
      → String
      → ℕ
      → PropagationConfig F
      → Option (List (Chosen F) × R)
      → Type 0
  IsChoice {R} synapses scope arrival signal_type now_ns c o =
      let n = length (filter (may_carry scope arrival) synapses) in
      (out : List (Chosen F)) × (r : R) × (o ≡ some (out, r))
      × All (IsFit scope arrival signal_type now_ns c) out
      × (length out ≡ min (fanout scope n c) n)

  fanout-flood :
      (scope : PropagationScope F) (n : ℕ) (c : PropagationConfig F)
      → is_flood scope ≡ true
      → fanout scope n c ≡ n
  unfolding fanout
  fanout-flood scope n c e = ground arith

  module _ {R : Type 0} (rng : Rng R F) (fair : IsFair rng) where
    choose-IsChoice :
        (synapses : List (Synapse F)) (scope : PropagationScope F) (signal_type : String)
        (arrival : Option String) (c : PropagationConfig F) (learning : LearningConfig F)
        (now_ns : ℕ) (r : R)
        → IsChoice synapses scope arrival signal_type now_ns c (
            choose rng
              (filter (may_carry scope arrival) synapses)
              scope
              signal_type
              c
              learning
              now_ns
              r)
    unfolding choose IsChoice sampled IsSample
    choose-IsChoice synapses scope signal_type arrival c learning now_ns r =
        let eligible = filter (may_carry scope arrival) synapses in
        let fit = eligible-IsOpen scope arrival synapses in
        let score : Synapse F → F = λ s. score_synapse s signal_type now_ns c.scoring in
        let all_of = map (scored false signal_type now_ns c.scoring) eligible in
        elim (Bool-cases (is_flood scope)) [
          | inl e ↦ (
            sort_by best_score_first all_of,
            r,
            rw e refl,
            sort_by-All best_score_first (IsFit scope arrival signal_type now_ns c) all_of (
                map-fit score (scored false signal_type now_ns c.scoring) (IsOpen scope arrival)
                  eligible (λ s. (refl, refl)) fit),
            omega (
              arith,
              length-sort_by best_score_first all_of,
              length-map (scored false signal_type now_ns c.scoring) eligible,
              fanout-flood scope (length eligible) c e,
            ),
          )
          | inr e ↦
              let (sels, r', f, n, a, (left, p)) =
                sample_paths-IsSample rng fair (map score eligible)
                  (fanout scope (length eligible) c) c.exploration learning r in
              let m = length-map score eligible in
              let (out, g, l, q) = chosen_at-fit score (IsOpen scope arrival) eligible sels fit a (
                in_range sels left (length eligible)
                  (subst (λ k. Perm (indices sels ++ left) (range k)) m p)) in
              (out, r', rw (e, f, sampled, g) refl, q, omega (arith, l, n, m))
        ]

    -- With a generator that keeps to its bound, the choice of synapses always returns. Each chosen synapse
    -- may carry traffic by its state, is not the one the signal arrived on, meets the floor of a weighted
    -- scope, and is reported with its own score; and their number is the smaller of what the scope asks
    -- for and of the eligible synapses: all of them for a flood, one for a targeted signal, the configured
    -- fanout otherwise.
    pub select_synapses-IsChoice :
        (synapses : List (Synapse F)) (scope : PropagationScope F) (signal_type : String)
        (arrival : Option String) (c : PropagationConfig F) (learning : LearningConfig F)
        (now_ns : ℕ) (r : R)
        → IsChoice synapses scope arrival signal_type now_ns c
            (select_synapses rng synapses scope signal_type arrival c learning now_ns r)
    unfolding select_synapses IsChoice
    select_synapses-IsChoice synapses scope signal_type arrival c learning now_ns r =
        let eligible = filter (may_carry scope arrival) synapses in
        elim (Bool-cases (is_empty eligible)) [
          | inl e ↦ ([], r, rw e refl, tt, omega (arith, is_empty-length eligible e))
          | inr e ↦ elim (Option-cases (direct scope eligible)) [
            | inl f ↦
                rw (select_synapses, e, f)
                  (choose-IsChoice synapses scope signal_type arrival c learning now_ns r)
            | inr (x, f) ↦
                let (q, n) =
                  direct-fit (IsOpen scope arrival) scope eligible x (length eligible) c
                    (eligible-IsOpen scope arrival synapses) f in
                (
                  scored false signal_type now_ns c.scoring x ∷ [],
                  r,
                  rw (e, f) refl,
                  ((q, refl), tt),
                  omega (arith, n, nonempty-length eligible e),
                )
          ]
        ]
