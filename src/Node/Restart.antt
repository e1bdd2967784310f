-- ===== src/Node/Restart.antt =====
-- A node that starts again over its store, runtime/ntl-core/src/node.rs: it keeps its identity.
use ntl.Base.{ℕ, ◌≡◌, ◌∙◌, ap, sym, arith, Option, none, some, List, String, Bool, Result, ok, err}
use ntl.Float.{Float}
use ntl.Rng.{Rng}
use ntl.Signal.{NodeId, SignalType}
use ntl.Activation.{ActivationState}
use ntl.Store.{NodeStore}
use ntl.Node.{Node, NodeConfig}
use ntl.Node.Monad.{ok_inj, lifted-ok, same_answer, >>=-ok}
use ntl.Config.{ConfigFailure}
use ntl.Node.Build.{
  NodeBuilder, build, establish, storage, kept, or_fresh, or_invalid, found_store, start_over,
  started, seeded_bytes,
}

module _ {S F : Type 0} (store : NodeStore S F) where
  -- What a store promises of its metadata: what is put is read back, and a migration keeps the entries that are there.
  pub record KeepsMeta : Type 0 where
    pub put_get :
        (k : String) (v : List ℕ) (s s' : S) (u : Unit {0})
        → store.put_meta k v s ≡ (ok u, s')
        → store.get_meta k s' ≡ ok (some v)
    pub migrate_get :
        (k : String) (v : List ℕ) (s s' : S) (u : Unit {0})
        → store.migrate s ≡ (ok u, s')
        → store.get_meta k s ≡ ok (some v)
        → store.get_meta k s' ≡ ok (some v)

some_inj : {A : Type 0} (a b : A) → some a ≡ some b → a ≡ b
some_inj a b h = cc

or_invalid_state :
    {S A : Type 0} (r : Result ConfigFailure A) (s s' : S) (a : A)
    → or_invalid {S = S} r s ≡ (ok a, s')
    → s ≡ s'
unfolding or_invalid
or_invalid_state (ok x) s s' a h = ap (λ z. z.1) h
or_invalid_state (err e) s s' a h = ap (λ z. z.1) h

found_same :
    {S F : Type 0} (given : Option (NodeStore S F)) (store : NodeStore S F) (s s' : S)
    (found : NodeStore S F)
    → given ≡ some store
    → found_store given s ≡ (ok found, s')
    → (store ≡ found) × (s ≡ s')
unfolding found_store
found_same none store s s' found e h = absurd (ground arith)
found_same (some x) store s s' found e h =
    let (a, b) = same_answer x found s s' h in (sym (some_inj x store e) ∙ a, b)

module _ {S F : Type 0} (store : NodeStore S F) (keeps : KeepsMeta store) where
  kept_get :
      (id : NodeId) (s s' : S) (x : NodeId)
      → kept store id s ≡ (ok x, s')
      → store.get_meta "node-id" s' ≡ ok (some x)
  kept_get id s s' x h =
      let (u, s₁, p, q) = >>=-ok _ _ s s' x h in
      let e = keeps.put_get "node-id" id s s₁ u (lifted-ok storage _ s₁ u p) in
      let (i, j) = same_answer id x s₁ s' q in rw (sym i, sym j) e

  or_fresh_get :
      (now_ns : ℕ) (found : Option NodeId) (s s' : S) (x : NodeId)
      → store.get_meta "node-id" s ≡ ok found
      → or_fresh store now_ns found s ≡ (ok x, s')
      → store.get_meta "node-id" s' ≡ ok (some x)
  or_fresh_get now_ns none s s' x g h = kept_get (seeded_bytes 4 now_ns) s s' x h
  or_fresh_get now_ns (some bytes) s s' x g h =
      let (i, j) = same_answer bytes x s s' h in rw (sym i, sym j) g

  -- What a node takes for its identity is in the store afterwards.
  establish_get :
      (given : Option NodeId) (now_ns : ℕ) (s s' : S) (x : NodeId)
      → establish store given now_ns s ≡ (ok x, s')
      → store.get_meta "node-id" s' ≡ ok (some x)
  unfolding establish
  establish_get (some id) now_ns s s' x h = kept_get id s s' x h
  establish_get none now_ns s s' x h =
      let (found, s₁, p, q) = >>=-ok _ _ s s' x h in
      let e = lifted-ok storage (store.get_meta "node-id" s, s) s₁ found p in
      or_fresh_get now_ns found s₁ s' x
        (ap (λ z. store.get_meta "node-id" z) (sym (ap (λ z. z.1) e)) ∙ ap (λ z. z.0) e) q

  -- A node that is given no identity takes the one of the store.
  establish-none :
      (now_ns : ℕ) (s s' : S) (x y : NodeId)
      → store.get_meta "node-id" s ≡ ok (some x)
      → establish store none now_ns s ≡ (ok y, s')
      → y ≡ x
  unfolding establish
  establish-none now_ns s s' x y g h =
      let (found, s₁, p, q) = >>=-ok _ _ s s' y h in
      let e = ap (λ z. z.0) (lifted-ok storage (store.get_meta "node-id" s, s) s₁ found p) in
      taken found s₁ q (sym (ok_inj (some x) found (sym g ∙ e)))
    where
      taken :
          (found : Option NodeId) (s₁ : S)
          → or_fresh store now_ns found s₁ ≡ (ok y, s')
          → found ≡ some x
          → y ≡ x
      taken none s₁ q i = absurd (ground arith)
      taken (some z) s₁ q i = let (a, b) = same_answer z y s₁ s' q in sym a ∙ some_inj z x i

module _ {S R F : Type 0} ⦃fl : Float F⦄ (rng : Rng R F) (boxed : ℕ → R)
    (debug : SignalType → String) (ulid_text : ℕ → ℕ → String) where
  -- A node starts from the identity that it has established, and this changes nothing in the store.
  started_same :
      (store : NodeStore S F) (config : NodeConfig F) (given : Option R) (now_ns : ℕ)
      (identity : NodeId) (s s' : S) (node : Node S R F) (r : R) (g : ActivationState F)
      → started rng boxed debug ulid_text store config given now_ns identity s
        ≡ (ok (node, r, g), s')
      → (identity ≡ node.identity) × (s ≡ s')
  unfolding started
  started_same store config given now_ns identity s s' node r g h =
      let (snap, s₁, p, q) = >>=-ok _ _ s s' (node, r, g) h in
      let (a, b) = same_answer _ (node, r, g) s₁ s' q in
      (ap (λ z. (z.0).identity) a, ap (λ z. z.1) (lifted-ok storage _ s₁ snap p) ∙ b)

  start_over-ok :
      (store : NodeStore S F) (config : NodeConfig F) (given : Option R) (id : Option NodeId)
      (now_ns : ℕ) (s s' : S) (node : Node S R F) (r : R) (g : ActivationState F)
      → start_over rng boxed debug ulid_text store config given id now_ns s ≡ (ok (node, r, g), s')
      → (u : Unit {0}) × (s₁ : S) × (store.migrate s ≡ (ok u, s₁))
        × (establish store id now_ns s₁ ≡ (ok node.identity, s'))
  unfolding start_over
  start_over-ok store config given id now_ns s s' node r g h =
      let (u, s₁, p, q) = >>=-ok _ _ s s' (node, r, g) h in
      let (identity, s₂, p₂, q₂) = >>=-ok _ _ s₁ s' (node, r, g) q in
      let (a, b) = started_same store config given now_ns identity s₂ s' node r g q₂ in
      (u, s₁, lifted-ok storage _ s₁ u p, rw (sym a, sym b) p₂)

  module _ (classical : Bool) (read_file : String → Option (NodeConfig F)) where
    build-ok :
        (b : NodeBuilder S R F) (store : NodeStore S F) (now_ns : ℕ) (s s' : S) (node : Node S R F)
        (r : R) (g : ActivationState F)
        → b.store ≡ some store
        → build rng boxed debug ulid_text classical read_file b now_ns s ≡ (ok (node, r, g), s')
        → (u : Unit {0}) × (s₁ : S) × (store.migrate s ≡ (ok u, s₁))
          × (establish store b.identity now_ns s₁ ≡ (ok node.identity, s'))
    unfolding build
    build-ok b store now_ns s s' node r g e h =
        let (config, s₁, p₁, q₁) = >>=-ok _ _ s s' (node, r, g) h in
        let (u, s₂, p₂, q₂) = >>=-ok _ _ s₁ s' (node, r, g) q₁ in
        let (store', s₃, p₃, q₃) = >>=-ok _ _ s₂ s' (node, r, g) q₂ in
        let a = or_invalid_state _ s s₁ config p₁ in
        let c = or_invalid_state _ s₁ s₂ u p₂ in
        let (d, f) = found_same b.store store s₂ s₃ store' e p₃ in
        start_over-ok store config b.rng b.identity now_ns s s' node r g (rw (a ∙ c ∙ f, d) q₃)

    -- Let a store return the metadata that was put in it, and let its migration keep those that are there. If a node
    -- was built over it, and the entry "node-id" is then what it was after that, each node that is
    -- built over the store without an identity of its own has the identity of the first node,
    -- whichever way that one came to it: given, found in the store, or made from the time.
    pub build-build :
        (store : NodeStore S F)
        → KeepsMeta store
        → (b b' : NodeBuilder S R F) (now_ns now_ns' : ℕ) (s s₁ s₂ s₃ : S) (node node' : Node S R F)
          (r r' : R) (g g' : ActivationState F)
        → b.store ≡ some store
        → b'.store ≡ some store
        → b'.identity ≡ none
        → build rng boxed debug ulid_text classical read_file b now_ns s ≡ (ok (node, r, g), s₁)
        → store.get_meta "node-id" s₂ ≡ store.get_meta "node-id" s₁
        → build rng boxed debug ulid_text classical read_file b' now_ns' s₂
          ≡ (ok (node', r', g'), s₃)
        → node'.identity ≡ node.identity
    build-build store keeps b b' now_ns now_ns' s s₁ s₂ s₃ node node' r r' g g' e e' i h k h' =
        let (u, m, p, q) = build-ok b store now_ns s s₁ node r g e h in
        let (u', m', p', q') = build-ok b' store now_ns' s₂ s₃ node' r' g' e' h' in
        let a = establish_get store keeps b.identity now_ns m s₁ node.identity q in
        let c = keeps.migrate_get "node-id" node.identity s₂ m' u' p' (k ∙ a) in
        establish-none store keeps now_ns' m' s₃ node.identity node'.identity c (rw (sym i) q')
