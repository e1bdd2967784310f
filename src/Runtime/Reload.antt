-- ===== src/Runtime/Reload.antt =====
-- runtime/ntl-net/src/identity.rs: the identity that a store keeps is the one that is loaded from it.
use ntl.Base.{
  ℕ, true, false, text_eq, ◌≡◌, ◌≢◌, ◌∙◌, refl, ap, sym, arith, Option, none, some, List, String,
  ok,
}
use ntl.Crypto.{Ed25519}
use ntl.Store.{NodeStore}
use ntl.Node.Monad.{lifted, lifted-ok, same_answer, ◌>>=◌, >>=-ok}
use ntl.Runtime.{Identity}
use ntl.Runtime.Seeded.{unusable_store, from_seed, create, stored_or, load_or_create}

-- What the loading of an identity relies on: an entry stays what was put in it when another entry is
-- written and when the store is flushed.
pub record KeepsEntries {S F : Type 0} (store : NodeStore S F) : Type 0 where
  pub put_get :
      (k : String) (v : List ℕ) (s s' : S) (u : Unit {0})
      → store.put_meta k v s ≡ (ok u, s')
      → store.get_meta k s' ≡ ok (some v)
  pub put_other :
      (k asked : String) (v : List ℕ) (s s' : S) (u : Unit {0})
      → k ≢ asked
      → store.put_meta k v s ≡ (ok u, s')
      → store.get_meta asked s' ≡ store.get_meta asked s
  pub flush_get :
      (k : String) (s s' : S) (u : Unit {0})
      → store.flush s ≡ (ok u, s')
      → store.get_meta k s' ≡ store.get_meta k s

distinct_entries : ◌≢◌ {A = String} "node-id" "identity-seed"
distinct_entries e = differ ((text_eq.eqb_iff "node-id" "identity-seed").1 e)
  where
    differ : false ≡ true → ⊥
    differ h = absurd (ground arith)

module _ (ed : Ed25519) (blake3 : List ℕ → List ℕ) {S F : Type 0} (store : NodeStore S F)
    (keeps : KeepsEntries store) where
  -- The seed of an identity is in the store after it was created.
  create_get :
      (fresh : List ℕ) (s s' : S) (identity : Identity)
      → create ed blake3 store fresh s ≡ (ok identity, s')
      → (store.get_meta "identity-seed" s' ≡ ok (some fresh))
        × (from_seed ed blake3 fresh ≡ ok identity)
  unfolding create
  create_get fresh s s' identity h =
      let (i, s₁, p₁, q₁) = >>=-ok _ _ s s' identity h in
      let (u₂, s₂, p₂, q₂) = >>=-ok _ _ s₁ s' identity q₁ in
      let (u₃, s₃, p₃, q₃) = >>=-ok _ _ s₂ s' identity q₂ in
      let (u₄, s₄, p₄, q₄) = >>=-ok _ _ s₃ s' identity q₃ in
      let (a, b) = same_answer i identity s₄ s' q₄ in
      let e₁ = keeps.put_get "identity-seed" fresh s₁ s₂ u₂ (lifted-ok unusable_store _ s₂ u₂ p₂) in
      let e₂ =
        keeps.put_other "node-id" "identity-seed" i.node_id s₂ s₃ u₃ distinct_entries
          (lifted-ok unusable_store _ s₃ u₃ p₃) in
      let e₃ = keeps.flush_get "identity-seed" s₃ s₄ u₄ (lifted-ok unusable_store _ s₄ u₄ p₄) in
      (rw (sym b) (e₃ ∙ e₂ ∙ e₁), ap (λ z. z.0) p₁ ∙ ap ok a)

  stored_or_get :
      (fresh : List ℕ) (found : Option (List ℕ)) (s s' : S) (identity : Identity)
      → store.get_meta "identity-seed" s ≡ ok found
      → stored_or ed blake3 store fresh found s ≡ (ok identity, s')
      → (seed : List ℕ) × (store.get_meta "identity-seed" s' ≡ ok (some seed))
        × (from_seed ed blake3 seed ≡ ok identity)
  unfolding stored_or
  stored_or_get fresh none s s' identity g h =
      let (a, b) = create_get fresh s s' identity h in (fresh, a, b)
  stored_or_get fresh (some seed) s s' identity g h = (
    seed,
    ap (λ z. store.get_meta "identity-seed" z) (sym (ap (λ z. z.1) h)) ∙ g,
    ap (λ z. z.0) h,
  )

  load_or_create_get :
      (fresh : List ℕ) (s s' : S) (identity : Identity)
      → load_or_create ed blake3 store fresh s ≡ (ok identity, s')
      → (seed : List ℕ) × (store.get_meta "identity-seed" s' ≡ ok (some seed))
        × (from_seed ed blake3 seed ≡ ok identity)
  unfolding load_or_create
  load_or_create_get fresh s s' identity h =
      let (found, s₁, p, q) = >>=-ok _ _ s s' identity h in
      let e = lifted-ok unusable_store (store.get_meta "identity-seed" s, s) s₁ found p in
      stored_or_get fresh found s₁ s' identity
        (ap (λ z. store.get_meta "identity-seed" z) (sym (ap (λ z. z.1) e)) ∙ ap (λ z. z.0) e) q

  load_or_create_found :
      (fresh seed : List ℕ) (s : S) (identity : Identity)
      → store.get_meta "identity-seed" s ≡ ok (some seed)
      → from_seed ed blake3 seed ≡ ok identity
      → load_or_create ed blake3 store fresh s ≡ (ok identity, s)
  unfolding load_or_create lifted stored_or ◌>>=◌
  load_or_create_found fresh seed s identity g e = rw (g, e) refl

  -- Let a store keep its entries. If an identity was loaded from it or created in it, and the seed in
  -- it is then what it was after that, each later load succeeds with the same identity and leaves
  -- the store as it is, whatever the system's generator gives.
  pub load_or_create-load_or_create :
      (fresh later : List ℕ) (s s₁ s₂ : S) (identity : Identity)
      → load_or_create ed blake3 store fresh s ≡ (ok identity, s₁)
      → store.get_meta "identity-seed" s₂ ≡ store.get_meta "identity-seed" s₁
      → load_or_create ed blake3 store later s₂ ≡ (ok identity, s₂)
  load_or_create-load_or_create fresh later s s₁ s₂ identity h k =
      let (seed, g, e) = load_or_create_get fresh s s₁ identity h in
      load_or_create_found later seed s₂ identity (k ∙ g) e
