-- ===== src/Sqlite/Agreement.antt =====
-- The metadata of runtime/ntl-store-sqlite/src/lib.rs beside those of runtime/ntl-core/src/store/memory.rs.
use ntl.Base.{
  ℕ, ◌≡◌, ◌≢◌, refl, sym, ap, ◌∙◌, arith, Bool, Bool-cases, inl, inr, List, [], ◌∷◌, String, ok,
  text_eq, ◌==◌,
}
use ntl.Float.{Float}
use ntl.Store.{NodeStore, StoreError}
use ntl.Store.Memory.{MemoryStore, put_meta}
use ntl.Store.Memory.Interface.{memory_store}
use ntl.Node.Monad.{Act, pure, ◌>>=◌, >>=-ok}
use ntl.Node.Reference.{memory_store-KeepsEntries}
use ntl.Runtime.Reload.{KeepsEntries}
use ntl.Sqlite.{Connection, Conversions, SqliteStore}
use ntl.Sqlite.Interface.{sqlite_store}
use ntl.Sqlite.Entries.{IsPersistent, sqlite_store-KeepsEntries}

pub data MetaStep : Type 0 where
  put : String → List ℕ → MetaStep
  flushed : MetaStep

module _ {S F : Type 0} (store : NodeStore S F) where
  -- What a caller does to the metadata of a store.
  unfoldable pub step : MetaStep → Act S StoreError (Unit {0})
  step (put key value) = store.put_meta key value
  step flushed = store.flush

  unfoldable pub run : List MetaStep → Act S StoreError (Unit {0})
  unfolding step
  run [] = pure tt
  run (x ∷ xs) = step x >>= (λ u. run xs)

module _ {S T F : Type 0} (first : NodeStore S F) (second : NodeStore T F) where
  -- The two stores read back the same metadata.
  abbrev pub Agree : S → T → Type 0
  Agree s t = (key : String) → first.get_meta key s ≡ second.get_meta key t

  module _ (a : KeepsEntries first) (b : KeepsEntries second) where
    put-Agree :
        (key : String) (value : List ℕ) (s s' : S) (t t' : T) (u v : Unit {0})
        → Agree s t
        → first.put_meta key value s ≡ (ok u, s')
        → second.put_meta key value t ≡ (ok v, t')
        → Agree s' t'
    put-Agree key value s s' t t' u v same p q asked = elim (Bool-cases (key == asked)) [
      | inl e ↦
          let k = (text_eq.eqb_iff key asked).0 e in
          ap (λ z. first.get_meta z s') (sym k)
          ∙ a.put_get key value s s' u p
          ∙ sym (b.put_get key value t t' v q)
          ∙ ap (λ z. second.get_meta z t') k
      | inr e ↦
          let n : key ≢ asked = λ k. let yes = (text_eq.eqb_iff key asked).1 k in ground arith in
          a.put_other key asked value s s' u n p
          ∙ same asked
          ∙ sym (b.put_other key asked value t t' v n q)
    ]

    step-Agree :
        (x : MetaStep) (s s' : S) (t t' : T) (u v : Unit {0})
        → Agree s t
        → step first x s ≡ (ok u, s')
        → step second x t ≡ (ok v, t')
        → Agree s' t'
    unfolding step
    step-Agree (put key value) s s' t t' u v same p q = put-Agree key value s s' t t' u v same p q
    step-Agree flushed s s' t t' u v same p q =
        λ asked. a.flush_get asked s s' u p ∙ same asked ∙ sym (b.flush_get asked t t' v q)

    run-Agree :
        (xs : List MetaStep) (s s' : S) (t t' : T) (u v : Unit {0})
        → Agree s t
        → run first xs s ≡ (ok u, s')
        → run second xs t ≡ (ok v, t')
        → Agree s' t'
    unfolding run
    run-Agree [] s s' t t' u v same p q = λ asked.
        ap (first.get_meta asked) (sym (ap (λ z. z.1) p))
        ∙ same asked
        ∙ ap (second.get_meta asked) (ap (λ z. z.1) q)
    run-Agree (x ∷ xs) s s' t t' u v same p q =
        let (u₁, s₁, p₁, p₂) = >>=-ok _ _ s s' u p in
        let (v₁, t₁, q₁, q₂) = >>=-ok _ _ t t' v q in
        run-Agree xs s₁ s' t₁ t' u v (step-Agree x s s₁ t t₁ u₁ v₁ same p₁ q₁) p₂ q₂

module _ {F : Type 0} ⦃fl : Float F⦄ (id_leb : String → String → Bool) where
  -- The in-memory store never fails.
  run-memory_store :
      (xs : List MetaStep) (st : MemoryStore F) → (run (memory_store id_leb) xs st).0 ≡ ok tt
  unfolding run step memory_store put_meta ◌>>=◌
  run-memory_store [] st = refl
  run-memory_store (put key value ∷ xs) st = run-memory_store xs _
  run-memory_store (flushed ∷ xs) st = run-memory_store xs st

  module _ {C D : Type 0} (cn : Connection C D) (laws : IsPersistent cn) (c : Conversions F D)
      (store : SqliteStore) where
    -- The SQLite store is the in-memory store as far as the metadata go. Write any entries, and flush, in any order:
    -- if SQLite carries them out, then each entry reads on both stores the same, provided that it did before. SQLite
    -- keeps what IsPersistent says of the table of metadata.
    pub run-sqlite_store :
        (xs : List MetaStep) (db db' : C) (st : MemoryStore F) (u : Unit {0})
        → Agree (sqlite_store cn c store) (memory_store id_leb) db st
        → run (sqlite_store cn c store) xs db ≡ (ok u, db')
        → Agree
            (sqlite_store cn c store)
            (memory_store id_leb)
            db'
            (run (memory_store id_leb) xs st).1
    run-sqlite_store xs db db' st u same h =
        let done = run (memory_store id_leb) xs st in
        run-Agree (sqlite_store cn c store) (memory_store id_leb)
          (sqlite_store-KeepsEntries cn laws c store) (memory_store-KeepsEntries id_leb) xs db db'
          st done.1 u tt same h (ap (λ z. (z, done.1)) (run-memory_store xs st))
