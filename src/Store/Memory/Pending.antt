-- ===== src/Store/Memory/Pending.antt =====
-- How many decisions of the journal of runtime/ntl-core/src/store/memory.rs still wait for an outcome.
use ntl.Base.{
  ℕ, suc, ◌≡◌, refl, inl, inr, Bool, true, not, Bool-cases, none, some, List, [], ◌∷◌, arith, find,
  filter, length, number_eq, bytes_eq,
}
use ntl.Signal.{NodeId, SignalId}
use ntl.Store.{JournalId, JournalEntry, Outcome, is_resolved}
use ntl.Store.Memory.{resolve_in, has_id, is_pending_for}

module _ {F : Type 0} where
  abbrev pub waits : JournalEntry F → Bool
  waits e = not (is_resolved e.outcome)

  abbrev pub pending_count : List (JournalEntry F) → ℕ
  pending_count es = length (filter waits es)

  -- No two entries have the same identifier.
  abbrev pub IsDistinct : List (JournalEntry F) → Type 0
  IsDistinct [] = Unit {0}
  IsDistinct (e ∷ es) =
      ((id : JournalId) → has_id id e ≡ true → find (has_id id) es ≡ none) × IsDistinct es

  pub find-pending :
      (signal : SignalId) (peer : NodeId) (es : List (JournalEntry F)) (e : JournalEntry F)
      (id : JournalId)
      → IsDistinct es
      → find (is_pending_for signal peer) es ≡ some e
      → has_id id e ≡ true
      → (find (has_id id) es ≡ some e) × (waits e ≡ true)
  find-pending signal peer [] e id d h i = absurd (cc)
  find-pending signal peer (x ∷ xs) e id (fresh, d) h i =
      elim (Bool-cases (is_pending_for signal peer x)) [
        | inl w ↦ ground (arith, w, h, i)
        | inr w ↦
            let (found, waiting) = find-pending signal peer xs e id d (rw w at h) i in
            (ground (arith, found, fresh id), waiting)
      ]

  pub resolve_in-pending :
      (id : JournalId) (o : Outcome) (now_ns : ℕ) (es : List (JournalEntry F)) (e : JournalEntry F)
      → find (has_id id) es ≡ some e
      → waits e ≡ true
      → is_resolved o ≡ true
      → pending_count es ≡ suc (pending_count (resolve_in id o now_ns es).1)
  unfolding resolve_in
  resolve_in-pending id o now_ns [] e h w r = absurd (cc)
  resolve_in-pending id o now_ns (x ∷ xs) e h w r = elim (Bool-cases (has_id id x)) [
    | inl f ↦ ground (arith, f, h, w, r)
    | inr f ↦ ground (arith, f, h, resolve_in-pending id o now_ns xs e)
  ]

  resolve_in-none :
      (id asked : JournalId) (o : Outcome) (now_ns : ℕ) (es : List (JournalEntry F))
      → find (has_id asked) es ≡ none
      → find (has_id asked) (resolve_in id o now_ns es).1 ≡ none
  unfolding resolve_in
  resolve_in-none id asked o now_ns [] h = refl
  resolve_in-none id asked o now_ns (x ∷ xs) h = elim (Bool-cases (has_id id x)) [
    | inl f ↦ ground (arith, f, h)
    | inr f ↦ ground (arith, f, h, resolve_in-none id asked o now_ns xs)
  ]

  pub resolve_in-IsDistinct :
      (id : JournalId) (o : Outcome) (now_ns : ℕ) (es : List (JournalEntry F))
      → IsDistinct es
      → IsDistinct (resolve_in id o now_ns es).1
  unfolding resolve_in
  resolve_in-IsDistinct id o now_ns [] d = tt
  resolve_in-IsDistinct id o now_ns (x ∷ xs) (fresh, d) = elim (Bool-cases (has_id id x)) [
    | inl f ↦ elim (Bool-cases (is_resolved x.outcome)) [
      | inl r ↦ rw f (rw r (fresh, d))
      | inr r ↦ rw f (rw r (fresh, d))
    ]
    | inr f ↦ rw f (
      (λ asked i. resolve_in-none id asked o now_ns xs (fresh asked i)),
      resolve_in-IsDistinct id o now_ns xs d,
    )
  ]
