-- ===== src/Store/Memory/Journal.antt =====
-- The learning journal of runtime/ntl-core/src/store/memory.rs.
use ntl.Base.{
  ℕ, ◌+◌, ◌^◌, ◌≤◌, ◌<◌, ◌≡◌, refl, inl, inr, true, false, Option, some, List, [], ◌∷◌, ◌++◌, arith,
  ok, number_eq, bytes_eq, nat_beq_iff, if◌then◌else◌, Bool-cases, find, add64, All, All-append,
  All-map,
}
use ntl.Store.{JournalId, JournalEntry, Outcome, is_resolved}
use ntl.Store.Memory.{MemoryStore, append_decision, resolve_in, resolve_decision, has_id}

module _ {F : Type 0} where
  -- The first entry with an identifier.
  abbrev pub entry_of : JournalId → MemoryStore F → Option (JournalEntry F)
  entry_of id st = find (has_id id) st.journal

  resolve_in-find :
      (id : JournalId) (o : Outcome) (now_ns : ℕ) (es : List (JournalEntry F)) (e : JournalEntry F)
      → find (has_id id) es ≡ some e
      → let e' =
          if is_resolved e.outcome
          then e
          else record e { outcome = o; resolved_at_ns = some now_ns } in
        ((resolve_in id o now_ns es).0 ≡ some e')
        × (find (has_id id) (resolve_in id o now_ns es).1 ≡ some e')
  unfolding resolve_in
  resolve_in-find id o now_ns [] e h = absurd (cc)
  resolve_in-find id o now_ns (x ∷ xs) e h = elim (Bool-cases (has_id id x)) [
    | inl f ↦ ground (arith, f, h)
    | inr f ↦ ground (arith, f, h, resolve_in-find id o now_ns xs e)
  ]

  resolve_in-resolved :
      (id : JournalId) (o : Outcome) (now_ns : ℕ) (es : List (JournalEntry F)) (e : JournalEntry F)
      → find (has_id id) es ≡ some e
      → is_resolved e.outcome ≡ true
      → (resolve_in id o now_ns es).1 ≡ es
  unfolding resolve_in
  resolve_in-resolved id o now_ns [] e h r = absurd (cc)
  resolve_in-resolved id o now_ns (x ∷ xs) e h r = elim (Bool-cases (has_id id x)) [
    | inl f ↦ ground (arith, f, h, r)
    | inr f ↦ ground (arith, f, h, resolve_in-resolved id o now_ns xs e)
  ]

  -- The first outcome wins. Resolving a pending decision records the outcome and the time; resolving it
  -- again, with any outcome at any time, reports what was recorded first and leaves the store as it was.
  pub resolve_decision_first :
      (id : JournalId) (o₁ o₂ : Outcome) (t₁ t₂ : ℕ) (st : MemoryStore F) (e : JournalEntry F)
      → entry_of id st ≡ some e
      → is_resolved e.outcome ≡ false
      → is_resolved o₁ ≡ true
      → let (reply, st') = resolve_decision id o₁ t₁ st in
        let e' = record e { outcome = o₁; resolved_at_ns = some t₁ } in
        (reply ≡ ok (some e')) × (resolve_decision id o₂ t₂ st' ≡ (ok (some e'), st'))
  unfolding resolve_decision
  resolve_decision_first id o₁ o₂ t₁ t₂ st e h p r =
      let e' = record e { outcome = o₁; resolved_at_ns = some t₁ } in
      let (reply, kept) = resolve_in-find id o₁ t₁ st.journal e h in
      let journal' = (resolve_in id o₁ t₁ st.journal).1 in
      let kept' : find (has_id id) journal' ≡ some e' = ground (arith, kept, p) in
      let (again, rest) = resolve_in-find id o₂ t₂ journal' e' kept' in
      let again' : (resolve_in id o₂ t₂ journal').0 ≡ some e' = ground (arith, again, r) in
      (ground (arith, reply, p), rw (again', resolve_in-resolved id o₂ t₂ journal' e' kept' r) refl)

  -- Every entry has an identifier, and none is above the counter.
  abbrev pub IsNumbered : ℕ → JournalEntry F → Type 0
  IsNumbered n e = (j : ℕ) × (e.id ≡ some j) × (j ≤ n)

  abbrev pub IsValid : MemoryStore F → Type 0
  IsValid st = All (IsNumbered st.next_journal_id) st.journal

  IsNumbered-later : (n m : ℕ) → n ≤ m → (e : JournalEntry F) → IsNumbered n e → IsNumbered m e
  IsNumbered-later n m h e (j, p, q) = (j, p, omega arith)

  find-fresh :
      (n : ℕ) (es : List (JournalEntry F)) (e : JournalEntry F)
      → All (IsNumbered n) es
      → find (has_id (n + 1)) (es ++ record e { id = some (n + 1) } ∷ [])
        ≡ some (record e { id = some (n + 1) })
  find-fresh n [] e a = ground (arith, nat_beq_iff (n + 1) (n + 1))
  find-fresh n (x ∷ xs) e ((j, p, q), a) =
      ground (arith, p, q, nat_beq_iff j (n + 1), find-fresh n xs e a)

  -- A decision is journalled under an identifier of its own: appending keeps every identifier at or
  -- below the counter, and the entry is found under the one returned. The counter does not wrap.
  pub append_decision-IsValid :
      (e : JournalEntry F) (st : MemoryStore F)
      → IsValid st
      → st.next_journal_id + 1 < 2 ^ 64
      → let (reply, st') = append_decision e st in
        let id = st.next_journal_id + 1 in
        IsValid st' × (reply ≡ ok id) × (entry_of id st' ≡ some (record e { id = some id }))
  unfolding append_decision
  append_decision-IsValid e st v h =
      let id = st.next_journal_id + 1 in
      let w : add64 st.next_journal_id 1 ≡ id = omega arith in
      rw w (
        All-append (IsNumbered id) st.journal (record e { id = some id } ∷ [])
            (All-map (IsNumbered st.next_journal_id)
              (IsNumbered-later st.next_journal_id id (omega arith)) st.journal v)
            ((id, refl, omega arith), tt),
        refl,
        find-fresh st.next_journal_id st.journal e v,
      )
