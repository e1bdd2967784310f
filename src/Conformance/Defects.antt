-- ===== src/Conformance/Defects.antt =====
-- What a check of runtime/ntl-core/src/store/conformance.rs refuses: each of these defects of a store.
use ntl.Base.{
  ℕ, ◌*◌, ◌≡◌, refl, sym, ap, ◌∙◌, arith, Bool, true, false, not, Option, none, some, List, [], ◌∷◌,
  String, ok, length, filter, any, all, length-filter-le, number_eq, nat_beq,
}
use ntl.Float.{Float}
use ntl.Signal.{SignalId, SignalType}
use ntl.Store.{any_synapse, NodeStore, Read, SynapseFilter, JournalEntry, JournalId, Outcome}
use ntl.Conformance.{same_option, sec}
use ntl.Conformance.Refusals.{
  Refuses, Refuses-next, Refuses-expect, Refuses-read, Refuses-present, Refuses-assert,
  Refuses-false, Refuses-absurd,
}
use ntl.Conformance.Records.{
  synapse_roundtrip, synapse_listing_is_ordered_and_filtered, peer_roundtrip,
  dedup_is_check_and_set, dedup_entries_expire, activation_roundtrip, is_none,
}
use ntl.Conformance.Journal.{
  journal_roundtrip, journal_resolution_is_idempotent, meta_roundtrip, same_bytes, same_id,
}

clash :
    {A : Type 0} (o : Option A) (a : A) → Path (Read (Option A)) (ok o) (ok none) → o ≡ some a → ⊥
clash none a e q = ground arith
clash (some x) a e q = ground arith

none_of : {A : Type 0} (o : Option A) → is_none o ≡ true → o ≡ none
none_of none e = refl
none_of (some a) e = absurd (ground arith)

differ : (a b : Bool) → Path (Read Bool) (ok a) (ok b) → a ≡ true → not b ≡ true → ⊥
differ a b e q r = ground arith

no_bytes :
    (o : Option (List ℕ)) (bytes : List ℕ)
    → Path (Read (Option (List ℕ))) (ok none) (ok o)
    → same_bytes o bytes ≡ true
    → ⊥
no_bytes none bytes e q = ground arith
no_bytes (some a) bytes e q = ground arith

overwritten : (at : Option ℕ) → at ≡ some (22 * sec) → same_id at (some (21 * sec)) ≡ false
overwritten none e = absurd (ground arith)
overwritten (some t) e = ground arith

no_snapshot :
    {A : Type 0} (f : A → A → Bool) (o : Option A) (a : A)
    → Path (Read (Option A)) (ok none) (ok o)
    → same_option f o (some a) ≡ true
    → ⊥
no_snapshot f none a e q = ground arith
no_snapshot f (some b) a e q = ground arith

any-all :
    {A : Type 0} (p : A → Bool) (xs : List A) → any p xs ≡ true → all (λ x. not (p x)) xs ≡ true → ⊥
any-all p [] e q = ground arith
any-all p (x ∷ xs) e q = ground (arith, any-all p xs)

no_both :
    {A : Type 0} (p : A → Bool) (xs ys : List A)
    → Path (Read (List A)) (ok xs) (ok ys)
    → any p xs ≡ true
    → all (λ x. not (p x)) ys ≡ true
    → ⊥
no_both p xs ys e h q = any-all p xs h (ground arith)

-- A list of three that pass a test is no list of one.
no_single :
    {A : Type 0} (p : A → Bool) (xs ys : List A)
    → Path (Read (List A)) (ok xs) (ok ys)
    → nat_beq (length (filter p xs)) 3 ≡ true
    → nat_beq (length ys) 1 ≡ true
    → ⊥
no_single p xs ys e three one = let shorter = length-filter-le p xs in ground arith

module _ {S F : Type 0} ⦃fl : Float F⦄ (store : NodeStore S F) (from_parts : ℕ → ℕ → SignalId) where
  pub loses_synapses-Refuses :
      ((id : String) (s : S) → store.get_synapse id s ≡ ok none)
      → (s : S) → Refuses (synapse_roundtrip store from_parts) s
  unfolding synapse_roundtrip
  loses_synapses-Refuses lost s = Refuses-next _ _ (λ u s₁. Refuses-read _ _ (λ found e.
      Refuses-present _ _
        (λ fetched q. Refuses-absurd _ (clash found fetched (sym e ∙ lost _ s₁) q))))

  pub keeps_deleted-Refuses :
      ((id : String) (s : S) → (store.get_synapse id s ≡ ok none) → ⊥)
      → (s : S) → Refuses (synapse_roundtrip store from_parts) s
  unfolding synapse_roundtrip
  keeps_deleted-Refuses kept s = Refuses-next _ _ (λ u s₁. Refuses-read _ _ (λ found e.
      Refuses-present _ _ (λ fetched q. Refuses-assert _ _ (λ v same. Refuses-next _ _ (λ other s₂.
        Refuses-present _ _ (λ by_peer r. Refuses-assert _ _ (λ w at. Refuses-next _ _ (λ x s₃.
          Refuses-next _ _ (λ again s₄. Refuses-next _ _ (λ refetched s₅. Refuses-next _ _ (λ y s₆.
            Refuses-next _ _ (λ z s₇. Refuses-read _ _ (λ gone e₁. Refuses-assert _ _ (λ t absent.
              Refuses-absurd _ (kept _ s₇ (e₁ ∙ ap (λ o. ok o) (none_of gone absent)))))))))))))))))

  pub ignores_limit-Refuses :
      ((f : SynapseFilter F) (n : ℕ) (s : S)
        → store.list_synapses (record f { limit = some n }) s
          ≡ store.list_synapses (record f { limit = none }) s)
      → (s : S) → Refuses (synapse_listing_is_ordered_and_filtered store from_parts) s
  unfolding synapse_listing_is_ordered_and_filtered
  ignores_limit-Refuses same s = Refuses-next _ _ (λ u s₁. Refuses-read _ _ (λ listed e.
      Refuses-assert _ _ (λ v three. Refuses-assert _ _ (λ w falls. Refuses-read _ _ (λ live e₁.
        Refuses-assert _ _ (λ x at. Refuses-assert _ _ (λ y out. Refuses-read _ _ (λ heavy e₂.
          Refuses-assert _ _ (λ z weighs. Refuses-read _ _ (λ idle e₃.
            Refuses-assert _ _ (λ t rests. Refuses-read _ _ (λ capped e₄.
              Refuses-assert _ _ (λ d one. Refuses-absurd _ (
                no_single _ listed capped (sym e ∙ sym (same any_synapse 1 s₁) ∙ e₄) three
                  one))))))))))))))

  pub admits_duplicates-Refuses :
      ((id : SignalId) (now_ns ttl : ℕ) (s : S)
        → (store.check_and_set_seen id now_ns ttl s).0 ≡ ok false)
      → (s : S) → Refuses (dedup_is_check_and_set store from_parts) s
  unfolding dedup_is_check_and_set
  admits_duplicates-Refuses fresh s = Refuses-next _ _ (λ first s₁. Refuses-next _ _ (λ u s₂.
      Refuses-expect _ _ (λ second s₃ e. Refuses-assert _ _ (λ v seen.
        Refuses-absurd _
          (differ second false (sym (ap (λ p. p.0) e) ∙ fresh _ _ _ s₂) seen refl)))))

  pub never_expires-Refuses :
      ((id : SignalId) (now_ns then_ns : ℕ) (s : S)
        → store.has_seen id now_ns s ≡ store.has_seen id then_ns s)
      → (s : S) → Refuses (dedup_entries_expire store from_parts) s
  unfolding dedup_entries_expire
  never_expires-Refuses same s = Refuses-next _ _ (λ first s₁. Refuses-next _ _ (λ u s₂.
      Refuses-read _ _ (λ within e. Refuses-assert _ _ (λ v seen. Refuses-read _ _ (λ past e₁.
        Refuses-assert _ _ (λ w over.
          Refuses-absurd _ (differ within past (sym e ∙ same _ _ _ s₂ ∙ e₁) seen over)))))))

  pub resolves_again-Refuses :
      ((id : JournalId) (o : Outcome) (now_ns : ℕ) (e : JournalEntry F) (s s₁ : S)
        → store.resolve_decision id o now_ns s ≡ (ok (some e), s₁)
        → e.resolved_at_ns ≡ some now_ns)
      → (s : S) → Refuses (journal_resolution_is_idempotent store from_parts) s
  unfolding journal_resolution_is_idempotent
  resolves_again-Refuses again s = Refuses-next _ _ (λ id s₁. Refuses-next _ _ (λ first s₂.
      Refuses-expect _ _ (λ reply s₃ e. Refuses-present _ _ (λ second q.
        Refuses-assert _ _ (λ u kept. Refuses-false _ _ (
          overwritten second.resolved_at_ns
            (again _ _ _ second s₂ s₃ (e ∙ ap (λ r. (ok r, s₃)) q))))))))

  pub ignores_region-Refuses :
      ((r q : Option String) (n : ℕ) (s : S) → store.list_peers r n s ≡ store.list_peers q n s)
      → (s : S) → Refuses (peer_roundtrip store from_parts) s
  unfolding peer_roundtrip
  ignores_region-Refuses same s = Refuses-next _ _ (λ u s₁. Refuses-next _ _ (λ found s₂.
      Refuses-present _ _ (λ fetched q. Refuses-assert _ _ (λ v kept. Refuses-read _ _ (λ near_ e.
        Refuses-assert _ _ (λ w in_. Refuses-read _ _ (λ far e₁. Refuses-assert _ _ (λ x out.
          Refuses-absurd _ (no_both _ near_ far (sym e ∙ same _ _ _ s₂ ∙ e₁) in_ out)))))))))

  pub loses_activation-Refuses :
      ((s : S) → store.load_activation s ≡ ok none)
      → (s : S) → Refuses (activation_roundtrip store from_parts) s
  unfolding activation_roundtrip
  loses_activation-Refuses lost s = Refuses-next _ _ (λ before s₁. Refuses-next _ _ (λ u s₂.
      Refuses-next _ _ (λ v s₃. Refuses-read _ _ (λ loaded e.
        Refuses-assert _ _
          (λ w same. Refuses-absurd _ (no_snapshot _ loaded _ (sym (lost s₃) ∙ e) same))))))

  pub ignores_type-Refuses :
      ((t u : Option SignalType) (n : ℕ) (s : S)
        → store.recent_decisions t n s ≡ store.recent_decisions u n s)
      → (s : S) → Refuses (journal_roundtrip store from_parts) s
  unfolding journal_roundtrip
  ignores_type-Refuses same s = Refuses-next _ _ (λ id s₁. Refuses-next _ _ (λ found s₂.
      Refuses-next _ _ (λ waiting s₃. Refuses-next _ _ (λ a s₄. Refuses-next _ _ (λ b s₅.
        Refuses-next _ _ (λ c s₆. Refuses-next _ _ (λ d s₇. Refuses-next _ _ (λ reply s₈.
          Refuses-next _ _ (λ resolved s₉. Refuses-next _ _ (λ f t₁. Refuses-next _ _ (λ g t₂.
            Refuses-next _ _ (λ left t₃. Refuses-next _ _ (λ h t₄. Refuses-read _ _ (λ recent e.
              Refuses-assert _ _ (λ i in_. Refuses-read _ _ (λ others e₁.
                Refuses-assert _ _ (λ j out.
                  Refuses-absurd _
                    (no_both _ recent others (sym e ∙ same _ _ _ t₄ ∙ e₁) in_ out))))))))))))))))))

  pub loses_meta-Refuses :
      ((key : String) (s : S) → store.get_meta key s ≡ ok none)
      → (s : S) → Refuses (meta_roundtrip store from_parts) s
  unfolding meta_roundtrip
  loses_meta-Refuses lost s = Refuses-next _ _ (λ absent s₁. Refuses-next _ _ (λ u s₂.
      Refuses-next _ _ (λ v s₃. Refuses-read _ _ (λ found e.
        Refuses-assert _ _
          (λ w same. Refuses-absurd _ (no_bytes found _ (sym (lost _ s₃) ∙ e) same))))))
