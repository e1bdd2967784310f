-- ===== src/Node/Reference.antt =====
-- The operations of runtime/ntl-core/src/store/memory.rs that routing and a restart
-- call, as an instance of what the node relies on.
use ntl.Base.{
  refl, arith, ◌∙◌, sym, ap, ok, Bool, true, false, inl, inr, Bool-cases, String, saturating_add,
  saturating_mul, number_eq, text_eq, ◌==◌,
}
use ntl.Base.Map.{get, insert, get-insert, get-insert_self}
use ntl.Float.{Float}
use ntl.Store.Memory.{
  put_meta, get_meta, list_synapses, append_decision, check_and_set_seen, live_at, put_synapse,
  record_influence, pending_decision_for, resolve_decision,
}
use ntl.Store.Memory.Interface.{memory_store}
use ntl.Node.Arrival.{IsReliable}
use ntl.Node.Restart.{KeepsMeta}
use ntl.Runtime.Reload.{KeepsEntries}
use ntl.Node.Journal.{KeepsJournal}

module _ {F : Type 0} ⦃fl : Float F⦄ where
  pub memory_store-IsReliable :
      (id_leb : String → String → Bool) → IsReliable (memory_store {F = F} id_leb)
  unfolding memory_store list_synapses append_decision check_and_set_seen
  memory_store-IsReliable id_leb = record {
    list_ok = λ f st. (_, refl);
    append_ok = λ e st. (_, _, refl);
    seen_ok = λ id now_ns ttl st. elim (Bool-cases (live_at now_ns (get id st.seen))) [
      | inl e ↦ (true, st, rw e refl)
      | inr e ↦ (
        false,
        record st {
          seen = insert id (saturating_add now_ns (saturating_mul ttl 1000000000)) st.seen;
        },
        rw e refl,
      )
    ];
  }

  pub memory_store-KeepsMeta :
      (id_leb : String → String → Bool) → KeepsMeta (memory_store {F = F} id_leb)
  unfolding memory_store put_meta get_meta
  memory_store-KeepsMeta id_leb = record {
    put_get = λ k v s s' u h.
        ap ((memory_store id_leb).get_meta k) (sym (ap (λ z. z.1) h))
        ∙ ap ok (get-insert_self k v s.meta);
    migrate_get =
        λ k v s s' u h p. ap ((memory_store id_leb).get_meta k) (sym (ap (λ z. z.1) h)) ∙ p;
  }

  pub memory_store-KeepsEntries :
      (id_leb : String → String → Bool) → KeepsEntries (memory_store {F = F} id_leb)
  unfolding memory_store put_meta get_meta
  memory_store-KeepsEntries id_leb = record {
    put_get = (memory_store-KeepsMeta id_leb).put_get;
    put_other = λ k asked v s s' u n h.
        ap ((memory_store id_leb).get_meta asked) (sym (ap (λ z. z.1) h))
        ∙ ap ok (
            get-insert k asked v s.meta ∙ elim (Bool-cases (k == asked)) [
              | inl e ↦ absurd (n ((text_eq.eqb_iff k asked).0 e))
              | inr e ↦ rw e refl
            ]);
    flush_get = λ k s s' u h. ap ((memory_store id_leb).get_meta k) (sym (ap (λ z. z.1) h));
  }

  pub memory_store-KeepsJournal :
      (id_leb : String → String → Bool)
      → KeepsJournal (memory_store {F = F} id_leb) (λ s. s.journal)
  unfolding memory_store put_synapse record_influence pending_decision_for resolve_decision
  memory_store-KeepsJournal id_leb = record {
    put_synapse = λ rec s. refl;
    record_influence = λ peer x now_ns start_ns s. refl;
    pending_decision_for = λ signal peer s e h. ground arith;
    resolve_decision = λ id o now_ns s. refl;
  }
