-- ===== src/Node/Journal.antt =====
-- What learning in runtime/ntl-core/src/node.rs leaves of the journal.
use ntl.Base.{
  ℕ, ◌≡◌, refl, ◌∙◌, Bool, true, false, Option, none, some, List, [], ◌∷◌, map, Result, ok, err,
  find, if◌then◌else◌, is_empty, number_eq,
}
use ntl.Float.{Float}
use ntl.Signal.{NodeId, SignalId}
use ntl.Store.{NodeStore, Read, JournalId, JournalEntry, Outcome, SynapseRecord, any_synapse}
use ntl.Store.Memory.{resolve_in, is_pending_for}
use ntl.Learning.{influence_window_start, normalize_outbound}
use ntl.Node.Monad.{Act, pure, and_then, continue}
use ntl.Node.{NodeState, Node, NodeError, reading, writing}
use ntl.Node.Feedback.{
  no_update, put_weights, rescale, normalize_outbound_weights, account, learned,
  apply_outcome_to_synapse, learn_resolved, resolve_and_learn,
}

-- A store as its journal is seen: what learning writes does not touch it, and a decision is looked up and
-- resolved in it as in a list.
pub record KeepsJournal {S F : Type 0} (store : NodeStore S F) (journal : S → List (JournalEntry F))
    : Type 0 where
  pub put_synapse :
      (rec : SynapseRecord F) (s : S) → journal (store.put_synapse rec s).1 ≡ journal s
  pub record_influence :
      (peer : NodeId) (x : F) (now_ns start_ns : ℕ) (s : S)
      → journal (store.record_influence peer x now_ns start_ns s).1 ≡ journal s
  pub pending_decision_for :
      (signal : SignalId) (peer : NodeId) (s : S) (e : JournalEntry F)
      → store.pending_decision_for signal peer s ≡ ok (some e)
      → find (is_pending_for signal peer) (journal s) ≡ some e
  pub resolve_decision :
      (id : JournalId) (o : Outcome) (now_ns : ℕ) (s : S)
      → journal (store.resolve_decision id o now_ns s).1 ≡ (resolve_in id o now_ns (journal s)).1

module _ {S R F : Type 0} ⦃fl : Float F⦄ (node : Node S R F) (journal : S → List (JournalEntry F))
    (laws : KeepsJournal node.store journal) where
  record Keeps {A : Type 0} (m : Act (NodeState S R F) NodeError A) : Type 0 where
    kept : (st : NodeState S R F) → journal (m st).1.store ≡ journal st.store

  continue-kept :
      {A B : Type 0} (f : A → Act (NodeState S R F) NodeError B)
      (p : Result NodeError A × NodeState S R F)
      → ((a : A) → Keeps (f a))
      → journal (continue f p).1.store ≡ journal p.1.store
  continue-kept f (ok a, st) k = (k a).kept st
  continue-kept f (err e, st) k = refl

  Keeps-and_then :
      {A B : Type 0} {m : Act (NodeState S R F) NodeError A}
      {f : A → Act (NodeState S R F) NodeError B}
      → Keeps m
      → ((a : A) → Keeps (f a))
      → Keeps (and_then m f)
  Keeps-and_then {m = m} {f = f} r k = record { kept = λ st. continue-kept f (m st) k ∙ r.kept st }

  Keeps-pure : {A : Type 0} (a : A) → Keeps (pure a)
  Keeps-pure a = record { kept = λ st. refl }

  Keeps-reading : {A : Type 0} (f : S → Read A) → Keeps (reading f)
  Keeps-reading f = record { kept = λ st. refl }

  Keeps-writing :
      {A : Type 0} (f : S → Read A × S)
      → ((s : S) → journal (f s).1 ≡ journal s)
      → Keeps (writing f)
  Keeps-writing f h = record { kept = λ st. h st.store }

  put_weights-Keeps :
      (recs : List (SynapseRecord F)) (ws : List F) → Keeps (put_weights node recs ws)
  unfolding put_weights
  put_weights-Keeps [] ws = Keeps-pure tt
  put_weights-Keeps (rec ∷ recs) [] = Keeps-pure tt
  put_weights-Keeps (rec ∷ recs) (w ∷ ws) =
      Keeps-and_then (Keeps-writing _ (laws.put_synapse _)) (λ u. put_weights-Keeps recs ws)

  rescale-Keeps :
      (recs : List (SynapseRecord F)) (o : Option (F × List F)) → Keeps (rescale node recs o)
  unfolding rescale
  rescale-Keeps recs none = Keeps-pure none
  rescale-Keeps recs (some (factor, ws)) =
      Keeps-and_then (put_weights-Keeps recs ws) (λ u. Keeps-pure (some factor))

  Keeps-if :
      {A : Type 0} (b : Bool) {m n : Act (NodeState S R F) NodeError A}
      → Keeps m
      → Keeps n
      → Keeps (if b then m else n)
  Keeps-if true k l = k
  Keeps-if false k l = l

  Keeps-option :
      {A B : Type 0} (o : Option A) {m : Act (NodeState S R F) NodeError B}
      {k : A → Act (NodeState S R F) NodeError B}
      → Keeps m
      → ((a : A) → Keeps (k a))
      → Keeps (elim o [ none ↦ m | some a ↦ k a ])
  Keeps-option none r q = r
  Keeps-option (some a) r q = q a

  normalize-Keeps : Keeps (normalize_outbound_weights node)
  unfolding normalize_outbound_weights
  normalize-Keeps = Keeps-and_then (Keeps-reading (node.store.list_synapses any_synapse)) (λ recs.
      Keeps-if (is_empty recs) (Keeps-pure none)
        (rescale-Keeps recs (normalize_outbound (map (λ r. r.weight) recs) node.config.learning)))

  account-Keeps :
      (peer : NodeId) (applied : F) (now_ns start_ns : ℕ)
      → Keeps (account node peer applied now_ns start_ns)
  unfolding account
  account-Keeps peer applied now_ns start_ns =
      Keeps-if (fl.lt fl.epsilon (fl.abs applied))
        (Keeps-and_then (Keeps-writing _ (laws.record_influence peer applied now_ns start_ns))
          (λ f. Keeps-pure tt))
        (Keeps-pure tt)

  apply_outcome-Keeps :
      (entry : JournalEntry F) (o : Outcome) (now_ns : ℕ)
      → Keeps (apply_outcome_to_synapse node entry o now_ns)
  unfolding apply_outcome_to_synapse
  apply_outcome-Keeps entry o now_ns =
      let start_ns = influence_window_start node.config.learning now_ns in
      Keeps-and_then (Keeps-reading (node.store.influence_since entry.peer start_ns)) (λ used.
        Keeps-and_then {A = Option (SynapseRecord F)}
          (Keeps-reading (node.store.get_synapse entry.synapse))
          (λ found. Keeps-option found (Keeps-pure no_update) (λ rec.
            let (update, after) = learned node entry o now_ns used rec in
            Keeps-and_then (account-Keeps entry.peer update.applied_delta now_ns start_ns) (λ u.
              Keeps-and_then (Keeps-writing (node.store.put_synapse after) (laws.put_synapse after))
                (λ v. Keeps-and_then normalize-Keeps (λ f. Keeps-pure update))))))

  learn_resolved-Keeps :
      (o : Outcome) (now_ns : ℕ) (found : Option (JournalEntry F))
      → Keeps (learn_resolved node o now_ns found)
  unfolding learn_resolved
  learn_resolved-Keeps o now_ns none = Keeps-pure none
  learn_resolved-Keeps o now_ns (some entry) =
      Keeps-if _ (Keeps-and_then (apply_outcome-Keeps entry o now_ns) (λ u. Keeps-pure (some u)))
        (Keeps-pure none)

  pub resolve_and_learn_journal :
      (id : JournalId) (o : Outcome) (now_ns : ℕ) (st : NodeState S R F)
      → journal (resolve_and_learn node id o now_ns st).1.store
        ≡ (resolve_in id o now_ns (journal st.store)).1
  unfolding resolve_and_learn
  resolve_and_learn_journal id o now_ns st =
      continue-kept _ (writing (node.store.resolve_decision id o now_ns) st)
        (learn_resolved-Keeps o now_ns)
      ∙ laws.resolve_decision id o now_ns st.store
