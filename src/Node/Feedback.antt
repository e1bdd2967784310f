-- ===== src/Node/Feedback.antt =====
-- Receipts, timeouts, penalties and links in runtime/ntl-core/src/node.rs: how a node learns.
use ntl.Base.{
  ℕ, suc, Bool, false, Option, none, some, List, [], ◌∷◌, map, String, number_eq, ◌==◌,
  if◌then◌else◌, ltb, saturating_add, saturating_mul, is_empty, ok,
}
use ntl.Float.{Float, clamp}
use ntl.Delivery.{Receipt}
use ntl.Signal.{NodeId}
use ntl.Activation.{QueuedSignal, drain_if_starving, snapshot}
use ntl.Store.{
  forming, dormant, pruned, Outcome, timed_out, transport_failure, SynapseRecord, any_synapse,
  observed, JournalId, JournalEntry,
}
use ntl.Learning.{WeightUpdate, influence_window_start, receipt_deadline, normalize_outbound}
use ntl.Synapse.{
  SignatureFailureOutcome, from_record, to_record, new_with, activate, reactivate, apply_outcome,
  apply_signature_failure,
}
use ntl.Node.Monad.{Act, pure, fail, and_then}
use ntl.Node.{
  NodeState, Node, NodeError, cooldown, receipt_outcome, type_name, reading, writing, drawing,
}

-- The update reported for a synapse that is gone.
unfoldable pub no_update : {F : Type 0} ⦃fl : Float F⦄ → WeightUpdate F
no_update ⦃fl⦄ = record {
  before = fl.lit 0 1;
  after = fl.lit 0 1;
  applied_delta = fl.lit 0 1;
  capped = false;
}

-- Whether an entry was resolved at a given time: `resolved_at_ns == Some(now)`.
abbrev pub resolved_now : {F : Type 0} → ℕ → JournalEntry F → Bool
resolved_now now_ns e = elim e.resolved_at_ns [ none ↦ false | some t ↦ t == now_ns ]

module _ {S R F : Type 0} ⦃fl : Float F⦄ (node : Node S R F) where
  -- `put_synapse` for every record with its new weight.
  unfoldable pub put_weights :
      List (SynapseRecord F) → List F → Act (NodeState S R F) NodeError (Unit {0})
  put_weights [] ws = pure tt
  put_weights (rec ∷ recs) [] = pure tt
  put_weights (rec ∷ recs) (w ∷ ws) =
      and_then (writing (node.store.put_synapse (record rec { weight = w })))
        (λ u. put_weights recs ws)

  unfoldable pub rescale :
      List (SynapseRecord F) → Option (F × List F) → Act (NodeState S R F) NodeError (Option F)
  unfolding put_weights
  rescale recs none = pure none
  rescale recs (some (factor, ws)) = and_then (put_weights recs ws) (λ u. pure (some factor))

  unfoldable pub normalize_outbound_weights : Act (NodeState S R F) NodeError (Option F)
  unfolding rescale normalize_outbound
  normalize_outbound_weights = and_then (reading (node.store.list_synapses any_synapse)) (λ recs.
      if is_empty recs
      then pure none
      else rescale recs (normalize_outbound (map (λ r. r.weight) recs) node.config.learning))

  -- Influence is recorded only for a change that is more than rounding.
  unfoldable pub account : NodeId → F → ℕ → ℕ → Act (NodeState S R F) NodeError (Unit {0})
  account peer applied now_ns window_start =
      if fl.lt fl.epsilon (fl.abs applied)
      then and_then (writing (node.store.record_influence peer applied now_ns window_start))
          (λ f. pure tt)
      else pure tt

  -- The synapse after an outcome, and the update reported.
  unfoldable pub learned :
      JournalEntry F → Outcome → ℕ → F → SynapseRecord F → WeightUpdate F × SynapseRecord F
  unfolding from_record to_record apply_outcome type_name
  learned entry outcome now_ns influence_used rec =
      let (update, s) =
        apply_outcome outcome (clamp entry.signal_weight (fl.lit 0 1) (fl.lit 1 1))
          (type_name node.debug entry.signal_type) influence_used node.config.learning
          (from_record rec node.identity node.config.synapse) in
      (update, to_record (record s { last_active_ns = now_ns }))

  unfoldable pub apply_outcome_to_synapse :
      JournalEntry F → Outcome → ℕ → Act (NodeState S R F) NodeError (WeightUpdate F)
  unfolding learned account normalize_outbound_weights no_update
  apply_outcome_to_synapse entry outcome now_ns =
      let window_start = influence_window_start node.config.learning now_ns in
      and_then (reading (node.store.influence_since entry.peer window_start)) (λ influence_used.
        and_then (reading (node.store.get_synapse entry.synapse)) (λ found. elim found [
          | none ↦ pure no_update
          | some rec ↦
              let (update, after) = learned entry outcome now_ns influence_used rec in
              and_then (account entry.peer update.applied_delta now_ns window_start) (λ u.
                and_then (writing (node.store.put_synapse after))
                  (λ v. and_then normalize_outbound_weights (λ f. pure update)))
        ]))

  -- Learning from a decision, provided that it was resolved at this very time.
  unfoldable pub learn_resolved :
      Outcome
      → ℕ
      → Option (JournalEntry F)
      → Act (NodeState S R F) NodeError (Option (WeightUpdate F))
  unfolding apply_outcome_to_synapse
  learn_resolved outcome now_ns none = pure none
  learn_resolved outcome now_ns (some entry) =
      if resolved_now now_ns entry
      then and_then (apply_outcome_to_synapse entry outcome now_ns) (λ u. pure (some u))
      else pure none

  unfoldable pub resolve_and_learn :
      JournalId → Outcome → ℕ → Act (NodeState S R F) NodeError (Option (WeightUpdate F))
  unfolding learn_resolved
  resolve_and_learn id outcome now_ns =
      and_then (writing (node.store.resolve_decision id outcome now_ns))
        (λ resolved. learn_resolved outcome now_ns resolved)

  unfoldable pub fail_forward :
      JournalId → ℕ → Act (NodeState S R F) NodeError (Option (WeightUpdate F))
  unfolding resolve_and_learn
  fail_forward id now_ns = resolve_and_learn id transport_failure now_ns

  unfoldable pub apply_receipt :
      Receipt → NodeId → ℕ → Act (NodeState S R F) NodeError (Option (WeightUpdate F))
  unfolding resolve_and_learn receipt_outcome
  apply_receipt receipt from_peer now_ns =
      and_then (reading (node.store.pending_decision_for receipt.correlation_id from_peer))
        (λ found. elim found [
          | none ↦ pure none
          | some entry ↦ elim entry.id [
            | none ↦ pure none
            | some id ↦ resolve_and_learn id (receipt_outcome receipt) now_ns
          ]
        ])

  abbrev pub count_update : Option (WeightUpdate F) → ℕ → ℕ
  count_update none n = n
  count_update (some u) n = suc n

  unfoldable pub sweep_all : List (JournalEntry F) → ℕ → Act (NodeState S R F) NodeError ℕ
  unfolding resolve_and_learn
  sweep_all [] now_ns = pure 0
  sweep_all (e ∷ es) now_ns = elim e.id [
    | none ↦ sweep_all es now_ns
    | some id ↦
        and_then (resolve_and_learn id timed_out now_ns)
          (λ u. and_then (sweep_all es now_ns) (λ n. pure (count_update u n)))
  ]

  unfoldable pub sweep_timeouts : ℕ → ℕ → Act (NodeState S R F) NodeError ℕ
  unfolding sweep_all receipt_deadline
  sweep_timeouts limit now_ns =
      and_then
        (reading
          (node.store.expired_decisions (receipt_deadline node.config.learning now_ns) limit))
        (λ expired. sweep_all expired now_ns)

  unfoldable pub penalize_signature_failure :
      String → ℕ → Act (NodeState S R F) NodeError (Option SignatureFailureOutcome)
  unfolding from_record to_record apply_signature_failure
  penalize_signature_failure id now_ns = and_then (reading (node.store.get_synapse id)) (λ found.
      elim found [
        | none ↦ pure none
        | some rec ↦
            let (outcome, s) =
              apply_signature_failure now_ns node.config.learning
                (from_record rec node.identity node.config.synapse) in
            and_then (writing (node.store.put_synapse (to_record s))) (λ u. pure (some outcome))
      ])

  -- Until when a pruned synapse may not be formed again.
  unfoldable pub cooldown_until : SynapseRecord F → ℕ
  cooldown_until rec =
      saturating_add rec.last_active_ns
        (saturating_mul node.config.learning.signature_failure_cooldown_secs 1000000000)

  unfoldable pub reformed : SynapseRecord F → ℕ → SynapseRecord F
  unfolding from_record to_record activate
  reformed rec now_ns =
      let s = activate (record (from_record rec node.identity node.config.synapse) {
        weight = node.config.synapse.initial_weight;
        signature_failures = 0;
        failure_window_start_ns = 0;
        state = forming;
      }) in
      to_record (record s { last_active_ns = now_ns })

  unfoldable pub reconnected :
      SynapseRecord F → ℕ → Act (NodeState S R F) NodeError (SynapseRecord F)
  unfolding from_record to_record reactivate reformed cooldown_until
  reconnected existing now_ns = elim existing.state [
    | pruned ↦
        if ltb now_ns (cooldown_until existing)
        then fail cooldown
        else and_then (writing (node.store.put_synapse (reformed existing now_ns)))
            (λ u. pure (reformed existing now_ns))
    | dormant ↦
        let rec = to_record (
          reactivate node.config.synapse
            (from_record existing node.identity node.config.synapse)) in
        and_then (writing (node.store.put_synapse rec)) (λ u. pure rec)
    | _ ↦ pure existing
  ]

  unfoldable pub introduced : NodeId → ℕ → Act (NodeState S R F) NodeError (SynapseRecord F)
  unfolding to_record activate new_with
  introduced peer now_ns =
      and_then
        (drawing (new_with node.rng node.ulid_text node.identity peer node.config.synapse now_ns))
        (λ s.
          let rec = to_record (activate s) in
          and_then (writing (node.store.put_synapse rec)) (λ u.
            and_then
              (writing (
                node.store.put_peer (record {
                  id = peer;
                  addresses = [];
                  region = none;
                  advertised_types = [];
                  last_seen_ns = now_ns;
                  source = observed;
                })))
              (λ v. pure rec)))

  unfoldable pub upsert_synapse : NodeId → ℕ → Act (NodeState S R F) NodeError (SynapseRecord F)
  unfolding reconnected introduced
  upsert_synapse peer now_ns = and_then (reading (node.store.synapse_for_peer peer)) (λ found.
      elim found [ none ↦ introduced peer now_ns | some existing ↦ reconnected existing now_ns ])

  unfoldable pub poll_activation : ℕ → Act (NodeState S R F) NodeError (List (QueuedSignal F))
  unfolding drain_if_starving
  poll_activation now_ns s =
      let (released, gate) = drain_if_starving s.activation now_ns in
      (ok released, record s { activation = gate })

  unfoldable pub checkpoint : ℕ → Act (NodeState S R F) NodeError (Unit {0})
  unfolding snapshot
  checkpoint now_ns s =
      and_then (writing (node.store.save_activation (snapshot s.activation now_ns)))
        (λ u.
          and_then (writing (node.store.purge_expired_seen now_ns)) (λ n. writing node.store.flush))
        s
