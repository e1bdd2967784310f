-- ===== src/Node/Receive.antt =====
-- Arrivals, emissions and routing in runtime/ntl-core/src/node.rs.
use ntl.Base.{
  ℕ, Bool, not, ◌&&◌, Option, none, some, List, [], ◌∷◌, map, String, number_eq, ◌==◌,
  if◌then◌else◌, any, is_empty, ok, err,
}
use ntl.Float.{Float}
use ntl.Delivery.{RejectReason, queue_full, no_route}
use ntl.Signal.{Signal, signal_requires_receipt}
use ntl.Activation.{QueuedSignal, AdmitOutcome, admit}
use ntl.Store.{pending, SynapseRecord, eligible, JournalEntry, Read}
use ntl.Learning.{decayed_weight}
use ntl.Synapse.{Synapse, from_record}
use ntl.Propagation.{Chosen, select_synapses, check_propagable, flood_depth_reached}
use ntl.Node.Monad.{Act, pure, and_then}
use ntl.Node.{
  NodeState, Node, NodeError, Evicted, Forward, Disposition, without, nothing, refuse, hop_count,
  type_name, reading, writing, drawn,
}

module _ {S R F : Type 0} ⦃fl : Float F⦄ (node : Node S R F) where
  -- A stored synapse with its weight decayed to the present.
  unfoldable pub rehydrate : ℕ → SynapseRecord F → Synapse F
  unfolding from_record decayed_weight
  rehydrate now_ns rec =
      let s = from_record rec node.identity node.config.synapse in
      record s { weight = decayed_weight s.weight s.last_active_ns now_ns node.config.learning }

  unfoldable pub decision : {P : Type 0} → Signal F P → ℕ → Chosen F → JournalEntry F
  decision signal now_ns c = record {
    id = none;
    signal = signal.id;
    signal_type = signal.signal_type;
    synapse = c.synapse.id;
    peer = c.synapse.remote_node;
    score = c.score;
    signal_weight = signal.weight;
    explored = c.explored;
    decided_at_ns = now_ns;
    outcome = pending;
    resolved_at_ns = none;
  }

  unfoldable pub journal_all :
      {P : Type 0}
      → Signal F P
      → ℕ
      → List (Chosen F)
      → Act (NodeState S R F) NodeError (List Forward)
  unfolding decision
  journal_all signal now_ns [] = pure []
  journal_all signal now_ns (c ∷ cs) =
      and_then (writing (node.store.append_decision (decision signal now_ns c))) (λ id.
        and_then (journal_all signal now_ns cs) (λ rest. pure (
          record {
            synapse = c.synapse.id;
            peer = c.synapse.remote_node;
            journal_id = id;
            explored = c.explored;
          }
          ∷ rest)))

  unfoldable pub selecting :
      {P : Type 0}
      → Signal F P
      → Option String
      → ℕ
      → List (SynapseRecord F)
      → Act (NodeState S R F) NodeError (List (Chosen F))
  unfolding select_synapses rehydrate type_name
  selecting signal arrival now_ns records s = drawn s (
      select_synapses node.rng (map (rehydrate now_ns) records) signal.scope
        (type_name node.debug signal.signal_type) arrival node.config.propagation
        node.config.learning now_ns s.rng)

  unfoldable pub plan_forwarding :
      {P : Type 0} → Signal F P → Option String → ℕ → Act (NodeState S R F) NodeError (List Forward)
  unfolding journal_all selecting flood_depth_reached
  plan_forwarding signal arrival now_ns =
      if flood_depth_reached signal
      then pure []
      else and_then (reading (node.store.list_synapses eligible)) (λ records.
        if is_empty records
        then pure []
        else and_then (selecting signal arrival now_ns records)
            (λ chosen. journal_all signal now_ns chosen))

  -- What a route does for a signal that leaves now, or why there is none.
  unfoldable pub routed : {P : Type 0} → Signal F P → List Forward → Disposition F
  unfolding refuse nothing
  routed signal forward_to =
      if is_empty forward_to && signal_requires_receipt signal
      then refuse signal no_route (hop_count signal)
      else record nothing { forward_to = forward_to }

  unfoldable pub receive_local :
      {P : Type 0} → Signal F P → ℕ → Act (NodeState S R F) NodeError (Disposition F)
  unfolding plan_forwarding check_propagable routed refuse
  receive_local signal now_ns =
      elim (check_propagable signal node.identity node.config.propagation) [
        | err reason ↦ pure (refuse signal reason (hop_count signal))
        | ok u ↦
            and_then (plan_forwarding signal none now_ns)
              (λ forward_to. pure (routed signal forward_to))
      ]

  abbrev pub weight_of : Read (Option (SynapseRecord F)) → F
  weight_of (ok (some rec)) = rec.weight
  weight_of (ok none) = fl.lit 1 1
  weight_of (err e) = fl.lit 1 1

  -- The weight of the synapse a signal came in on.
  unfoldable pub arrival_weight : Option String → S → F
  arrival_weight none st = fl.lit 1 1
  arrival_weight (some id) st = weight_of (node.store.get_synapse id st)

  abbrev pub reason_or_full : Option RejectReason → RejectReason
  reason_or_full none = queue_full
  reason_or_full (some reason) = reason

  abbrev pub queue_entry : {P : Type 0} → Signal F P → ℕ → QueuedSignal F
  queue_entry signal now_ns = record {
    id = signal.id;
    origin = signal.origin;
    weight = signal.weight;
    delivery = signal.delivery;
    enqueued_at_ns = now_ns;
  }

  abbrev pub fired_here : {P : Type 0} → Signal F P → List (QueuedSignal F) → Bool
  fired_here signal fired = any (λ q. q.id == signal.id) fired

  -- The disposition of an admitted signal, once it has been planned if it leaves now.
  unfoldable pub settled :
      {P : Type 0}
      → Signal F P
      → List (QueuedSignal F)
      → Option (Evicted F)
      → List Forward
      → Disposition F
  unfolding without refuse
  settled signal fired evicted forward_to =
      if fired_here signal fired && is_empty forward_to && signal_requires_receipt signal
      then record (refuse signal no_route (hop_count signal)) {
        handle_locally = without fired signal.id;
        evicted = evicted;
      }
      else record {
        forward_to = forward_to;
        handle_locally = fired;
        receipt = none;
        rejected = none;
        evicted = evicted;
        queued = not (fired_here signal fired);
      }

  unfoldable pub admitted :
      {P : Type 0}
      → Signal F P
      → Option String
      → ℕ
      → List (QueuedSignal F)
      → Option (Evicted F)
      → Act (NodeState S R F) NodeError (Disposition F)
  unfolding plan_forwarding settled
  admitted signal arrival now_ns fired evicted =
      and_then (if fired_here signal fired then plan_forwarding signal arrival now_ns else pure [])
        (λ forward_to. pure (settled signal fired evicted forward_to))

  unfoldable pub dispose :
      {P : Type 0}
      → Signal F P
      → Option String
      → ℕ
      → AdmitOutcome F
      → Act (NodeState S R F) NodeError (Disposition F)
  unfolding admitted without refuse
  dispose signal arrival now_ns outcome = elim outcome.dropped [
    | none ↦ admitted signal arrival now_ns outcome.fired none
    | some dropped ↦
        if dropped.id == signal.id
        then pure (record (refuse signal (reason_or_full outcome.drop_reason) (hop_count signal)) {
          handle_locally = without outcome.fired signal.id;
        })
        else admitted signal arrival now_ns outcome.fired
            (some (record { signal = dropped; reason = reason_or_full outcome.drop_reason }))
  ]

  unfoldable pub admitting :
      {P : Type 0}
      → Signal F P
      → Option String
      → ℕ
      → Act (NodeState S R F) NodeError (AdmitOutcome F)
  unfolding arrival_weight
  admitting signal arrival now_ns s =
      let (outcome, gate, r) =
        admit node.rng s.activation (queue_entry signal now_ns) (arrival_weight arrival s.store)
          now_ns s.rng in
      (ok outcome, record s { activation = gate; rng = r })

  unfoldable pub receive :
      {P : Type 0}
      → Signal F P
      → Option String
      → ℕ
      → Act (NodeState S R F) NodeError (Disposition F)
  unfolding nothing check_propagable refuse admitting dispose
  receive signal arrival now_ns =
      and_then
        (writing (
          node.store.check_and_set_seen signal.id now_ns
            node.config.propagation.dedup_cache_seconds))
        (λ seen.
          if seen
          then pure nothing
          else (elim (check_propagable signal node.identity node.config.propagation) [
            | err reason ↦ pure (refuse signal reason (hop_count signal))
            | ok u ↦
                and_then (admitting signal arrival now_ns)
                  (λ outcome. dispose signal arrival now_ns outcome)
          ]))

  unfoldable pub plan_release :
      {P : Type 0} → Signal F P → Option String → ℕ → Act (NodeState S R F) NodeError (List Forward)
  plan_release signal arrival now_ns = plan_forwarding signal arrival now_ns
