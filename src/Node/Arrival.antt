-- ===== src/Node/Arrival.antt =====
-- `receive` and `receive_local` of runtime/ntl-core/src/node.rs: what a node owes the sender of a signal.
use ntl.Base.{
  ℕ, ◌<◌, ◌≡◌, refl, ◌⊎◌, inl, inr, Bool, true, false, Option, none, some, List, [], ◌∷◌, map,
  arith, String, length, is_empty, ok, Bool-cases, Option-cases, Result-cases, number_eq, ◌==◌,
}
use ntl.Float.{Float}
use ntl.Rng.{IsFair}
use ntl.Delivery.{RejectReason, no_route, receipt_rejected}
use ntl.Signal.{Signal, SignalId, signal_requires_receipt}
use ntl.Activation.{QueuedSignal, AdmitOutcome, admit}
use ntl.Store.{NodeStore, SynapseFilter, SynapseRecord, eligible, JournalEntry, JournalId}
use ntl.Propagation.{Chosen, check_propagable, flood_depth_reached}
use ntl.Propagation.Choice.{IsChoice, select_synapses-IsChoice}
use ntl.Node.{
  Node, NodeState, Evicted, Forward, Disposition, without, nothing, refuse, hop_count, type_name,
}
use ntl.Node.Receive.{
  rehydrate, decision, journal_all, selecting, plan_forwarding, routed, receive_local, settled,
  admitted, dispose, admitting, arrival_weight, queue_entry, fired_here, reason_or_full, receive,
}

-- A store none of whose operations for routing fails, as the reference store is.
pub record IsReliable {S F : Type 0} (ns : NodeStore S F) : Type 0 where
  pub list_ok :
      (f : SynapseFilter F) (st : S)
      → (recs : List (SynapseRecord F)) × (ns.list_synapses f st ≡ ok recs)
  pub append_ok :
      (e : JournalEntry F) (st : S)
      → (id : JournalId) × (st' : S) × (ns.append_decision e st ≡ (ok id, st'))
  pub seen_ok :
      (id : SignalId) (now_ns ttl : ℕ) (st : S)
      → (seen : Bool) × (st' : S) × (ns.check_and_set_seen id now_ns ttl st ≡ (ok seen, st'))

module _ {F P : Type 0} where
  -- A signal that asks for a receipt is still held, or on its way, or its refusal is answered.
  unfoldable pub IsAccounted : Signal F P → Disposition F → Type 0
  IsAccounted signal d =
      signal_requires_receipt signal ≡ true
      → (d.queued ≡ true)
        ⊎ ((0 < length d.forward_to)
            ⊎ ((reason : RejectReason) × (d.receipt
                  ≡ some (receipt_rejected signal.id reason (hop_count signal)))))

  refuse-IsAccounted :
      (signal : Signal F P) (reason : RejectReason) (fired : List (QueuedSignal F))
      (e : Option (Evicted F))
      → IsAccounted signal
          (record (refuse signal reason (hop_count signal)) { handle_locally = fired; evicted = e })
  unfolding IsAccounted refuse
  refuse-IsAccounted signal reason fired e r = inr (inr (reason, rw r refl))

  refuse-queued :
      (signal : Signal F P) (reason : RejectReason) (hops : ℕ)
      → (refuse signal reason hops).queued ≡ false
  unfolding refuse
  refuse-queued signal reason hops = refl

module _ {S R F P : Type 0} ⦃fl : Float F⦄ (node : Node S R F) where
  settled-IsAccounted :
      (signal : Signal F P) (fired : List (QueuedSignal F)) (e : Option (Evicted F))
      (fs : List Forward)
      → IsAccounted signal (settled node signal fired e fs)
  unfolding settled IsAccounted refuse
  settled-IsAccounted signal fired e [] r = elim (Bool-cases (fired_here node signal fired)) [
    | inl f ↦ rw (f, r) (inr (inr (no_route, refl)))
    | inr f ↦ rw f (inl refl)
  ]
  settled-IsAccounted signal fired e (g ∷ gs) r = inr (inl (ground arith))

  routed-IsAccounted :
      (signal : Signal F P) (fs : List Forward) → IsAccounted signal (routed node signal fs)
  unfolding routed IsAccounted refuse nothing
  routed-IsAccounted signal [] r = rw r (inr (inr (no_route, refl)))
  routed-IsAccounted signal (g ∷ gs) r = inr (inl (omega arith))

  routed-queued : (signal : Signal F P) (fs : List Forward) → (routed node signal fs).queued ≡ false
  unfolding routed refuse nothing
  routed-queued signal fs = ground arith

  module _ (reliable : IsReliable node.store) (fair : IsFair node.rng) where
    journal_all-ok :
        (signal : Signal F P) (now_ns : ℕ) (cs : List (Chosen F)) (s : NodeState S R F)
        → (fs : List Forward) × (s' : NodeState S R F) × (journal_all node signal now_ns cs s
            ≡ (ok fs, s'))
    unfolding journal_all
    journal_all-ok signal now_ns [] s = ([], s, refl)
    journal_all-ok signal now_ns (c ∷ cs) s =
        let (id, st', e) = reliable.append_ok (decision node signal now_ns c) s.store in
        let (fs, s', f) = journal_all-ok signal now_ns cs (record s { store = st' }) in
        (
          record {
            synapse = c.synapse.id;
            peer = c.synapse.remote_node;
            journal_id = id;
            explored = c.explored;
          }
              ∷ fs,
          s',
          rw (e, f) refl,
        )

    plan_forwarding-ok :
        (signal : Signal F P) (arrival : Option String) (now_ns : ℕ) (s : NodeState S R F)
        → (fs : List Forward) × (s' : NodeState S R F) × (plan_forwarding node signal arrival now_ns
              s
            ≡ (ok fs, s'))
    unfolding plan_forwarding selecting IsChoice
    plan_forwarding-ok signal arrival now_ns s = elim (Bool-cases (flood_depth_reached signal)) [
      | inl d ↦ ([], s, rw d refl)
      | inr d ↦
          let (recs, e) = reliable.list_ok eligible s.store in
          elim (Bool-cases (is_empty recs)) [
            | inl n ↦ ([], s, rw (d, e, n) refl)
            | inr n ↦
                let (chosen, r, f, a, l) =
                  select_synapses-IsChoice node.rng fair (map (rehydrate node now_ns) recs)
                    signal.scope (type_name node.debug signal.signal_type) arrival
                    node.config.propagation node.config.learning now_ns s.rng in
                let (fs, s', g) = journal_all-ok signal now_ns chosen (record s { rng = r }) in
                (fs, s', rw (d, e, n, f, g) refl)
          ]
    ]

    -- An emission of the node's own always gets an answer, and is never reported as queued: a signal that
    -- asks for a receipt goes to at least one peer, or is refused with a receipt for it. The store does
    -- not fail, and the generator keeps to its bound.
    pub receive_local_answers :
        (signal : Signal F P) (now_ns : ℕ) (s : NodeState S R F)
        → (d : Disposition F) × (s' : NodeState S R F) × (receive_local node signal now_ns s
            ≡ (ok d, s'))
          × IsAccounted signal d
          × (d.queued ≡ false)
    unfolding receive_local
    receive_local_answers signal now_ns s =
        elim (Result-cases (check_propagable signal node.identity node.config.propagation)) [
          | inl (u, e) ↦
              let (fs, s', f) = plan_forwarding-ok signal none now_ns s in
              (
                routed node signal fs,
                s',
                rw (receive_local, e, f) refl,
                routed-IsAccounted signal fs,
                routed-queued signal fs,
              )
          | inr (reason, e) ↦ (
            refuse signal reason (hop_count signal),
            s,
            rw (receive_local, e) refl,
            refuse-IsAccounted signal reason [] none,
            refuse-queued signal reason (hop_count signal),
          )
        ]

    admitted-answers :
        (signal : Signal F P) (arrival : Option String) (now_ns : ℕ) (fired : List (QueuedSignal F))
        (e : Option (Evicted F)) (s : NodeState S R F)
        → (d : Disposition F) × (s' : NodeState S R F) × (admitted node signal arrival now_ns fired
              e s
            ≡ (ok d, s'))
          × IsAccounted signal d
    unfolding admitted
    admitted-answers signal arrival now_ns fired e s =
        elim (Bool-cases (fired_here node signal fired)) [
          | inl f ↦
              let (fs, s', g) = plan_forwarding-ok signal arrival now_ns s in
              (
                settled node signal fired e fs,
                s',
                rw (f, g) refl,
                settled-IsAccounted signal fired e fs,
              )
          | inr f ↦
              (settled node signal fired e [], s, rw f refl, settled-IsAccounted signal fired e [])
        ]

    dispose-answers :
        (signal : Signal F P) (arrival : Option String) (now_ns : ℕ) (o : AdmitOutcome F)
        (s : NodeState S R F)
        → (d : Disposition F) × (s' : NodeState S R F) × (dispose node signal arrival now_ns o s
            ≡ (ok d, s'))
          × IsAccounted signal d
    unfolding dispose
    dispose-answers signal arrival now_ns o s = elim (Option-cases o.dropped) [
      | inl e ↦
          let (d, s', f, a) = admitted-answers signal arrival now_ns o.fired none s in
          (d, s', rw (e, f) refl, a)
      | inr (dropped, e) ↦ elim (Bool-cases (dropped.id == signal.id)) [
        | inl h ↦ (
          record (refuse signal (reason_or_full node o.drop_reason) (hop_count signal)) {
            handle_locally = without o.fired signal.id;
          },
          s,
          rw (e, h) refl,
          refuse-IsAccounted signal (reason_or_full node o.drop_reason) (without o.fired signal.id)
              none,
        )
        | inr h ↦
            let (d, s', f, a) =
              admitted-answers signal arrival now_ns o.fired
                (some (record { signal = dropped; reason = reason_or_full node o.drop_reason }))
                s in
            (d, s', rw (e, h, f) refl, a)
      ]
    ]

    -- Every arrival gets an answer. For a duplicate, as the store reports it, the answer asks for nothing,
    -- and nothing changes but the store. Any other signal that asks for a receipt is reported as queued,
    -- or goes to at least one peer, or is refused with a receipt for it. The store does not fail, and the
    -- generator keeps to its bound.
    pub receive_answers :
        (signal : Signal F P) (arrival : Option String) (now_ns : ℕ) (s : NodeState S R F)
        → let (seen, store') =
            node.store.check_and_set_seen signal.id now_ns
              node.config.propagation.dedup_cache_seconds s.store in
          (d : Disposition F) × (s' : NodeState S R F) × (receive node signal arrival now_ns s
            ≡ (ok d, s'))
          × (seen ≡ ok true → (d ≡ nothing) × (s' ≡ record s { store = store' }))
          × (seen ≡ ok false → IsAccounted signal d)
    unfolding receive admitting
    receive_answers signal arrival now_ns s =
        let (seen, st', e) =
          reliable.seen_ok signal.id now_ns node.config.propagation.dedup_cache_seconds s.store in
        let s₁ = record s { store = st' } in
        elim (Bool-cases seen) [
          | inl q ↦ rw (e, q) (nothing, s₁, refl, (λ h. (refl, refl)), λ h. absurd (cc))
          | inr q ↦
              elim (Result-cases (check_propagable signal node.identity node.config.propagation)) [
                | inl (u, f) ↦
                    let gate =
                      admit node.rng s.activation (queue_entry node signal now_ns)
                        (arrival_weight node arrival st') now_ns s.rng in
                    let (d, s', g, a) =
                      dispose-answers signal arrival now_ns gate.0
                        (record s₁ { activation = gate.1; rng = gate.2 }) in
                    rw (e, q, f) (d, s', g, (λ h. absurd (cc)), λ h. a)
                | inr (reason, f) ↦
                    rw (e, q, f)
                      (
                        refuse signal reason (hop_count signal),
                        s₁,
                        refl,
                        (λ h. absurd (cc)),
                        λ h. refuse-IsAccounted signal reason [] none,
                      )
              ]
        ]
