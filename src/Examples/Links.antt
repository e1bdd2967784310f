-- ===== src/Examples/Links.antt =====
-- Examples on the node and the reference store.
use ntl.Base.{
  ℕ, ◌+◌, ◌*◌, ◌≤◌, ◌<◌, ◌≡◌, refl, true, false, none, some, List, [], ◌∷◌, arith, ok, err,
}
use ntl.Float.Fixed.{Fixed, fixed_float}
use ntl.Store.{pruned, rejected, delivered, is_resolved}
use ntl.Base.Sort.{sort_by}
use ntl.Float.{clamp, fmin}
use ntl.Synapse.{update_state}
use ntl.Learning.{capped_delta, raw_delta}
use ntl.Store.{reward}
use ntl.Store.Memory.{
  pending_decision_for, influence_since, record_influence, list_synapses, MemoryStore,
  resolve_decision, check_and_set_seen, has_seen, put_synapse, get_synapse, synapse_for_peer,
}
use ntl.Store.Memory.Interface.{memory_store}
use ntl.Store.Memory.Seen.{checked, check_and_set_seen_window}
use ntl.Store.Memory.Journal.{resolve_decision_first}
use ntl.Base.Map.{get, insert}
use ntl.Synapse.{to_record, from_record, apply_signature_failure, count_failure}
use ntl.Learning.{influence_window_start}
use ntl.Node.{NodeState, Disposition, nothing, cooldown}
use ntl.Node.Receive.{receive}
use ntl.Node.Feedback.{fail_forward, upsert_synapse, cooldown_until}
use ntl.Node.Arrival.{IsAccounted, receive_answers}
use ntl.Node.Links.{
  IsLinked, penalized, struck, upsert_synapse_reconnects, penalize_signature_failure-upsert_synapse,
}
use ntl.Node.Reference.{memory_store-IsReliable, memory_store-KeepsJournal}
use ntl.Node.Replay.{taught, apply_receipts, apply_receipts_bound}
use ntl.Delivery.{Receipt, ReceiptStatus}
use ntl.Signal.{NodeId}
use ntl.Examples.Data.{
  counter-IsFair, signal, node, state, stored, store, journalled, decision_entry,
}

receive_answers_example :
    let (seen, store') = node.store.check_and_set_seen 7 100 300 store in
    (d : Disposition Fixed) × (s' : NodeState (MemoryStore Fixed) ℕ Fixed) × (receive node signal
        none 100 state
      ≡ (ok d, s'))
    × (seen ≡ ok true → (d ≡ nothing) × (s' ≡ record state { store = store' }))
    × (seen ≡ ok false → IsAccounted signal d)
receive_answers_example =
    receive_answers node (memory_store-IsReliable (λ a b. true)) counter-IsFair signal none 100
      state

resolve_decision_first_example :
    let (reply, st') = resolve_decision 1 delivered 50 journalled in
    let e' = record decision_entry { outcome = delivered; resolved_at_ns = some 50 } in
    (reply ≡ ok (some e')) × (resolve_decision 1 rejected 60 st' ≡ (ok (some e'), st'))
unfolding is_resolved
resolve_decision_first_example =
    resolve_decision_first 1 delivered rejected 50 60 journalled decision_entry refl refl refl

check_and_set_seen_window_example :
    ((check_and_set_seen 7 100 2 store).0 ≡ ok false)
    × (500 < 100 + 2 * 1000000000
        → ((check_and_set_seen 7 500 2 (checked 7 100 2 store)).0 ≡ ok true)
          × (checked 7 500 2 (checked 7 100 2 store) ≡ checked 7 100 2 store))
    × (100 + 2 * 1000000000 ≤ 500
        → (check_and_set_seen 7 500 2 (checked 7 100 2 store)).0 ≡ ok false)
unfolding has_seen get
check_and_set_seen_window_example = check_and_set_seen_window 7 100 500 2 store refl (omega arith)

upsert_synapse_reconnects_example :
    (stored.state ≡ pruned
      → 100 < cooldown_until node stored
      → upsert_synapse node (5 ∷ []) 100 state ≡ (err cooldown, state))
    × ((stored.state ≡ pruned → cooldown_until node stored ≤ 100)
        → IsLinked node stored (upsert_synapse node (5 ∷ []) 100 state))
unfolding memory_store synapse_for_peer put_synapse
upsert_synapse_reconnects_example =
    upsert_synapse_reconnects node (5 ∷ []) stored 100 state refl (λ rec. (_, refl))

abbrev after_prune : MemoryStore Fixed
after_prune = record store { synapses = ("s1", struck node stored 10) ∷ [] }

penalize_signature_failure-upsert_synapse_example :
    upsert_synapse node (5 ∷ []) 1000 (penalized node "s1" 10 state)
    ≡ (err cooldown, penalized node "s1" 10 state)
unfolding memory_store synapse_for_peer put_synapse get_synapse get insert to_record from_record
    apply_signature_failure count_failure influence_window_start
penalize_signature_failure-upsert_synapse_example =
    penalize_signature_failure-upsert_synapse node "s1" (5 ∷ []) stored 10 1000 state after_prune
      refl refl refl refl (omega arith)

abbrev answer : Receipt
answer = record { correlation_id = 7; status = ReceiptStatus.delivered; hops = 1 }

-- One receipt three times, once from a peer that did not carry the signal.
abbrev replayed : List (Receipt × NodeId × ℕ)
replayed = (answer, 6 ∷ [], 40) ∷ (answer, 5 ∷ [], 50) ∷ (answer, 5 ∷ [], 50) ∷ []

apply_receipts_bound_example :
    (apply_receipts node replayed (record state { store = journalled })).0 ≤ 1
unfolding is_resolved
apply_receipts_bound_example =
    apply_receipts_bound node (λ s. s.journal) (memory_store-KeepsJournal (λ a b. true)) replayed
      (record state { store = journalled }) ((λ id h. refl), tt)

replayed_once : (apply_receipts node replayed (record state { store = journalled })).0 ≡ 1
unfolding apply_receipts memory_store pending_decision_for is_resolved resolve_decision
    influence_since get_synapse clamp capped_delta raw_delta reward record_influence put_synapse
    list_synapses sort_by update_state fmin
replayed_once = refl

-- How many of two failures of one decision teach, by their times.
abbrev failures_taught : ℕ → ℕ → ℕ
failures_taught t₁ t₂ =
    let (r₁, st₁) = fail_forward node 1 t₁ (record state { store = journalled }) in
    taught r₁ + taught (fail_forward node 1 t₂ st₁).0

failed_later : failures_taught 50 51 ≡ 1
unfolding fail_forward memory_store resolve_decision influence_since get_synapse clamp capped_delta
    raw_delta reward record_influence put_synapse list_synapses sort_by update_state fmin
failed_later = refl

failed_at_once : failures_taught 50 50 ≡ 2
unfolding fail_forward memory_store resolve_decision influence_since get_synapse clamp capped_delta
    raw_delta reward record_influence put_synapse list_synapses sort_by update_state fmin
failed_at_once = refl
