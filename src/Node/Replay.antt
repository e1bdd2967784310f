-- ===== src/Node/Replay.antt =====
-- How often `apply_receipt` of runtime/ntl-core/src/node.rs can teach the routing model.
use ntl.Base.{
  ℕ, ◌+◌, ◌≤◌, ◌≡◌, refl, arith, true, Option, none, some, List, [], ◌∷◌, Result, ok, err, find,
  number_eq, nat_beq_iff,
}
use ntl.Float.{Float}
use ntl.Delivery.{Receipt}
use ntl.Signal.{NodeId}
use ntl.Store.{Read, JournalId, JournalEntry, is_resolved}
use ntl.Store.Memory.{has_id, is_pending_for}
use ntl.Store.Memory.Pending.{
  pending_count, IsDistinct, find-pending, resolve_in-pending, resolve_in-IsDistinct,
}
use ntl.Learning.{WeightUpdate}
use ntl.Node.Monad.{Act, pure, continue}
use ntl.Node.{NodeState, Node, NodeError, lift_error, receipt_outcome}
use ntl.Node.Feedback.{resolve_and_learn, apply_receipt}
use ntl.Node.Journal.{KeepsJournal, resolve_and_learn_journal}

-- How many updates a reply reports.
abbrev pub taught : {F : Type 0} → Result NodeError (Option (WeightUpdate F)) → ℕ
taught (ok (some u)) = 1
taught (ok none) = 0
taught (err x) = 0

module _ {S R F : Type 0} ⦃fl : Float F⦄ (node : Node S R F) where
  -- Receipts that arrive one after the other, each from a peer at a time: how many of them teach, and the state
  -- after them.
  unfoldable pub apply_receipts :
      List (Receipt × NodeId × ℕ) → NodeState S R F → ℕ × NodeState S R F
  unfolding apply_receipt
  apply_receipts [] st = (0, st)
  apply_receipts ((receipt, peer, now_ns) ∷ rest) st =
      let (reply, st₁) = apply_receipt node receipt peer now_ns st in
      let (n, st₂) = apply_receipts rest st₁ in (taught reply + n, st₂)

module _ {S R F : Type 0} ⦃fl : Float F⦄ (node : Node S R F) (journal : S → List (JournalEntry F))
    (laws : KeepsJournal node.store journal) where
  taught-le_one : (r : Result NodeError (Option (WeightUpdate F))) → taught r ≤ 1
  taught-le_one (ok (some u)) = omega arith
  taught-le_one (ok none) = omega arith
  taught-le_one (err e) = omega arith

  receipt_outcome-resolved : (r : Receipt) → is_resolved (receipt_outcome r) ≡ true
  unfolding receipt_outcome is_resolved
  receipt_outcome-resolved r = ground arith

  -- The journal still has distinct identifiers, and what the reply has taught is taken from what waited.
  record IsPaid (st : NodeState S R F)
      (p : Result NodeError (Option (WeightUpdate F)) × NodeState S R F) : Type 0 where
    distinct : IsDistinct (journal p.1.store)
    paid : taught p.0 + pending_count (journal p.1.store) ≤ pending_count (journal st.store)

  resolved-IsPaid :
      (entry : JournalEntry F) (id : JournalId) (receipt : Receipt) (peer : NodeId) (now_ns : ℕ)
      (st : NodeState S R F)
      → IsDistinct (journal st.store)
      → find (is_pending_for receipt.correlation_id peer) (journal st.store) ≡ some entry
      → has_id id entry ≡ true
      → IsPaid st (resolve_and_learn node id (receipt_outcome receipt) now_ns st)
  resolved-IsPaid entry id receipt peer now_ns st d h i =
      let o = receipt_outcome receipt in
      let (found, waiting) =
        find-pending receipt.correlation_id peer (journal st.store) entry id d h i in
      let less =
        resolve_in-pending id o now_ns (journal st.store) entry found waiting
          (receipt_outcome-resolved receipt) in
      let after = resolve_and_learn_journal node journal laws id o now_ns st in
      record {
        distinct = rw after (resolve_in-IsDistinct id o now_ns (journal st.store) d);
        paid =
            rw after
              (let one = taught-le_one (resolve_and_learn node id o now_ns st).0 in omega arith);
      }

  IsPaid-same : (st : NodeState S R F) → IsDistinct (journal st.store) → IsPaid st (ok none, st)
  IsPaid-same st d = record { distinct = d; paid = omega arith }

  -- What a receipt does with the entry of a decision, by its identifier, and with the decision that was looked up.
  abbrev by_id :
      Receipt → ℕ → Option JournalId → Act (NodeState S R F) NodeError (Option (WeightUpdate F))
  by_id receipt now_ns none = pure none
  by_id receipt now_ns (some id) = resolve_and_learn node id (receipt_outcome receipt) now_ns

  abbrev answered :
      Receipt
      → ℕ
      → Option (JournalEntry F)
      → Act (NodeState S R F) NodeError (Option (WeightUpdate F))
  answered receipt now_ns none = pure none
  answered receipt now_ns (some entry) = by_id receipt now_ns entry.id

  by_id-IsPaid :
      (entry : JournalEntry F) (id : Option JournalId) (receipt : Receipt) (peer : NodeId)
      (now_ns : ℕ) (st : NodeState S R F)
      → IsDistinct (journal st.store)
      → find (is_pending_for receipt.correlation_id peer) (journal st.store) ≡ some entry
      → entry.id ≡ id
      → IsPaid st (by_id receipt now_ns id st)
  by_id-IsPaid entry none receipt peer now_ns st d h i = IsPaid-same st d
  by_id-IsPaid entry (some id) receipt peer now_ns st d h i =
      let same : has_id id entry ≡ true = rw i ((nat_beq_iff id id).1 refl) in
      resolved-IsPaid entry id receipt peer now_ns st d h same

  answered-IsPaid :
      (found : Read (Option (JournalEntry F))) (receipt : Receipt) (peer : NodeId) (now_ns : ℕ)
      (st : NodeState S R F)
      → IsDistinct (journal st.store)
      → ((e : JournalEntry F)
          → found ≡ ok (some e)
          → find (is_pending_for receipt.correlation_id peer) (journal st.store) ≡ some e)
      → IsPaid st (continue (answered receipt now_ns) (lift_error found, st))
  answered-IsPaid (err x) receipt peer now_ns st d h = record { distinct = d; paid = omega arith }
  answered-IsPaid (ok none) receipt peer now_ns st d h = IsPaid-same st d
  answered-IsPaid (ok (some e)) receipt peer now_ns st d h =
      by_id-IsPaid e e.id receipt peer now_ns st d (h e refl) refl

  apply_receipt-IsPaid :
      (receipt : Receipt) (peer : NodeId) (now_ns : ℕ) (st : NodeState S R F)
      → IsDistinct (journal st.store)
      → IsPaid st (apply_receipt node receipt peer now_ns st)
  unfolding apply_receipt
  apply_receipt-IsPaid receipt peer now_ns st d =
      answered-IsPaid (node.store.pending_decision_for receipt.correlation_id peer st.store) receipt
        peer now_ns st d (λ e q. laws.pending_decision_for receipt.correlation_id peer st.store e q)

  -- What has been taught and what still waits are together no more than what waited.
  record IsSettled (st : NodeState S R F) (p : ℕ × NodeState S R F) : Type 0 where
    settled : p.0 + pending_count (journal p.1.store) ≤ pending_count (journal st.store)

  apply_receipts-IsSettled :
      (receipts : List (Receipt × NodeId × ℕ)) (st : NodeState S R F)
      → IsDistinct (journal st.store)
      → IsSettled st (apply_receipts node receipts st)
  unfolding apply_receipts
  apply_receipts-IsSettled [] st d = record { settled = omega arith }
  apply_receipts-IsSettled ((receipt, peer, now_ns) ∷ rest) st d =
      let first = apply_receipt-IsPaid receipt peer now_ns st d in
      let (reply, st₁) = apply_receipt node receipt peer now_ns st in
      let more = apply_receipts-IsSettled rest st₁ first.distinct in
      let a = first.paid in let b = more.settled in record { settled = omega arith }

  -- A receipt cannot be replayed: however many receipts arrive, from whichever peers and at whatever times, the
  -- model learns from no more of them than there were decisions that waited for one. The identifiers of the journal
  -- are distinct, the other writes of learning leave it as it is, and the store looks a decision up and resolves it
  -- as in a list.
  pub apply_receipts_bound :
      (receipts : List (Receipt × NodeId × ℕ)) (st : NodeState S R F)
      → IsDistinct (journal st.store)
      → (apply_receipts node receipts st).0 ≤ pending_count (journal st.store)
  apply_receipts_bound receipts st d =
      let h = (apply_receipts-IsSettled receipts st d).settled in omega arith
