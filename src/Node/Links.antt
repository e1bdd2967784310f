-- ===== src/Node/Links.antt =====
-- `upsert_synapse` and `penalize_signature_failure` of runtime/ntl-core/src/node.rs: links to peers.
use ntl.Base.{
  ℕ, ◌≤◌, ◌<◌, ◌≡◌, ◌≢◌, refl, sym, ap, subst, true, false, some, arith, String, Result, ok, err,
  ltb, saturating_add, saturating_mul,
}
use ntl.Float.{Float}
use ntl.Signal.{NodeId}
use ntl.Store.{SynapseRecord, SynapseState, forming, active, weakening, dormant, pruned}
use ntl.Synapse.{from_record, to_record, apply_signature_failure, reactivate, activate}
use ntl.Node.{Node, NodeState, NodeError, cooldown}
use ntl.Node.Feedback.{
  cooldown_until, reformed, reconnected, upsert_synapse, penalize_signature_failure,
}

module _ {S R F : Type 0} ⦃fl : Float F⦄ (node : Node S R F) where
  -- A reply that links the node to the peer of a record: a synapse that is neither pruned nor dormant,
  -- under the same identifier.
  unfoldable pub IsLinked :
      SynapseRecord F → Result NodeError (SynapseRecord F) × NodeState S R F → Type 0
  IsLinked existing reply =
      (rec : SynapseRecord F) × (s' : NodeState S R F) × (reply ≡ (ok rec, s'))
      × (rec.id ≡ existing.id)
      × (rec.peer ≡ existing.peer)
      × (rec.state ≢ pruned)
      × (rec.state ≢ dormant)

  -- A record that can be written.
  abbrev pub IsWritable : NodeState S R F → Type 0
  IsWritable s =
      (rec : SynapseRecord F) → (st : S) × (node.store.put_synapse rec s.store ≡ (ok tt, st))

  abbrev woken : SynapseRecord F → SynapseRecord F
  woken rec = record rec { weight = node.config.synapse.initial_weight; state = active }

  reactivated_record :
      (rec : SynapseRecord F)
      → rec.state ≡ dormant
      → to_record
          (reactivate node.config.synapse (from_record rec node.identity node.config.synapse))
        ≡ woken rec
  unfolding to_record reactivate from_record
  reactivated_record rec e = rw e refl

  reconnected-IsLinked :
      (existing : SynapseRecord F) (now_ns : ℕ) (s : NodeState S R F)
      → IsWritable s
      → (existing.state ≡ pruned → cooldown_until node existing ≤ now_ns)
      → IsLinked existing (reconnected node existing now_ns s)
  unfolding reconnected IsLinked reformed activate reactivate to_record from_record
  reconnected-IsLinked existing now_ns s w h = by_state existing.state refl
    where
      by_state :
          (st : SynapseState)
          → existing.state ≡ st
          → IsLinked existing (reconnected node existing now_ns s)
      by_state forming e =
          (existing, s, rw e refl, refl, refl, rw e (ground arith), rw e (ground arith))
      by_state active e =
          (existing, s, rw e refl, refl, refl, rw e (ground arith), rw e (ground arith))
      by_state weakening e =
          (existing, s, rw e refl, refl, refl, rw e (ground arith), rw e (ground arith))
      by_state dormant e =
          let (st, p) = w (woken existing) in
          (
            woken existing,
            record s { store = st },
            rw (reconnected, e, reactivated_record existing e, p) refl,
            refl,
            refl,
            ground arith,
            ground arith,
          )
      by_state pruned e =
          let f : ltb now_ns (cooldown_until node existing) ≡ false = ground (arith, h e) in
          let (st, p) = w (reformed node existing now_ns) in
          (
            reformed node existing now_ns,
            record s { store = st },
            rw (reconnected, e, f, p) refl,
            refl,
            refl,
            ground arith,
            ground arith,
          )

  reconnected-refused :
      (existing : SynapseRecord F) (now_ns : ℕ) (s : NodeState S R F)
      → existing.state ≡ pruned
      → now_ns < cooldown_until node existing
      → reconnected node existing now_ns s ≡ (err cooldown, s)
  unfolding reconnected
  reconnected-refused existing now_ns s e h =
      let f : ltb now_ns (cooldown_until node existing) ≡ true = ground arith in rw (e, f) refl

  -- A peer that reconnects. While the cooldown of a pruned synapse runs it is refused, and nothing
  -- changes; in every other case it gets the synapse it had, under the same identifier, in a state that
  -- is neither pruned nor dormant. The peer is known, and the store can be written.
  pub upsert_synapse_reconnects :
      (peer : NodeId) (existing : SynapseRecord F) (now_ns : ℕ) (s : NodeState S R F)
      → node.store.synapse_for_peer peer s.store ≡ ok (some existing)
      → IsWritable s
      → (existing.state ≡ pruned
          → now_ns < cooldown_until node existing
          → upsert_synapse node peer now_ns s ≡ (err cooldown, s))
        × ((existing.state ≡ pruned → cooldown_until node existing ≤ now_ns)
            → IsLinked existing (upsert_synapse node peer now_ns s))
  unfolding upsert_synapse
  upsert_synapse_reconnects peer existing now_ns s e w = (
    (λ p q. rw (upsert_synapse, e) (reconnected-refused existing now_ns s p q)),
    λ h. rw (upsert_synapse, e) (reconnected-IsLinked existing now_ns s w h),
  )

  -- The state of the node after a penalty.
  abbrev pub penalized : String → ℕ → NodeState S R F → NodeState S R F
  penalized id now_ns s = (penalize_signature_failure node id now_ns s).1

  -- The record that a penalty writes.
  abbrev pub struck : SynapseRecord F → ℕ → SynapseRecord F
  struck rec now_ns =
      to_record
        (apply_signature_failure now_ns node.config.learning
          (from_record rec node.identity node.config.synapse)).1

  struck_lem :
      (rec : SynapseRecord F) (t : ℕ)
      → (apply_signature_failure t node.config.learning
          (from_record rec node.identity node.config.synapse)).0.pruned
        ≡ true
      → ((struck rec t).state ≡ pruned) × ((struck rec t).last_active_ns ≡ t)
  unfolding to_record apply_signature_failure
  struck_lem rec t h = ground arith

  -- A prune holds against a reconnection. When a signature failure prunes a synapse, its peer is refused,
  -- and nothing changes, at every time before the end of the cooldown from that failure. The store holds
  -- the synapse, takes the new record, and finds it under the peer.
  pub penalize_signature_failure-upsert_synapse :
      (id : String) (peer : NodeId) (rec : SynapseRecord F) (t later : ℕ) (s : NodeState S R F)
      (st : S)
      → node.store.get_synapse id s.store ≡ ok (some rec)
      → node.store.put_synapse (struck rec t) s.store ≡ (ok tt, st)
      → node.store.synapse_for_peer peer st ≡ ok (some (struck rec t))
      → (apply_signature_failure t node.config.learning
          (from_record rec node.identity node.config.synapse)).0.pruned
        ≡ true
      → later
        < saturating_add t
            (saturating_mul node.config.learning.signature_failure_cooldown_secs 1000000000)
      → upsert_synapse node peer later (penalized id t s) ≡ (err cooldown, penalized id t s)
  unfolding upsert_synapse penalize_signature_failure
  penalize_signature_failure-upsert_synapse id peer rec t later s st g p f h l =
      let (pr, la) = struck_lem rec t h in
      let report =
        (apply_signature_failure t node.config.learning
          (from_record rec node.identity node.config.synapse)).0 in
      let whole : penalize_signature_failure node id t s
          ≡ (ok (some report), record s { store = st }) =
        rw (penalize_signature_failure, g, p) refl in
      let e : penalized id t s ≡ record s { store = st } = ap (λ v. v.1) whole in
      subst (λ v. upsert_synapse node peer later v ≡ (err cooldown, v)) (sym e)
        (rw (upsert_synapse, f)
          (reconnected-refused (struck rec t) later (record s { store = st }) pr
            (rw (cooldown_until, la) l)))
