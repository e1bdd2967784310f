-- ===== src/Runtime/ReadLoop.antt =====
-- The reader and the maintenance task of runtime/ntl-net/src/runtime.rs: what happens to a signal that a peer
-- sends. An iteration of either loop is one step of the state.
use ntl.Base.{
  ℕ, zero, suc, Bool, true, false, not, ◌||◌, Option, none, some, List, [], ◌∷◌, String, bytes_eq,
  number_eq, ◌==◌, if◌then◌else◌, leb, length, min, max, map, saturating_mul, Result, ok, err,
}
use ntl.Base.Map.{get, insert, remove}
use ntl.Float.{Float}
use ntl.Delivery.{Receipt, receipt_rejected, is_delivered}
use ntl.Signal.{NodeId, SignalId, SignalType, receipt_signal, Signal}
use ntl.Activation.{QueuedSignal}
use ntl.Crypto.{PublicKey, verify_signal, CryptoError}
use ntl.Learning.{WeightUpdate}
use ntl.Propagation.{HeaderClamp, clamp_inbound_headers}
use ntl.Synapse.{SignatureFailureOutcome}
use ntl.Frame.{Reader, FrameError, closed, read_signal}
use ntl.Node.{NodeError, Evicted, Disposition, Forward, hop_count, evicted_needs_receipt}
use ntl.Node.Receive.{receive}
use ntl.Node.Feedback.{apply_receipt, penalize_signature_failure}
use ntl.Runtime.{
  Runtime, RuntimeState, RuntimeError, frame_failed, handshake_failed, peer_pruned, Session,
  event_refused, receipt_applied, signature_failed, headers_clamped, origin_key_unknown,
  malformed_signal, on_node, event,
}
use ntl.Runtime.Transmit.{threshold, arrival_of, send_receipt, send_receipt_to, release_signal}

abbrev pub is_receipt : SignalType → Bool
is_receipt receipt_signal = true
is_receipt t = false

pub record PeerIdentity : Type 0 where
  pub node_id : NodeId
  pub public_key : PublicKey

abbrev pub min_id : SignalId → List SignalId → SignalId
min_id m [] = m
min_id m (i ∷ is) = min_id (min m i) is

abbrev pub evict_oldest :
    {F P : Type 0} → List (SignalId × Signal F P) → List (SignalId × Signal F P)
evict_oldest [] = []
evict_oldest ((i, body) ∷ rest) = remove (min_id i (map (λ p. p.0) rest)) ((i, body) ∷ rest)

abbrev pub session_key : {F P : Type 0} → Option (Session F P) → Option PublicKey
session_key none = none
session_key (some session) = some session.public_key

module _ {S R F P : Type 0} where
  -- The key that a signal's origin signs with, if this node knows it.
  unfoldable pub origin_key : Signal F P → PeerIdentity → RuntimeState S R F P → Option PublicKey
  unfolding get
  origin_key signal peer s =
      if signal.origin == peer.node_id
      then some peer.public_key
      else session_key (get signal.origin s.sessions)

  -- `pending.lock().await.remove(&id)`
  abbrev pub take_body :
      SignalId → RuntimeState S R F P → Option (Signal F P) × RuntimeState S R F P
  take_body id s = (get id s.pending, record s { pending = remove id s.pending })

-- The outcome of one iteration of the reader: the loop goes on, or the session ends.
pub data Flow : Type 0 where
  next : Flow
  stop : RuntimeError → Flow

module _ {S R F P : Type 0} ⦃fl : Float F⦄ (rt : Runtime S R F P) where
  unfoldable pub remember_body : Signal F P → RuntimeState S R F P → RuntimeState S R F P
  unfolding insert remove
  remember_body signal s =
      let depth = max rt.node.config.activation.max_queue_depth 1 in
      record s {
        pending = insert signal.id signal (
            if leb (saturating_mul depth 2) (length s.pending)
            then evict_oldest s.pending
            else s.pending);
      }

  abbrev pub was_pruned : Result NodeError (Option SignatureFailureOutcome) → Bool
  was_pruned (ok (some outcome)) = outcome.pruned
  was_pruned (ok none) = false
  was_pruned (err e) = false

  abbrev pub struck_by : Option String → ℕ → RuntimeState S R F P → Bool × RuntimeState S R F P
  struck_by none now_ns s = (false, s)
  struck_by (some id) now_ns s =
      let (reply, s') = on_node (penalize_signature_failure rt.node id now_ns) s in
      (was_pruned reply, s')

  abbrev pub after_strike : NodeId → Bool × RuntimeState S R F P → Flow × RuntimeState S R F P
  after_strike peer (pruned, s) = (
    (if pruned then stop (handshake_failed peer_pruned) else next),
    event (signature_failed peer pruned) s,
  )

  -- A signature that does not verify is charged to the peer that handed the signal over.
  unfoldable pub bad_signature :
      PeerIdentity → ℕ → RuntimeState S R F P → Flow × RuntimeState S R F P
  unfolding penalize_signature_failure
  bad_signature peer now_ns s =
      after_strike peer.node_id (struck_by (arrival_of rt (some peer.node_id) s.node) now_ns s)

  -- A receipt resolves a decision of this node; it is not routed on.
  abbrev pub applied :
      NodeId
      → Receipt
      → Result NodeError (Option (WeightUpdate F)) × RuntimeState S R F P
      → RuntimeState S R F P
  applied peer r (ok (some update), s) =
      event (receipt_applied peer (is_delivered r) update.applied_delta) s
  applied peer r (ok none, s) = s
  applied peer r (err e, s) = s

  unfoldable pub receipt_arrived :
      Option Receipt → NodeId → ℕ → RuntimeState S R F P → RuntimeState S R F P
  unfolding apply_receipt is_delivered
  receipt_arrived none peer now_ns s = s
  receipt_arrived (some r) peer now_ns s =
      applied peer r (on_node (apply_receipt rt.node r peer now_ns) s)

  abbrev pub body_hops : Option (Signal F P) → ℕ
  body_hops none = 0
  body_hops (some body) = hop_count body

  -- The signal that a new arrival displaced: its sender is another peer.
  unfoldable pub settle_evicted :
      Option (Evicted F) → ℕ → RuntimeState S R F P → RuntimeState S R F P
  unfolding send_receipt_to evicted_needs_receipt receipt_rejected get remove
  settle_evicted none now_ns s = s
  settle_evicted (some ev) now_ns s =
      let (body, s₁) = take_body ev.signal.id s in
      let s₂ = event (event_refused ev.signal.id ev.reason) s₁ in
      if evicted_needs_receipt ev
      then (send_receipt_to rt (receipt_rejected ev.signal.id ev.reason (body_hops body))
          ev.signal.origin now_ns s₂).1
      else s₂

  unfoldable pub settle_refused :
      Signal F P → PeerIdentity → Disposition F → ℕ → RuntimeState S R F P → RuntimeState S R F P
  unfolding send_receipt
  settle_refused signal peer d now_ns s =
      let s₁ : RuntimeState S R F P = elim d.receipt [
        | none ↦ s
        | some r ↦ send_receipt rt r signal.origin peer.node_id now_ns s
      ] in
      elim d.rejected [ none ↦ s₁ | some reason ↦ event (event_refused signal.id reason) s₁ ]

  -- What the gate let through is handled, the arrival with the plan that `receive` made for it.
  unfoldable pub release_all :
      Signal F P
      → List Forward
      → List (QueuedSignal F)
      → ℕ
      → RuntimeState S R F P
      → RuntimeState S R F P
  unfolding release_signal get remove
  release_all signal plan [] now_ns s = s
  release_all signal plan (q ∷ qs) now_ns s = release_all signal plan qs now_ns (
      if q.id == signal.id
      then release_signal rt q.id (some signal) (some plan) threshold now_ns s
      else let (body, s') = take_body q.id s in
        release_signal rt q.id body none threshold now_ns s')

  unfoldable pub disposed :
      Signal F P → PeerIdentity → ℕ → Disposition F → RuntimeState S R F P → RuntimeState S R F P
  unfolding settle_evicted settle_refused release_all remember_body
  disposed signal peer now_ns d s =
      let s₁ = settle_refused signal peer d now_ns (settle_evicted d.evicted now_ns s) in
      let s₂ = release_all signal d.forward_to d.handle_locally now_ns s₁ in
      if d.queued then remember_body signal s₂ else s₂

  abbrev pub received :
      Signal F P
      → PeerIdentity
      → ℕ
      → Result NodeError (Disposition F) × RuntimeState S R F P
      → RuntimeState S R F P
  received signal peer now_ns (err e, s) = s
  received signal peer now_ns (ok d, s) = disposed signal peer now_ns d s

  -- A signal with its headers within bounds: a receipt is applied, any other is routed.
  unfoldable pub dispatch :
      Signal F P → PeerIdentity → ℕ → RuntimeState S R F P → RuntimeState S R F P
  unfolding receipt_arrived receive disposed
  dispatch signal peer now_ns s =
      if is_receipt signal.signal_type
      then receipt_arrived (rt.json.as_receipt signal.payload) peer.node_id now_ns s
      else received signal peer now_ns
          (on_node (receive rt.node signal (arrival_of rt (some peer.node_id) s.node) now_ns) s)

  abbrev pub noted_clamp :
      NodeId → SignalId → HeaderClamp → RuntimeState S R F P → RuntimeState S R F P
  noted_clamp peer id c s =
      if c.weight_clamped || c.ttl_clamped
      then event (headers_clamped peer id c.weight_clamped c.ttl_clamped) s
      else s

  -- An arrival whose signature has been verified.
  unfoldable pub admit_verified :
      Signal F P → PeerIdentity → ℕ → RuntimeState S R F P → RuntimeState S R F P
  unfolding clamp_inbound_headers dispatch
  admit_verified arrived peer now_ns s =
      let (clamped, signal) = clamp_inbound_headers arrived rt.node.config.propagation in
      dispatch signal peer now_ns (noted_clamp peer.node_id signal.id clamped s)

  abbrev pub verifies : Result CryptoError Bool → Bool
  verifies (ok b) = b
  verifies (err e) = false

  unfoldable pub on_keyed :
      Signal F P
      → PeerIdentity
      → ℕ
      → RuntimeState S R F P
      → Option PublicKey
      → Flow × RuntimeState S R F P
  unfolding verify_signal bad_signature admit_verified
  on_keyed signal peer now_ns s none =
      (next, event (origin_key_unknown peer.node_id signal.origin) s)
  on_keyed signal peer now_ns s (some key) =
      if not (verifies (verify_signal rt.to_vec rt.crypto signal key))
      then bad_signature peer now_ns s
      else if not (fl.is_finite signal.weight)
      then (next, event (malformed_signal peer.node_id) s)
      else (next, admit_verified signal peer now_ns s)

  -- One iteration of `read_loop`, for a signal that has been read.
  unfoldable pub on_signal :
      PeerIdentity → Signal F P → ℕ → RuntimeState S R F P → Flow × RuntimeState S R F P
  unfolding on_keyed origin_key
  on_signal peer signal now_ns s = on_keyed signal peer now_ns s (origin_key signal peer s)

  abbrev pub ended : FrameError → Result RuntimeError (Unit {0})
  ended closed = ok tt
  ended e = err (frame_failed e)

  -- `read_loop`, with the times at which the iterations read the clock. The source has no bound on the
  -- iterations: `fuel` counts them, and `none` is "still
  -- reading".
  unfoldable pub read_loop :
      ℕ
      → PeerIdentity
      → Reader
      → (ℕ → ℕ)
      → RuntimeState S R F P
      → Option (Result RuntimeError (Unit {0})) × RuntimeState S R F P
  read_loop zero peer r clock s = (none, s)
  read_loop (suc fuel) peer r clock s =
      let (reply, r') = read_signal rt.from_slice r in
      elim reply [
        | err e ↦ (some (ended e), s)
        | ok signal ↦
            let (flow, s') = on_signal peer signal (clock 0) s in
            elim flow [
              | next ↦ read_loop fuel peer r' (λ i. clock (suc i)) s'
              | stop e ↦ (some (err e), s')
            ]
      ]
