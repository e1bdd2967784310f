-- ===== src/Runtime/Transmit.antt =====
-- Transmission in runtime/ntl-net/src/runtime.rs: forwards, receipts, and what a released signal causes.
use ntl.Base.{
  ℕ, suc, Bool, true, false, ◌||◌, Option, none, some, List, [], ◌∷◌, String, bytes_eq, number_eq,
  if◌then◌else◌, ltb, any, is_empty, Result, ok, err,
}
use ntl.Base.Map.{get}
use ntl.Float.{Float}
use ntl.Delivery.{Receipt, receipt_delivered, receipt_rejected, transport_failure}
use ntl.Signal.{NodeId, SignalId, Signal, SignalBuilder, receipt, signal_requires_receipt}
use ntl.Crypto.{CryptoError, sign_signal}
use ntl.Store.{JournalId, Read, SynapseRecord}
use ntl.Node.{NodeState, NodeError, Forward, Disposition, hop_count}
use ntl.Node.Feedback.{fail_forward}
use ntl.Node.Receive.{plan_release, receive_local}
use ntl.Node.Emit.{emit}
use ntl.Runtime.{
  Runtime, RuntimeState, RuntimeError, node_failed, crypto_failed, Session, Event, forwarded,
  released, handled, offer, on_node, event, outgoing,
}

-- How many transmissions succeeded, the journal entries of those that did not, and the sessions.
pub record Sent (F P : Type 0) : Type 0 where
  pub sent : ℕ
  pub failed : List JournalId
  pub sessions : List (NodeId × Session F P)

module _ {F P : Type 0} where
  abbrev pub count_sent : Sent F P → Sent F P
  count_sent r = record r { sent = suc r.sent }

  abbrev pub count_failed : JournalId → Sent F P → Sent F P
  count_failed id r = record r { failed = id ∷ r.failed }

  unfoldable pub transmit : Signal F P → List Forward → List (NodeId × Session F P) → Sent F P
  unfolding offer
  transmit outbound [] sessions = record { sent = 0; failed = []; sessions = sessions }
  transmit outbound (f ∷ fs) sessions = elim (offer f.peer outbound sessions) [
    | none ↦ count_failed f.journal_id (transmit outbound fs sessions)
    | some sessions' ↦ count_sent (transmit outbound fs sessions')
  ]

pub data Release : Type 0 where
  threshold guard : Release

abbrev pub last_hop : List NodeId → Option NodeId
last_hop [] = none
last_hop (n ∷ []) = some n
last_hop (n ∷ m ∷ ns) = last_hop (m ∷ ns)

abbrev pub id_of : {F : Type 0} → Read (Option (SynapseRecord F)) → Option String
id_of (ok (some rec)) = some rec.id
id_of (ok none) = none
id_of (err e) = none

module _ {S R F P : Type 0} ⦃fl : Float F⦄ (rt : Runtime S R F P) where
  -- The synapse of a peer, if the store finds one.
  abbrev pub arrival_of : Option NodeId → NodeState S R F → Option String
  arrival_of none s = none
  arrival_of (some peer) s = id_of (rt.node.store.synapse_for_peer peer s.store)

  -- The failures are recorded one by one; an error of the store is only logged.
  unfoldable pub fail_all : List JournalId → ℕ → NodeState S R F → NodeState S R F
  unfolding fail_forward
  fail_all [] now_ns s = s
  fail_all (id ∷ ids) now_ns s = fail_all ids now_ns (fail_forward rt.node id now_ns s).1

  unfoldable pub forward_signal :
      Signal F P → List Forward → ℕ → RuntimeState S R F P → Bool × RuntimeState S R F P
  unfolding transmit outgoing fail_all
  forward_signal signal forwards now_ns s =
      let r = transmit (outgoing rt signal) forwards s.sessions in
      if is_empty forwards then (false, s) else (
        ltb 0 r.sent,
        event (forwarded signal.id r.sent (any (λ f. f.explored) forwards))
            (record s { sessions = r.sessions; node = fail_all r.failed now_ns s.node }),
      )

  -- A signal of the node's own, stamped and signed.
  unfoldable pub signed_receipt :
      Receipt → NodeId → ℕ → RuntimeState S R F P → Option (Signal F P) × RuntimeState S R F P
  unfolding emit receipt sign_signal
  signed_receipt r origin now_ns s =
      let (reply, s') =
        on_node (emit rt.node rt.from_parts (receipt (rt.json.receipt_body r) r origin) now_ns) s in
      (
        elim reply [
          | err e ↦ none
          | ok signal ↦ elim (sign_signal rt.to_vec rt.crypto signal rt.identity.private) [
            | err e ↦ none
            | ok signed ↦ some signed
          ]
        ],
        s',
      )

  abbrev pub offered :
      RuntimeState S R F P → Option (List (NodeId × Session F P)) → Bool × RuntimeState S R F P
  offered s none = (false, s)
  offered s (some sessions) = (true, record s { sessions = sessions })

  abbrev pub offer_to :
      NodeId → Option (Signal F P) × RuntimeState S R F P → Bool × RuntimeState S R F P
  offer_to peer (none, s) = (false, s)
  offer_to peer (some signal, s) = offered s (offer peer signal s.sessions)

  unfoldable pub send_receipt_to :
      Receipt → NodeId → ℕ → RuntimeState S R F P → Bool × RuntimeState S R F P
  unfolding signed_receipt offer
  send_receipt_to r origin now_ns s = offer_to origin (signed_receipt r origin now_ns s)

  abbrev pub direct_or : NodeId → NodeId → List (NodeId × Session F P) → NodeId
  direct_or origin via sessions = elim (get origin sessions) [ none ↦ via | some session ↦ origin ]

  unfoldable pub send_receipt :
      Receipt → NodeId → NodeId → ℕ → RuntimeState S R F P → RuntimeState S R F P
  unfolding signed_receipt offer get
  send_receipt r origin via now_ns s =
      (offer_to (direct_or origin via s.sessions) (signed_receipt r origin now_ns s)).1

  -- The plan of a signal that was released without one; an error of the node is only logged.
  abbrev pub or_none :
      Result NodeError (List Forward) × NodeState S R F → List Forward × NodeState S R F
  or_none (ok forwards, s) = (forwards, s)
  or_none (err e, s) = ([], s)

  unfoldable pub plan_or_fresh :
      Option (List Forward)
      → Signal F P
      → ℕ
      → RuntimeState S R F P
      → List Forward × RuntimeState S R F P
  unfolding plan_release
  plan_or_fresh (some plan) body now_ns s = (plan, s)
  plan_or_fresh none body now_ns s =
      let (forwards, node) =
        or_none
          (plan_release rt.node body (arrival_of (last_hop body.trace) s.node) now_ns s.node) in
      (forwards, record s { node = node })

  -- What the node did with a released signal, told to its origin.
  unfoldable pub released_receipt : Signal F P → List Forward → Bool → Receipt
  unfolding receipt_delivered receipt_rejected
  released_receipt body forwards reached =
      if is_empty forwards || reached
      then receipt_delivered body.id (hop_count body)
      else receipt_rejected body.id transport_failure (hop_count body)

  unfoldable pub acknowledge_release :
      Signal F P → List Forward → ℕ → Bool × RuntimeState S R F P → RuntimeState S R F P
  unfolding send_receipt_to released_receipt
  acknowledge_release body forwards now_ns (reached, s) =
      if signal_requires_receipt body
      then (send_receipt_to (released_receipt body forwards reached) body.origin now_ns s).1
      else s

  abbrev pub release_event : Release → Signal F P → Event F P
  release_event threshold body = handled body
  release_event guard body = released body.id (some body)

  unfoldable pub release_signal :
      SignalId
      → Option (Signal F P)
      → Option (List Forward)
      → Release
      → ℕ
      → RuntimeState S R F P
      → RuntimeState S R F P
  unfolding plan_or_fresh forward_signal acknowledge_release
  release_signal id none plan how now_ns s = event (released id none) s
  release_signal id (some body) plan how now_ns s =
      let (forwards, s₁) = plan_or_fresh plan body now_ns (event (release_event how body) s) in
      acknowledge_release body forwards now_ns (forward_signal body forwards now_ns s₁)

  -- `Runtime::route`, for a signal of this node's own.
  abbrev pub route_sent :
      Signal F P
      → ℕ
      → Result NodeError (Disposition F) × RuntimeState S R F P
      → Result RuntimeError (Unit {0}) × RuntimeState S R F P
  route_sent signal now_ns (err e, s) = (err (node_failed e), s)
  route_sent signal now_ns (ok d, s) =
      let r = transmit (outgoing rt signal) d.forward_to s.sessions in
      (
        ok tt,
        event (forwarded signal.id r.sent (any (λ f. f.explored) d.forward_to))
            (record s { sessions = r.sessions }),
      )

  unfoldable pub route :
      Signal F P → ℕ → RuntimeState S R F P → Result RuntimeError (Unit {0}) × RuntimeState S R F P
  unfolding receive_local transmit outgoing
  route signal now_ns s = route_sent signal now_ns (on_node (receive_local rt.node signal now_ns) s)

  abbrev pub route_signed :
      ℕ
      → Result CryptoError (Signal F P)
      → RuntimeState S R F P
      → Result RuntimeError (Signal F P) × RuntimeState S R F P
  route_signed now_ns (err e) s = (err (crypto_failed e), s)
  route_signed now_ns (ok signal) s =
      let (reply, s') = route signal now_ns s in
      (elim reply [ ok u ↦ ok signal | err e ↦ err e ], s')

  abbrev pub sign_and_route :
      ℕ
      → Result NodeError (Signal F P) × RuntimeState S R F P
      → Result RuntimeError (Signal F P) × RuntimeState S R F P
  sign_and_route now_ns (err e, s) = (err (node_failed e), s)
  sign_and_route now_ns (ok signal, s) =
      route_signed now_ns (sign_signal rt.to_vec rt.crypto signal rt.identity.private) s

  -- `Runtime::emit`
  unfoldable pub emit_signal :
      SignalBuilder F P
      → ℕ
      → RuntimeState S R F P
      → Result RuntimeError (Signal F P) × RuntimeState S R F P
  unfolding emit sign_signal route
  emit_signal b now_ns s = sign_and_route now_ns (on_node (emit rt.node rt.from_parts b now_ns) s)
