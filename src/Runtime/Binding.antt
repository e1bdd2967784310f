-- ===== src/Runtime/Binding.antt =====
-- Who holds which key in runtime/ntl-net/src/runtime.rs: handling a signal changes no key of a session.
use ntl.Base.{
  ℕ, ◌≡◌, refl, ◌∙◌, Option, none, some, List, [], ◌∷◌, bytes_eq, number_eq, ◌||◌, ◌==◌, Result, ok,
  err, Bool-cases, Option-cases, inl, inr,
}
use ntl.Float.{Float}
use ntl.Delivery.{Receipt}
use ntl.Signal.{NodeId, SignalId, Signal}
use ntl.Activation.{QueuedSignal}
use ntl.Node.{NodeError, Forward, Evicted, Disposition, evicted_needs_receipt}
use ntl.Crypto.{PublicKey, verify_signal}
use ntl.Learning.{WeightUpdate}
use ntl.Propagation.{HeaderClamp, clamp_inbound_headers}
use ntl.Node.Receive.{receive}
use ntl.Node.Feedback.{apply_receipt}
use ntl.Runtime.{Runtime, RuntimeState, on_node}
use ntl.Runtime.Transmit.{threshold, arrival_of}
use ntl.Runtime.ReadLoop.{
  PeerIdentity, take_body, admit_verified, receipt_arrived, dispatch, noted_clamp, is_receipt,
  applied, received, verifies, origin_key, on_keyed, on_signal, bad_signature, settle_evicted,
  settle_refused, release_all, remember_body, disposed,
}
use ntl.Runtime.Keys.{
  key_of, KeepsKeys, send_receipt_to-KeepsKeys, send_receipt-KeepsKeys, release_signal-KeepsKeys,
}

module _ {S R F P : Type 0} ⦃fl : Float F⦄ (rt : Runtime S R F P) where
  settle_evicted-KeepsKeys :
      (o : Option (Evicted F)) (now_ns : ℕ) (s : RuntimeState S R F P)
      → KeepsKeys rt s (settle_evicted rt o now_ns s)
  unfolding settle_evicted
  settle_evicted-KeepsKeys none now_ns s n = refl
  settle_evicted-KeepsKeys (some ev) now_ns s n = elim (Bool-cases (evicted_needs_receipt ev)) [
    | inl e ↦ rw e (send_receipt_to-KeepsKeys rt _ ev.signal.origin now_ns _ n)
    | inr e ↦ rw e refl
  ]

  settle_refused-KeepsKeys :
      (signal : Signal F P) (peer : PeerIdentity) (d : Disposition F) (now_ns : ℕ)
      (s : RuntimeState S R F P)
      → KeepsKeys rt s (settle_refused rt signal peer d now_ns s)
  unfolding settle_refused
  settle_refused-KeepsKeys signal peer d now_ns s n = elim (Option-cases d.receipt) [
    | inl e ↦ elim (Option-cases d.rejected) [
      | inl f ↦ rw (e, f) refl
      | inr (x, f) ↦ rw (e, f) refl
    ]
    | inr (r, e) ↦ elim (Option-cases d.rejected) [
      | inl f ↦ rw (e, f) (send_receipt-KeepsKeys rt r signal.origin peer.node_id now_ns s n)
      | inr (x, f) ↦ rw (e, f) (send_receipt-KeepsKeys rt r signal.origin peer.node_id now_ns s n)
    ]
  ]

  release_all-KeepsKeys :
      (signal : Signal F P) (plan : List Forward) (qs : List (QueuedSignal F)) (now_ns : ℕ)
      (s : RuntimeState S R F P)
      → KeepsKeys rt s (release_all rt signal plan qs now_ns s)
  unfolding release_all
  release_all-KeepsKeys signal plan [] now_ns s n = refl
  release_all-KeepsKeys signal plan (q ∷ qs) now_ns s n = elim (Bool-cases (q.id == signal.id)) [
    | inl e ↦
        rw (release_all, e)
          (release_all-KeepsKeys signal plan qs now_ns _ n
            ∙ release_signal-KeepsKeys rt q.id (some signal) (some plan) threshold now_ns s n)
    | inr e ↦
        let (body, s') = take_body q.id s in
        rw (release_all, e)
          (release_all-KeepsKeys signal plan qs now_ns _ n
            ∙ release_signal-KeepsKeys rt q.id body none threshold now_ns s' n)
  ]

  disposed-KeepsKeys :
      (signal : Signal F P) (peer : PeerIdentity) (now_ns : ℕ) (d : Disposition F)
      (s : RuntimeState S R F P)
      → KeepsKeys rt s (disposed rt signal peer now_ns d s)
  unfolding disposed remember_body
  disposed-KeepsKeys signal peer now_ns d s n =
      let s₁ = settle_evicted rt d.evicted now_ns s in
      let s₂ = settle_refused rt signal peer d now_ns s₁ in
      let kept =
        release_all-KeepsKeys signal d.forward_to d.handle_locally now_ns s₂ n
        ∙ (settle_refused-KeepsKeys signal peer d now_ns s₁ n
            ∙ settle_evicted-KeepsKeys d.evicted now_ns s n) in
      elim (Bool-cases d.queued) [ inl e ↦ rw (disposed, e) kept | inr e ↦ rw (disposed, e) kept ]

  receipt_arrived-KeepsKeys :
      (o : Option Receipt) (peer : NodeId) (now_ns : ℕ) (s : RuntimeState S R F P)
      → KeepsKeys rt s (receipt_arrived rt o peer now_ns s)
  unfolding receipt_arrived
  receipt_arrived-KeepsKeys none peer now_ns s n = refl
  receipt_arrived-KeepsKeys (some r) peer now_ns s n =
      by_reply (on_node (apply_receipt rt.node r peer now_ns) s).0
    where
      by_reply :
          (reply : Result NodeError (Option (WeightUpdate F)))
          → key_of n
              (applied rt peer r
                (reply, (on_node (apply_receipt rt.node r peer now_ns) s).1)).sessions
            ≡ key_of n s.sessions
      by_reply (ok (some update)) = refl
      by_reply (ok none) = refl
      by_reply (err e) = refl

  received-KeepsKeys :
      (signal : Signal F P) (peer : PeerIdentity) (now_ns : ℕ)
      (reply : Result NodeError (Disposition F)) (s : RuntimeState S R F P)
      → KeepsKeys rt s (received rt signal peer now_ns (reply, s))
  received-KeepsKeys signal peer now_ns (ok d) s n = disposed-KeepsKeys signal peer now_ns d s n
  received-KeepsKeys signal peer now_ns (err e) s n = refl

  dispatch-KeepsKeys :
      (signal : Signal F P) (peer : PeerIdentity) (now_ns : ℕ) (s : RuntimeState S R F P)
      → KeepsKeys rt s (dispatch rt signal peer now_ns s)
  unfolding dispatch
  dispatch-KeepsKeys signal peer now_ns s n = elim (Bool-cases (is_receipt signal.signal_type)) [
    | inl e ↦
        rw (dispatch, e)
          (receipt_arrived-KeepsKeys (rt.json.as_receipt signal.payload) peer.node_id now_ns s n)
    | inr e ↦
        let (reply, s') =
          on_node (receive rt.node signal (arrival_of rt (some peer.node_id) s.node) now_ns) s in
        rw (dispatch, e) (received-KeepsKeys signal peer now_ns reply s' n)
  ]

  noted_clamp-KeepsKeys :
      (peer : NodeId) (id : SignalId) (c : HeaderClamp) (s : RuntimeState S R F P)
      → KeepsKeys rt s (noted_clamp rt peer id c s)
  noted_clamp-KeepsKeys peer id c s n = elim (Bool-cases (c.weight_clamped || c.ttl_clamped)) [
    | inl e ↦ rw e refl
    | inr e ↦ rw e refl
  ]

  admit_verified-KeepsKeys :
      (arrived : Signal F P) (peer : PeerIdentity) (now_ns : ℕ) (s : RuntimeState S R F P)
      → KeepsKeys rt s (admit_verified rt arrived peer now_ns s)
  unfolding admit_verified
  admit_verified-KeepsKeys arrived peer now_ns s n =
      let (c, signal) = clamp_inbound_headers arrived rt.node.config.propagation in
      dispatch-KeepsKeys signal peer now_ns (noted_clamp rt peer.node_id signal.id c s) n
      ∙ noted_clamp-KeepsKeys peer.node_id signal.id c s n

  bad_signature-KeepsKeys :
      (peer : PeerIdentity) (now_ns : ℕ) (s : RuntimeState S R F P)
      → KeepsKeys rt s (bad_signature rt peer now_ns s).1
  unfolding bad_signature
  bad_signature-KeepsKeys peer now_ns s n =
      elim (Option-cases (arrival_of rt (some peer.node_id) s.node)) [
        | inl e ↦ rw (bad_signature, e) refl
        | inr (id, e) ↦ rw (bad_signature, e) refl
      ]

  on_keyed-KeepsKeys :
      (signal : Signal F P) (peer : PeerIdentity) (now_ns : ℕ) (s : RuntimeState S R F P)
      (key : Option PublicKey)
      → KeepsKeys rt s (on_keyed rt signal peer now_ns s key).1
  unfolding on_keyed
  on_keyed-KeepsKeys signal peer now_ns s none n = refl
  on_keyed-KeepsKeys signal peer now_ns s (some key) n =
      elim (Bool-cases (verifies rt (verify_signal rt.to_vec rt.crypto signal key))) [
        | inr e ↦ rw (on_keyed, e) (bad_signature-KeepsKeys peer now_ns s n)
        | inl e ↦ elim (Bool-cases (fl.is_finite signal.weight)) [
          | inr f ↦ rw (on_keyed, e, f) refl
          | inl f ↦ rw (on_keyed, e, f) (admit_verified-KeepsKeys signal peer now_ns s n)
        ]
      ]

  pub on_signal-KeepsKeys :
      (peer : PeerIdentity) (signal : Signal F P) (now_ns : ℕ) (s : RuntimeState S R F P)
      → KeepsKeys rt s (on_signal rt peer signal now_ns s).1
  unfolding on_signal
  on_signal-KeepsKeys peer signal now_ns s =
      on_keyed-KeepsKeys signal peer now_ns s (origin_key signal peer s)
