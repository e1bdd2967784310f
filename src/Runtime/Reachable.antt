-- ===== src/Runtime/Reachable.antt =====
-- The runtime of runtime/ntl-net/src/runtime.rs as a transition system: its tasks take their steps in any order.
use ntl.Base.{
  ℕ, ◌≡◌, refl, sym, subst, ◌∙◌, inl, inr, Option, none, some, List, [], ◌∷◌, arith, bytes_eq,
  number_eq, ◌==◌, bytes_beq_iff, nat_beq, ◌%◌, Result, ok, err, Bool-cases,
}
use ntl.Base.Map.{get, insert, get-insert, get-remove}
use ntl.Float.{Float}
use ntl.Signal.{NodeId, Signal, SignalBuilder}
use ntl.Activation.{QueuedSignal}
use ntl.Crypto.{PublicKey, CryptoError}
use ntl.Frame.{Writer}
use ntl.Node.{NodeError, Disposition}
use ntl.Node.Emit.{emit}
use ntl.Node.Receive.{receive_local}
use ntl.Node.Feedback.{poll_activation}
use ntl.Runtime.{Runtime, RuntimeState, Session, on_node}
use ntl.Runtime.Transmit.{guard, emit_signal, route, route_sent, route_signed, sign_and_route}
use ntl.Runtime.ReadLoop.{PeerIdentity, take_body, on_signal}
use ntl.Runtime.Maintenance.{maintain, release_starving, polled, swept, per_sweep}
use ntl.Runtime.Sessions.{is_live, open_session, close_session, pump_turn}
use ntl.Runtime.Keys.{
  key_of, SameKeys, KeepsKeys, transmit-SameKeys, insert-SameKeys, release_signal-KeepsKeys,
}
use ntl.Runtime.Binding.{on_signal-KeepsKeys}

module _ {S R F P : Type 0} ⦃fl : Float F⦄ (rt : Runtime S R F P) where
  release_starving-KeepsKeys :
      (qs : List (QueuedSignal F)) (now_ns : ℕ) (s : RuntimeState S R F P)
      → KeepsKeys rt s (release_starving rt qs now_ns s)
  unfolding release_starving
  release_starving-KeepsKeys [] now_ns s n = refl
  release_starving-KeepsKeys (q ∷ qs) now_ns s n =
      let (body, s') = take_body q.id s in
      release_starving-KeepsKeys qs now_ns _ n
      ∙ release_signal-KeepsKeys rt q.id body none guard now_ns s' n

  polled-KeepsKeys :
      (now_ns : ℕ) (reply : Result NodeError (List (QueuedSignal F))) (s : RuntimeState S R F P)
      → KeepsKeys rt s (polled rt now_ns (reply, s))
  polled-KeepsKeys now_ns (ok released) s n = release_starving-KeepsKeys released now_ns s n
  polled-KeepsKeys now_ns (err e) s n = refl

  maintain-KeepsKeys :
      (ticks now_ns : ℕ) (s : RuntimeState S R F P) → KeepsKeys rt s (maintain rt ticks now_ns s)
  unfolding maintain swept
  maintain-KeepsKeys ticks now_ns s n =
      let (reply, s') = on_node (poll_activation rt.node now_ns) s in
      elim (Bool-cases (nat_beq (ticks % per_sweep) 0)) [
        | inl e ↦ rw (maintain, e) (polled-KeepsKeys now_ns reply s' n)
        | inr e ↦ rw (maintain, e) (polled-KeepsKeys now_ns reply s' n)
      ]

  route_sent-KeepsKeys :
      (signal : Signal F P) (now_ns : ℕ) (reply : Result NodeError (Disposition F))
      (s : RuntimeState S R F P)
      → KeepsKeys rt s (route_sent rt signal now_ns (reply, s)).1
  route_sent-KeepsKeys signal now_ns (ok d) s n = transmit-SameKeys _ d.forward_to s.sessions n
  route_sent-KeepsKeys signal now_ns (err e) s n = refl

  route_signed-KeepsKeys :
      (now_ns : ℕ) (reply : Result CryptoError (Signal F P)) (s : RuntimeState S R F P)
      → KeepsKeys rt s (route_signed rt now_ns reply s).1
  unfolding route
  route_signed-KeepsKeys now_ns (err e) s n = refl
  route_signed-KeepsKeys now_ns (ok signal) s n =
      let (reply, s') = on_node (receive_local rt.node signal now_ns) s in
      route_sent-KeepsKeys signal now_ns reply s' n

  sign_and_route-KeepsKeys :
      (now_ns : ℕ) (reply : Result NodeError (Signal F P)) (s : RuntimeState S R F P)
      → KeepsKeys rt s (sign_and_route rt now_ns (reply, s)).1
  sign_and_route-KeepsKeys now_ns (err e) s n = refl
  sign_and_route-KeepsKeys now_ns (ok signal) s n = route_signed-KeepsKeys now_ns _ s n

  emit_signal-KeepsKeys :
      (b : SignalBuilder F P) (now_ns : ℕ) (s : RuntimeState S R F P)
      → KeepsKeys rt s (emit_signal rt b now_ns s).1
  unfolding emit_signal
  emit_signal-KeepsKeys b now_ns s =
      let (reply, s') = on_node (emit rt.node rt.from_parts b now_ns) s in
      sign_and_route-KeepsKeys now_ns reply s'

  -- The steps of the runtime's tasks. A session is opened for a peer that has passed the handshake.
  pub data Step {W : Type 0} (wr : Writer W) (s : RuntimeState S R F P)
      : RuntimeState S R F P → Type 0 where
    opened :
        (peer : PeerIdentity)
        → rt.blake3 peer.public_key ≡ peer.node_id
        → Step wr s (open_session peer s).1
    ended : (peer : PeerIdentity) → Step wr s (close_session peer s)
    arrived :
        (peer : PeerIdentity) (signal : Signal F P) (now_ns : ℕ)
        → Step wr s (on_signal rt peer signal now_ns s).1
    ticked : (ticks now_ns : ℕ) → Step wr s (maintain rt ticks now_ns s)
    emitted : (b : SignalBuilder F P) (now_ns : ℕ) → Step wr s (emit_signal rt b now_ns s).1
    pumped :
        (n : NodeId) (session : Session F P) (w : W)
        → get n s.sessions ≡ some session
        → Step wr s
            (record s { sessions = insert n (pump_turn rt.to_vec wr session w).0 s.sessions })

  pub data Reach {W : Type 0} (wr : Writer W) (s : RuntimeState S R F P)
      : RuntimeState S R F P → Type 0 where
    here : Reach wr s s
    then : {t u : RuntimeState S R F P} → Reach wr s t → Step wr t u → Reach wr s u

  abbrev pub BoundKey : NodeId → Option PublicKey → Type 0
  BoundKey n none = Unit {0}
  BoundKey n (some key) = rt.blake3 key ≡ n

  -- Every session is held by the identity that its key hashes to.
  abbrev pub IsBound : RuntimeState S R F P → Type 0
  IsBound s = (n : NodeId) → BoundKey n (key_of n s.sessions)

  kept :
      (a b : List (NodeId × Session F P))
      → SameKeys a b
      → ((n : NodeId) → BoundKey n (key_of n a))
      → (n : NodeId) → BoundKey n (key_of n b)
  kept a b k h n = subst (λ o. BoundKey n o) (sym (k n)) (h n)

  pump_turn-key :
      {W : Type 0} (wr : Writer W) (session : Session F P) (w : W)
      → (pump_turn rt.to_vec wr session w).0.public_key ≡ session.public_key
  unfolding pump_turn
  pump_turn-key wr session w = ground arith

  insert-IsBound :
      (peer : PeerIdentity) (session : Session F P) (s : RuntimeState S R F P)
      → session.public_key ≡ peer.public_key
      → rt.blake3 peer.public_key ≡ peer.node_id
      → IsBound s
      → (n : NodeId) → BoundKey n (key_of n (insert peer.node_id session s.sessions))
  insert-IsBound peer session s k h b n = elim (Bool-cases (peer.node_id == n)) [
    | inl e ↦
        rw (get-insert peer.node_id n session s.sessions, e, k)
          (h ∙ (bytes_beq_iff peer.node_id n).0 e)
    | inr e ↦ rw (get-insert peer.node_id n session s.sessions, e) (b n)
  ]

  open_session-IsBound :
      (peer : PeerIdentity) (s : RuntimeState S R F P)
      → rt.blake3 peer.public_key ≡ peer.node_id
      → IsBound s
      → IsBound (open_session peer s).1
  unfolding open_session
  open_session-IsBound peer s h b n = elim (Bool-cases (is_live (get peer.node_id s.sessions))) [
    | inl e ↦ rw (open_session, e) (b n)
    | inr e ↦ rw (open_session, e) (insert-IsBound peer _ s refl h b n)
  ]

  close_session-IsBound :
      (peer : PeerIdentity) (s : RuntimeState S R F P) → IsBound s → IsBound (close_session peer s)
  unfolding close_session
  close_session-IsBound peer s b n = elim (Bool-cases (peer.node_id == n)) [
    | inl e ↦ rw (get-remove peer.node_id n s.sessions, e) tt
    | inr e ↦ rw (get-remove peer.node_id n s.sessions, e) (b n)
  ]

  Step-IsBound :
      {W : Type 0} {wr : Writer W} {s s' : RuntimeState S R F P}
      → Step wr s s'
      → IsBound s
      → IsBound s'
  Step-IsBound {s = s} (opened peer h) b = open_session-IsBound peer s h b
  Step-IsBound {s = s} (ended peer) b = close_session-IsBound peer s b
  Step-IsBound {s = s} (arrived peer signal now_ns) b =
      kept s.sessions _ (on_signal-KeepsKeys rt peer signal now_ns s) b
  Step-IsBound {s = s} (ticked ticks now_ns) b =
      kept s.sessions _ (maintain-KeepsKeys ticks now_ns s) b
  Step-IsBound {s = s} (emitted e now_ns) b = kept s.sessions _ (emit_signal-KeepsKeys e now_ns s) b
  Step-IsBound {wr = wr} {s = s} (pumped n session w g) b =
      kept s.sessions _
        (insert-SameKeys n session (pump_turn rt.to_vec wr session w).0 s.sessions g
          (pump_turn-key wr session w))
        b

  -- No session is ever held under a name that is not the hash of its key, whatever the tasks of the
  -- runtime do and in whatever order: a session that opens, ends or is written to, a signal that arrives or
  -- is emitted, a tick of the maintenance. A session opens only for a peer that has passed the handshake.
  pub Reach-IsBound :
      {W : Type 0} (wr : Writer W) (s s' : RuntimeState S R F P)
      → IsBound s
      → Reach wr s s'
      → IsBound s'
  Reach-IsBound wr s s' b here = b
  Reach-IsBound wr s s' b (then r st) = Step-IsBound st (Reach-IsBound wr s _ b r)
