-- ===== src/Runtime/Sessions.antt =====
-- `run_session` and the writer pump of runtime/ntl-net/src/runtime.rs: how a session enters and leaves the
-- table.
use ntl.Base.{
  ℕ, Bool, true, false, Option, none, some, List, [], ◌∷◌, bytes_eq, if◌then◌else◌, Result, ok, err,
}
use ntl.Base.Map.{get, insert, remove}
use ntl.Float.{Float}
use ntl.Signal.{Signal}
use ntl.Frame.{Writer, write_signal}
use ntl.Runtime.{
  RuntimeState, RuntimeError, handshake_failed, duplicate_session, Session, peer_connected,
  peer_disconnected, event,
}
use ntl.Runtime.ReadLoop.{PeerIdentity}

abbrev pub is_live : {F P : Type 0} → Option (Session F P) → Bool
is_live none = false
is_live (some session) = if session.is_closed then false else true

module _ {S R F P : Type 0} where
  -- A session that has passed the handshake enters the table, unless the peer has a live one.
  unfoldable pub open_session :
      PeerIdentity → RuntimeState S R F P → Result RuntimeError (Unit {0}) × RuntimeState S R F P
  unfolding get insert
  open_session peer s =
      if is_live (get peer.node_id s.sessions)
      then (err (handshake_failed duplicate_session), s)
      else (
        ok tt,
        event (peer_connected peer.node_id) (record s {
          sessions =
              insert peer.node_id
                (record { outbound = []; is_closed = false; public_key = peer.public_key })
                s.sessions;
        }),
      )

  unfoldable pub close_session : PeerIdentity → RuntimeState S R F P → RuntimeState S R F P
  unfolding remove
  close_session peer s =
      event (peer_disconnected peer.node_id)
        (record s { sessions = remove peer.node_id s.sessions })

module _ {F P W : Type 0} ⦃fl : Float F⦄ (to_vec : Signal F P → Option (List ℕ))
    (wr : Writer W) where
  -- One turn of the writer pump on a session and its socket: the first waiting signal is written, and a
  -- write that fails closes the channel.
  unfoldable pub pump_turn : Session F P → W → Session F P × W
  unfolding write_signal
  pump_turn session w = elim session.outbound [
    | [] ↦ (session, w)
    | signal ∷ rest ↦ elim (write_signal to_vec wr signal w) [
      | ok w' ↦ (record session { outbound = rest }, w')
      | err e ↦ (record session { outbound = rest; is_closed = true }, w)
    ]
  ]

  -- The pump on everything that waits, up to a write that fails.
  unfoldable pub pump : List (Signal F P) → W → W
  unfolding write_signal
  pump [] w = w
  pump (signal ∷ rest) w = elim (write_signal to_vec wr signal w) [
    | ok w' ↦ pump rest w'
    | err e ↦ w
  ]
