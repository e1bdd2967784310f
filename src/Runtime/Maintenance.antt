-- ===== src/Runtime/Maintenance.antt =====
-- `spawn_maintenance` of runtime/ntl-net/src/runtime.rs: one tick of the periodic work.
use ntl.Base.{
  ℕ, ◌*◌, ◌/◌, ◌%◌, not, none, List, [], ◌∷◌, if◌then◌else◌, nat_beq, max, Result, ok, err,
}
use ntl.Float.{Float}
use ntl.Activation.{QueuedSignal}
use ntl.Node.Feedback.{poll_activation, sweep_timeouts, checkpoint}
use ntl.Node.{NodeError}
use ntl.Runtime.{Runtime, RuntimeState, on_node}
use ntl.Runtime.Transmit.{guard, release_signal}
use ntl.Runtime.ReadLoop.{take_body}

abbrev pub maintenance_interval_secs : ℕ
maintenance_interval_secs = 5

abbrev pub activation_poll_interval_ms : ℕ
activation_poll_interval_ms = 50

unfoldable pub per_sweep : ℕ
per_sweep = max (maintenance_interval_secs * 1000 / activation_poll_interval_ms) 1

module _ {S R F P : Type 0} ⦃fl : Float F⦄ (rt : Runtime S R F P) where
  unfoldable pub release_starving :
      List (QueuedSignal F) → ℕ → RuntimeState S R F P → RuntimeState S R F P
  unfolding release_signal
  release_starving [] now_ns s = s
  release_starving (q ∷ qs) now_ns s =
      let (body, s') = take_body q.id s in
      release_starving qs now_ns (release_signal rt q.id body none guard now_ns s')

  abbrev pub polled :
      ℕ → Result NodeError (List (QueuedSignal F)) × RuntimeState S R F P → RuntimeState S R F P
  polled now_ns (ok released, s) = release_starving released now_ns s
  polled now_ns (err e, s) = s

  unfoldable pub swept : ℕ → RuntimeState S R F P → RuntimeState S R F P
  unfolding sweep_timeouts checkpoint
  swept now_ns s =
      (on_node (checkpoint rt.node now_ns) (on_node (sweep_timeouts rt.node 256 now_ns) s).1).1

  unfoldable pub maintain : ℕ → ℕ → RuntimeState S R F P → RuntimeState S R F P
  unfolding poll_activation release_starving swept per_sweep
  maintain ticks now_ns s =
      let s' = polled now_ns (on_node (poll_activation rt.node now_ns) s) in
      if not (nat_beq (ticks % per_sweep) 0) then s' else swept now_ns s'
