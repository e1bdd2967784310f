-- ===== src/Runtime/Ending.antt =====
-- The reader of runtime/ntl-net/src/runtime.rs comes to an end on every stream.
use ntl.Base.{
  ℕ, zero, suc, ◌+◌, ◌*◌, ◌≤◌, ◌<◌, ◌≡◌, refl, ap, ◌∙◌, subst, arith, some, length, Result, ok, err,
  Result-cases, inl, inr,
}
use ntl.Float.{Float}
use ntl.Signal.{Signal}
use ntl.Frame.{Reader, FrameError, read_signal}
use ntl.Frame.Decode.{Taken, read_signal-Taken}
use ntl.Runtime.{Runtime, RuntimeState, RuntimeError}
use ntl.Runtime.ReadLoop.{PeerIdentity, next, stop, on_signal, read_loop, ended}
use ntl.Runtime.Carried.{Flow-cases, read_loop-turn}

module _ {S R F P : Type 0} ⦃fl : Float F⦄ (rt : Runtime S R F P) (peer : PeerIdentity) where
  -- A run of the loop without fuel: it reads a signal and handles it, again and again, until reading fails or a signal
  -- ends the session. The number is that of the signals it has handled.
  pub data Ran
      : Reader
        → (ℕ → ℕ)
        → RuntimeState S R F P
        → ℕ
        → Result RuntimeError (Unit {0})
        → RuntimeState S R F P
        → Type 0 where
    unread :
        {r : Reader} {clock : ℕ → ℕ} {s : RuntimeState S R F P} (e : FrameError)
        → (read_signal rt.from_slice r).0 ≡ err e
        → Ran r clock s 0 (ended rt e) s
    stopped :
        {r r' : Reader} {clock : ℕ → ℕ} {s s' : RuntimeState S R F P} (signal : Signal F P)
        (e : RuntimeError)
        → read_signal rt.from_slice r ≡ (ok signal, r')
        → on_signal rt peer signal (clock 0) s ≡ (stop e, s')
        → Ran r clock s 1 (err e) s'
    went_on :
        {r r' : Reader} {clock : ℕ → ℕ} {s s' t : RuntimeState S R F P} {n : ℕ}
        {reply : Result RuntimeError (Unit {0})} (signal : Signal F P)
        → read_signal rt.from_slice r ≡ (ok signal, r')
        → on_signal rt peer signal (clock 0) s ≡ (next, s')
        → Ran r' (λ i. clock (suc i)) s' n reply t
        → Ran r clock s (suc n) reply t

  read_loop-Ran :
      {r : Reader} {clock : ℕ → ℕ} {s t : RuntimeState S R F P} {n : ℕ}
      {reply : Result RuntimeError (Unit {0})} (fuel : ℕ)
      → Ran r clock s n reply t
      → n ≤ fuel
      → read_loop rt (suc fuel) peer r clock s ≡ (some reply, t)
  unfolding read_loop
  read_loop-Ran fuel (unread e h) l = rw (read_loop, h) refl
  read_loop-Ran {r} {clock} {s} fuel (stopped signal e h f) l =
      read_loop-turn rt fuel peer signal r _ clock s h ∙ rw f refl
  read_loop-Ran zero (went_on signal h f d) l = absurd (omega arith)
  read_loop-Ran {r} {clock} {s} (suc fuel) (went_on signal h f d) l =
      read_loop-turn rt (suc fuel) peer signal r _ clock s h
      ∙ rw f (read_loop-Ran fuel d (omega arith))

  -- How a session ends, after how many signals, and in which state.
  abbrev pub Ends : Reader → (ℕ → ℕ) → RuntimeState S R F P → Type 0
  Ends r clock s =
      (n : ℕ) × (reply : Result RuntimeError (Unit {0})) × (t : RuntimeState S R F P) × Ran r clock
        s n reply t
      × (5 * n ≤ length r.bytes)
      × (read_loop rt (suc n) peer r clock s ≡ (some reply, t))

  signal_bytes :
      (r : Reader) (signal : Signal F P)
      → (read_signal rt.from_slice r).0 ≡ ok signal
      → length (read_signal rt.from_slice r).1.bytes + 5 ≤ length r.bytes
  signal_bytes r signal e =
      let t : Taken rt.from_slice (length r.bytes) (length (read_signal rt.from_slice r).1.bytes)
          (ok signal) =
        subst
          (λ reply.
            Taken rt.from_slice (length r.bytes) (length (read_signal rt.from_slice r).1.bytes)
              reply)
          e (read_signal-Taken rt.from_slice r).0 in
      omega arith

  Ends-within :
      (bound : ℕ) (r : Reader) (clock : ℕ → ℕ) (s : RuntimeState S R F P)
      → length r.bytes < bound
      → Ends r clock s
  Ends-within zero r clock s h = absurd (omega arith)
  Ends-within (suc bound) r clock s h =
      let r' = (read_signal rt.from_slice r).1 in
      elim (Result-cases (read_signal rt.from_slice r).0) [
        | inr (x, e) ↦
            let d = unread {clock = clock} {s = s} x e in
            (0, ended rt x, s, d, omega arith, read_loop-Ran 0 d (omega arith))
        | inl (signal, e) ↦
            let p : read_signal rt.from_slice r ≡ (ok signal, r') = ap (λ z. (z, r')) e in
            let s' = (on_signal rt peer signal (clock 0) s).1 in
            let less = signal_bytes r signal e in
            elim (Flow-cases (on_signal rt peer signal (clock 0) s).0) [
              | inr (x, f) ↦
                  let d = stopped {clock = clock} signal x p (ap (λ z. (z, s')) f) in
                  (1, err x, s', d, omega arith, read_loop-Ran 1 d (omega arith))
              | inl f ↦
                  let (n, reply, t, ran, most, g) =
                    Ends-within bound r' (λ i. clock (suc i)) s' (omega arith) in
                  let d = went_on {clock = clock} signal p (ap (λ z. (z, s')) f) ran in
                  (suc n, reply, t, d, omega arith, read_loop-Ran (suc n) d (omega arith))
            ]
      ]

  -- A session comes to an end on every stream: the loop of the reader, with no bound on its iterations, stops after
  -- at most one signal for each five bytes of the stream, and the reader of the model stops with it, with the same
  -- reply and in the same state.
  pub read_loop-Ends : (r : Reader) (clock : ℕ → ℕ) (s : RuntimeState S R F P) → Ends r clock s
  read_loop-Ends r clock s = Ends-within (suc (length r.bytes)) r clock s (omega arith)
