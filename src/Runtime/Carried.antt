-- ===== src/Runtime/Carried.antt =====
-- A session of runtime/ntl-net/src/runtime.rs from one end to the other: the writer pump of the sender, the bytes
-- on the connection, and the reader of the receiver.
use ntl.Base.{
  ℕ, suc, ◌<◌, ◌≡◌, ◌⊎◌, refl, ap, subst, ◌∙◌, false, Option, some, List, [], ◌∷◌, ◌++◌, arith,
  length, All, Result, ok, err, inl, inr,
}
use ntl.Float.{Float}
use ntl.Signal.{Signal, encode}
use ntl.Frame.{Reader, read_exact, read_signal}
use ntl.Frame.RoundTrip.{
  buffer, IsCodec, frame, append_assoc, read_signal-frame, write_signal-buffer,
}
use ntl.Frame.Decode.{Taken, read_signal-Taken}
use ntl.Runtime.{Runtime, RuntimeState, RuntimeError}
use ntl.Runtime.ReadLoop.{PeerIdentity, Flow, next, stop, on_signal, read_loop}
use ntl.Runtime.Sessions.{pump}

pub Flow-cases : (f : Flow) → (f ≡ next) ⊎ ((e : RuntimeError) × (f ≡ stop e))
Flow-cases next = inl refl
Flow-cases (stop e) = inr (e, refl)

module _ {S R F P : Type 0} ⦃fl : Float F⦄ (rt : Runtime S R F P) where
  -- The signals of a list handled one after the other, up to one that ends the session.
  unfoldable pub deliver :
      PeerIdentity
      → List (Signal F P)
      → (ℕ → ℕ)
      → RuntimeState S R F P
      → Result RuntimeError (Unit {0}) × RuntimeState S R F P
  deliver peer [] clock s = (ok tt, s)
  deliver peer (signal ∷ rest) clock s =
      let (flow, s') = on_signal rt peer signal (clock 0) s in
      elim flow [ next ↦ deliver peer rest (λ i. clock (suc i)) s' | stop e ↦ (err e, s') ]

  abbrev pub turn :
      Flow
      → ℕ
      → PeerIdentity
      → Reader
      → (ℕ → ℕ)
      → RuntimeState S R F P
      → Option (Result RuntimeError (Unit {0})) × RuntimeState S R F P
  turn next fuel peer r clock s = read_loop rt fuel peer r clock s
  turn (stop e) fuel peer r clock s = (some (err e), s)

  pub read_loop-turn :
      (fuel : ℕ) (peer : PeerIdentity) (signal : Signal F P) (r r' : Reader) (clock : ℕ → ℕ)
      (s : RuntimeState S R F P)
      → read_signal rt.from_slice r ≡ (ok signal, r')
      → read_loop rt (suc fuel) peer r clock s ≡ (
          let (flow, s') = on_signal rt peer signal (clock 0) s in
          turn flow fuel peer r' (λ i. clock (suc i)) s')
  unfolding read_loop
  read_loop-turn fuel peer signal r r' clock s e =
      elim (Flow-cases (on_signal rt peer signal (clock 0) s).0) [
        | inl n ↦ rw (read_loop, ap (λ p. p.0) e, n, ap (λ p. p.1) e) refl
        | inr (x, n) ↦ rw (read_loop, ap (λ p. p.0) e, n) refl
      ]

  read_signal-shorter :
      (r : Reader) (signal : Signal F P) (fuel : ℕ)
      → (read_signal rt.from_slice r).0 ≡ ok signal
      → length r.bytes < suc fuel
      → length (read_signal rt.from_slice r).1.bytes < fuel
  read_signal-shorter r signal fuel e h =
      let t : Taken rt.from_slice (length r.bytes) (length (read_signal rt.from_slice r).1.bytes)
          (ok signal) =
        subst
          (λ reply.
            Taken rt.from_slice (length r.bytes) (length (read_signal rt.from_slice r).1.bytes)
              reply)
          e (read_signal-Taken rt.from_slice r).0 in
      omega arith

-- A signal that the sender's codec can encode within the size limit.
abbrev pub IsEncodable :
    {F P : Type 0} ⦃fl : Float F⦄ → (Signal F P → Option (List ℕ)) → Signal F P → Type 0
IsEncodable to_vec s = (body : List ℕ) × (encode to_vec s ≡ ok body)

append_nil : (xs : List ℕ) → xs ≡ xs ++ []
append_nil [] = refl
append_nil (x ∷ xs) = ap (λ ys. x ∷ ys) (append_nil xs)

module _ {S R F P : Type 0} ⦃fl : Float F⦄ (to_vec : Signal F P → Option (List ℕ))
    (rt : Runtime S R F P) (codec : IsCodec to_vec rt.from_slice) where
  abbrev pub connection : List ℕ → Reader
  connection bytes = record { bytes = bytes; breaks = false }

  end_of_stream :
      (peer : PeerIdentity) (clock : ℕ → ℕ) (s : RuntimeState S R F P)
      → read_loop rt 1 peer (connection []) clock s ≡ (some (ok tt), s)
  unfolding read_loop read_signal read_exact
  end_of_stream peer clock s = refl

  -- What the pump of the sender writes, the reader of the receiver handles: every signal, in order, each
  -- once, and then the session ends without an error; a signal that ends the session is the last one
  -- handled. All the signals can be encoded, and the codec decodes what it encoded.
  pub pump-read_loop :
      (signals : List (Signal F P)) (w : List ℕ) (peer : PeerIdentity) (clock : ℕ → ℕ)
      (s : RuntimeState S R F P)
      → All (IsEncodable to_vec) signals
      → (bytes : List ℕ) × (pump to_vec buffer signals w ≡ w ++ bytes)
        × (read_loop rt (suc (length signals)) peer (connection bytes) clock s
            ≡ (let (reply, s') = deliver rt peer signals clock s in (some reply, s')))
  unfolding pump deliver
  pump-read_loop [] w peer clock s h = ([], append_nil w, end_of_stream peer clock s)
  pump-read_loop (signal ∷ rest) w peer clock s ((body, e), h) =
      let s₁ = (on_signal rt peer signal (clock 0) s).1 in
      let (bytes, p, q) =
        pump-read_loop rest (w ++ frame to_vec rt.from_slice codec body) peer (λ i. clock (suc i))
          s₁ h in
      let f = write_signal-buffer to_vec rt.from_slice codec signal body w e in
      let g = read_signal-frame to_vec rt.from_slice codec signal body (connection bytes) e in
      (
        frame to_vec rt.from_slice codec body ++ bytes,
        rw (pump, f) (p ∙ append_assoc w (frame to_vec rt.from_slice codec body) bytes),
        elim (Flow-cases (on_signal rt peer signal (clock 0) s).0) [
          | inl n ↦
              read_loop-turn rt (suc (length rest)) peer signal _ (connection bytes) clock s g
              ∙ rw (n, deliver) q
          | inr (x, n) ↦
              read_loop-turn rt (suc (length rest)) peer signal _ (connection bytes) clock s g
              ∙ rw (n, deliver) refl
        ],
      )
