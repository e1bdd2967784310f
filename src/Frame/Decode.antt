-- ===== src/Frame/Decode.antt =====
-- What `read_signal` of runtime/ntl-net/src/frame.rs takes off a stream, whatever the stream holds.
use ntl.Base.{
  ℕ, ◌+◌, ◌≤◌, ◌<◌, ◌≡◌, Option, true, List, [], arith, ltb, leb, nat_beq, length, length-drop,
  take, drop, Result, ok, err, Bool-cases, Result-cases, inl, inr,
}
use ntl.Float.{Float}
use ntl.Signal.{Signal, decode, max_size}
use ntl.Frame.{
  Reader, FrameError, closed, frame_too_large, malformed, io, read_exact, read_body, read_signal,
  from_body, decoded, from_be_bytes,
}

read_exact-ok :
    (n : ℕ) (r r' : Reader) (xs : List ℕ)
    → read_exact n r ≡ (ok xs, r')
    → length r.bytes ≡ length r'.bytes + n
unfolding read_exact
read_exact-ok n r r' xs h = ground (arith, length-drop n r.bytes)

module _ {F P : Type 0} ⦃fl : Float F⦄ (from_slice : List ℕ → Option (Signal F P)) where
  -- What an answer says of the bytes left before and after.
  abbrev pub Taken : ℕ → ℕ → Result FrameError (Signal F P) → Type 0
  Taken before after (ok s) = (after + 4 < before) × (before ≤ after + 4 + max_size)
  Taken before after (err (frame_too_large claimed)) = (max_size < claimed) × (before ≡ after + 4)
  Taken before after (err closed) = before < 4
  Taken before after (err e) = after ≤ before

  decoded-Taken :
      (before after : ℕ) (body : List ℕ)
      → after + 4 < before
      → before ≤ after + 4 + max_size
      → Taken before after (decoded from_slice body)
  unfolding decoded
  decoded-Taken before after body l u = elim (Result-cases (decode from_slice body)) [
    | inl (s, e) ↦ rw (decoded, e) (l, u)
    | inr (x, e) ↦ rw (decoded, e) (omega arith)
  ]

  from_body-Taken :
      (claimed before : ℕ) (r : Reader)
      → before ≡ length r.bytes + 4
      → 0 < claimed
      → claimed ≤ max_size
      → let (reply, r') = from_body from_slice (read_exact claimed r) in
        Taken before (length r'.bytes) reply
  unfolding read_exact
  from_body-Taken claimed before r h z m = elim (Bool-cases (leb claimed (length r.bytes))) [
    | inl e ↦ rw e (
        decoded-Taken before (length (drop claimed r.bytes)) (take claimed r.bytes)
          (ground (arith, length-drop claimed r.bytes))
          (ground (arith, length-drop claimed r.bytes)))
    | inr e ↦ rw e (omega arith)
  ]

  read_body-Taken :
      (claimed before : ℕ) (r : Reader)
      → before ≡ length r.bytes + 4
      → let (reply, r') = read_body from_slice claimed r in Taken before (length r'.bytes) reply
  unfolding read_body
  read_body-Taken claimed before r h = elim (Bool-cases (ltb max_size claimed)) [
    | inl e ↦ rw e (ground arith)
    | inr e ↦ elim (Bool-cases (nat_beq claimed 0)) [
      | inl z ↦ rw (e, z) (ground arith)
      | inr z ↦ rw (e, z) (from_body-Taken claimed before r h (ground arith) (ground arith))
    ]
  ]

  answer-Taken :
      (r : Reader)
      → let (reply, r') = read_signal from_slice r in Taken (length r.bytes) (length r'.bytes) reply
  unfolding read_signal read_exact
  answer-Taken r = elim (Bool-cases (leb 4 (length r.bytes))) [
    | inl e ↦
        rw (read_signal, e)
          (read_body-Taken (from_be_bytes (take 4 r.bytes)) (length r.bytes)
            (record r { bytes = drop 4 r.bytes }) (ground (arith, length-drop 4 r.bytes)))
    | inr e ↦ elim (Bool-cases r.breaks) [
      | inl b ↦ rw (read_signal, e, b) (omega arith)
      | inr b ↦ rw (read_signal, e, b) (ground arith)
    ]
  ]

  -- What the length prefix makes of a stream that holds one.
  abbrev pub Judged : Reader → ℕ → Result FrameError (Signal F P) × Reader → Type 0
  Judged r claimed (reply, r') =
      (max_size < claimed → (reply ≡ err (frame_too_large claimed)) × (r'.bytes ≡ drop 4 r.bytes))
      × (claimed ≡ 0 → (reply ≡ err malformed) × (r'.bytes ≡ drop 4 r.bytes))
      × (0 < claimed
          → claimed ≤ max_size
          → claimed + 4 ≤ length r.bytes
          → (reply ≡ decoded from_slice (take claimed (drop 4 r.bytes)))
            × (r'.bytes ≡ drop claimed (drop 4 r.bytes)))
      × (0 < claimed
          → claimed ≤ max_size
          → length r.bytes < claimed + 4
          → (reply ≡ err io) × (r'.bytes ≡ []))

  read_body-Judged :
      (claimed : ℕ) (r : Reader)
      → 4 ≤ length r.bytes
      → Judged r claimed (read_body from_slice claimed (record r { bytes = drop 4 r.bytes }))
  unfolding read_body read_exact
  read_body-Judged claimed r h =
      let e = length-drop 4 r.bytes in (ground arith, ground arith, ground arith, ground arith)

  read_signal-Judged :
      (r : Reader)
      → 4 ≤ length r.bytes
      → Judged r (from_be_bytes (take 4 r.bytes)) (read_signal from_slice r)
  unfolding read_signal read_exact
  read_signal-Judged r h =
      let e : leb 4 (length r.bytes) ≡ true = ground arith in
      rw (read_signal, e) (read_body-Judged (from_be_bytes (take 4 r.bytes)) r h)

  -- Whatever the bytes of a stream are, reading answers, and what it takes is bounded. A signal takes five bytes at
  -- least, and at most four more than the size limit; a stream is reported as closed only if fewer than four bytes
  -- were left; no other error gives bytes back. If four bytes are there, they decide: a length above the limit is
  -- refused, and zero is malformed, with only those four bytes taken; any other takes that many bytes more and
  -- answers as they decode, or takes what is left and fails if they are not there.
  pub read_signal-Taken :
      (r : Reader)
      → let (reply, r') = read_signal from_slice r in
        Taken (length r.bytes) (length r'.bytes) reply
        × (4 ≤ length r.bytes → Judged r (from_be_bytes (take 4 r.bytes)) (reply, r'))
  read_signal-Taken r = (answer-Taken r, read_signal-Judged r)
