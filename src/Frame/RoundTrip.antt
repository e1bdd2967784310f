-- ===== src/Frame/RoundTrip.antt =====
-- What `write_signal` of runtime/ntl-net/src/frame.rs puts on a stream, `read_signal` reads back.
use ntl.Base.{
  ℕ, ◌≤◌, ◌<◌, ◌^◌, ◌≡◌, refl, true, false, Option, some, List, [], ◌∷◌, ◌++◌, arith, ltb, leb,
  nat_beq, length, length-append, ok, Bool-cases, Result-cases, inl, inr,
}
use ntl.Float.{Float}
use ntl.Signal.{Signal, encode, decode, bounded, max_size}
use ntl.Frame.{
  Reader, Writer, decoded, read_exact, read_body, read_signal, write_body, write_signal,
  to_be_bytes,
}
use ntl.Frame.Words.{from_be_bytes-to_be_bytes, take-append, drop-append}

-- A writer that keeps everything, as a socket does for its peer.
abbrev pub buffer : Writer (List ℕ)
buffer = record { write_all = λ bytes w. some (w ++ bytes); flush = λ w. some w }

pub append_assoc : (xs ys zs : List ℕ) → (xs ++ ys) ++ zs ≡ xs ++ (ys ++ zs)
append_assoc [] ys zs = refl
append_assoc (x ∷ xs) ys zs = rw (append_assoc xs ys zs) refl

-- A reader over bytes that are followed by others.
abbrev pub holding : List ℕ → Reader → Reader
holding bytes r = record r { bytes = bytes ++ r.bytes }

read_exact-append : (xs : List ℕ) (r : Reader) → read_exact (length xs) (holding xs r) ≡ (ok xs, r)
unfolding read_exact
read_exact-append xs r =
    let e : leb (length xs) (length (xs ++ r.bytes)) ≡ true =
      ground (arith, length-append xs r.bytes) in
    rw (e, take-append xs r.bytes, drop-append xs r.bytes) refl

-- What the code relies on in serde_cbor: a signal is decoded from its own encoding, and an encoding is
-- not empty.
pub record IsCodec {F P : Type 0} (to_vec : Signal F P → Option (List ℕ))
    (from_slice : List ℕ → Option (Signal F P)) : Type 0 where
  pub inverse : (s : Signal F P) (body : List ℕ) → to_vec s ≡ some body → from_slice body ≡ some s
  pub nonempty : (s : Signal F P) (body : List ℕ) → to_vec s ≡ some body → 0 < length body

module _ {F P : Type 0} ⦃fl : Float F⦄ (to_vec : Signal F P → Option (List ℕ))
    (from_slice : List ℕ → Option (Signal F P)) (codec : IsCodec to_vec from_slice) where
  -- The bytes of a frame.
  abbrev pub frame : List ℕ → List ℕ
  frame body = to_be_bytes (length body) ++ body

  encode-some :
      (s : Signal F P) (body : List ℕ)
      → encode to_vec s ≡ ok body
      → (to_vec s ≡ some body) × (length body ≤ max_size)
  unfolding encode bounded
  encode-some s body h = ground arith

  header_read :
      (body : List ℕ) (r : Reader)
      → read_exact 4 (holding (frame body) r) ≡ (ok (to_be_bytes (length body)), holding body r)
  unfolding to_be_bytes
  header_read body r = read_exact-append (to_be_bytes (length body)) (holding body r)

  decode-encode :
      (s : Signal F P) (body : List ℕ) → encode to_vec s ≡ ok body → decoded from_slice body ≡ ok s
  unfolding decoded decode
  decode-encode s body h =
      let (e, l) = encode-some s body h in
      let f : ltb max_size (length body) ≡ false = ground arith in
      rw (decoded, decode, f, codec.inverse s body e) refl

  read_body-frame :
      (s : Signal F P) (body : List ℕ) (r : Reader)
      → encode to_vec s ≡ ok body
      → read_body from_slice (length body) (holding body r) ≡ (ok s, r)
  unfolding read_body
  read_body-frame s body r h =
      let (e, l) = encode-some s body h in
      let n = codec.nonempty s body e in
      let f : ltb max_size (length body) ≡ false = ground arith in
      let z : nat_beq (length body) 0 ≡ false = ground arith in
      rw (f, z, read_exact-append body r, decode-encode s body h) refl

  pub read_signal-frame :
      (s : Signal F P) (body : List ℕ) (r : Reader)
      → encode to_vec s ≡ ok body
      → read_signal from_slice (holding (frame body) r) ≡ (ok s, r)
  unfolding read_signal
  read_signal-frame s body r h =
      let (e, l) = encode-some s body h in
      let m : length body < 4294967296 = omega arith in
      rw (read_signal, header_read body r, from_be_bytes-to_be_bytes (length body) m)
        (read_body-frame s body r h)

  write_body-ok :
      (body w w' : List ℕ) → write_body to_vec buffer body w ≡ ok w' → w' ≡ w ++ frame body
  unfolding write_body
  write_body-ok body w w' h = elim (Bool-cases (ltb (length body) (2 ^ 32))) [
    | inl e ↦ ground (arith, append_assoc w (to_be_bytes (length body)) body)
    | inr e ↦ absurd (ground arith)
  ]

  pub write_signal-buffer :
      (s : Signal F P) (body w : List ℕ)
      → encode to_vec s ≡ ok body
      → write_signal to_vec buffer s w ≡ ok (w ++ frame body)
  unfolding write_signal write_body
  write_signal-buffer s body w h =
      let (e, l) = encode-some s body h in
      let f : ltb (length body) (2 ^ 32) ≡ true = ground arith in
      rw (write_signal, h, write_body, f, append_assoc w (to_be_bytes (length body)) body) refl

  -- A signal that was written is read back, with the same content. What `write_signal` adds to a stream,
  -- `read_signal` takes off again whatever follows it, and what follows is left in place. The stream
  -- takes every byte, and the codec decodes what it encoded.
  pub read_signal-write_signal :
      (s : Signal F P) (w w' : List ℕ) (r : Reader)
      → write_signal to_vec buffer s w ≡ ok w'
      → (bytes : List ℕ) × (w' ≡ w ++ bytes)
        × (read_signal from_slice (holding bytes r) ≡ (ok s, r))
  unfolding write_signal
  read_signal-write_signal s w w' r h = elim (Result-cases (encode to_vec s)) [
    | inl (body, e) ↦
        let f : write_body to_vec buffer body w ≡ ok w' = ground arith in
        (frame body, write_body-ok body w w' f, read_signal-frame s body r e)
    | inr (x, e) ↦ absurd (ground arith)
  ]
