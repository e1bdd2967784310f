-- ===== src/Frame.antt =====
-- runtime/ntl-net/src/frame.rs: signals on a byte stream, each behind its length as four bytes. A socket's
-- reader is the bytes that will arrive and how the stream ends; a writer is its state and the two methods
-- that the code calls. The CBOR codec is a parameter.
pub mod Words
pub mod Decode
pub mod RoundTrip
use ntl.Base.{
  ℕ, ◌+◌, ◌*◌, ◌/◌, ◌%◌, ◌^◌, Bool, true, false, Option, none, some, List, [], ◌∷◌, if◌then◌else◌,
  ltb, leb, nat_beq, length, take, drop, Result, ok, err,
}
use ntl.Signal.{Signal, encode, decode, max_size}
use ntl.Float.{Float}

-- The texts of the errors are left out.
pub data FrameError : Type 0 where
  io closed malformed : FrameError
  frame_too_large : ℕ → FrameError

-- What a socket will deliver: the bytes, and whether it then fails or is closed by the peer.
pub record Reader : Type 0 where
  pub bytes : List ℕ
  pub breaks : Bool

pub data ReadError : Type 0 where
  unexpected_eof broken : ReadError

-- `read_exact`
unfoldable pub read_exact : ℕ → Reader → Result ReadError (List ℕ) × Reader
read_exact n r =
    if leb n (length r.bytes)
    then (ok (take n r.bytes), record r { bytes = drop n r.bytes })
    else (err (if r.breaks then broken else unexpected_eof), record r { bytes = [] })

unfoldable pub to_be_bytes : ℕ → List ℕ
to_be_bytes n = n / 16777216 % 256 ∷ n / 65536 % 256 ∷ n / 256 % 256 ∷ n % 256 ∷ []

unfoldable pub from_be_bytes : List ℕ → ℕ
from_be_bytes (a ∷ b ∷ c ∷ d ∷ rest) = a * 16777216 + b * 65536 + c * 256 + d
from_be_bytes _ = 0

abbrev pub header_error : ReadError → FrameError
header_error unexpected_eof = closed
header_error broken = io

module _ {F P : Type 0} (from_slice : List ℕ → Option (Signal F P)) ⦃fl : Float F⦄ where
  unfoldable pub decoded : List ℕ → Result FrameError (Signal F P)
  unfolding decode
  decoded body = elim (decode from_slice body) [ ok s ↦ ok s | err e ↦ err malformed ]

  abbrev pub from_body :
      Result ReadError (List ℕ) × Reader → Result FrameError (Signal F P) × Reader
  from_body (ok body, r) = (decoded body, r)
  from_body (err e, r) = (err io, r)

  unfoldable pub read_body : ℕ → Reader → Result FrameError (Signal F P) × Reader
  unfolding read_exact decoded
  read_body claimed r =
      if ltb max_size claimed
      then (err (frame_too_large claimed), r)
      else if nat_beq claimed 0
      then (err malformed, r)
      else from_body (read_exact claimed r)

  abbrev pub from_header :
      Result ReadError (List ℕ) × Reader → Result FrameError (Signal F P) × Reader
  from_header (ok len_buf, r) = read_body (from_be_bytes len_buf) r
  from_header (err e, r) = (err (header_error e), r)

  unfoldable pub read_signal : Reader → Result FrameError (Signal F P) × Reader
  unfolding read_exact read_body from_be_bytes
  read_signal r = from_header (read_exact 4 r)

-- A writer: `write_all` and `flush`, either of which fails.
pub record Writer (W : Type 0) : Type 0 where
  pub write_all : List ℕ → W → Option W
  pub flush : W → Option W

abbrev pub or_io : {W : Type 0} → Option W → (W → Result FrameError W) → Result FrameError W
or_io none k = err io
or_io (some w) k = k w

module _ {F P W : Type 0} (to_vec : Signal F P → Option (List ℕ)) (wr : Writer W)
    ⦃fl : Float F⦄ where
  -- What reaches the writer for an encoded body.
  unfoldable pub write_body : List ℕ → W → Result FrameError W
  unfolding to_be_bytes
  write_body body w =
      if ltb (length body) (2 ^ 32)
      then or_io (wr.write_all (to_be_bytes (length body)) w)
          (λ w₁. or_io (wr.write_all body w₁) (λ w₂. or_io (wr.flush w₂) (λ w₃. ok w₃)))
      else err (frame_too_large (length body))

  unfoldable pub write_signal : Signal F P → W → Result FrameError W
  unfolding encode write_body
  write_signal s w = elim (encode to_vec s) [ ok body ↦ write_body body w | err e ↦ err malformed ]
