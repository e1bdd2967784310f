-- ===== src/Rng.antt =====
-- runtime/ntl-core/src/rng.rs: the source of randomness as an interface, the default methods of the
-- trait, and SplitMix64. Draws are explicit state passing.
pub mod Below
use Prim.Native.Nat.{bit_xor}
use ntl.Base.{
  ℕ, zero, suc, ◌+◌, ◌-◌, ◌*◌, ◌/◌, ◌%◌, ◌^◌, ◌<◌, ◌≢◌, ◌≡◌, Bool, true, false, Option, none, some,
  List, [], ◌∷◌, take, drop, length, leb, if◌then◌else◌, nat_beq,
}
use ntl.Float.{Float}

-- `dyn Rng`: an implementation may override the default methods, so a client sees all three.
pub record Rng (R : Type 0) (F : Type 0) : Type 0 where
  pub next_u64 : R → ℕ × R
  pub next_f32 : R → F × R
  pub next_below : R → ℕ → Option ℕ × R

-- What the documentation of `next_below` promises: a value below the bound, unless that is zero.
abbrev pub Drawn : ℕ → Option ℕ → Type 0
Drawn n none = n ≡ 0
Drawn n (some k) = k < n

pub record IsFair {R : Type 0} {F : Type 0} (rng : Rng R F) : Type 0 where
  pub below : (r : R) (n : ℕ) → Drawn n (rng.next_below r n).0

module _ {R : Type 0} {F : Type 0} ⦃fl : Float F⦄ (next_u64 : R → ℕ × R) where
  -- The default `next_f32`: the top 24 bits, scaled.
  unfoldable pub next_f32 : R → F × R
  next_f32 r =
      let (x, r') = next_u64 r in (fl.div (fl.of_nat (x / 2 ^ 40)) (fl.of_nat 16777216), r')

module _ {R : Type 0} (next_u64 : R → ℕ × R) where
  -- The draws of Lemire's method below the rejection threshold are taken again. The loop of the
  -- source has no bound; `fuel` counts its rounds, and `none` inside is "still rejecting".
  unfoldable pub reject_loop : ℕ → ℕ → R → Option ℕ × R
  reject_loop zero n r = (none, r)
  reject_loop (suc fuel) n r =
      let (x, r') = next_u64 r in
      let rest = reject_loop fuel n r' in
      if leb ((2 ^ 64 - n) % 2 ^ 64 % n) (x * n % 2 ^ 64) then (some (x * n / 2 ^ 64), r') else rest

  -- The default `next_below`.
  unfoldable pub next_below : ℕ → R → ℕ → Option ℕ × R
  next_below fuel r n = if nat_beq n 0 then (none, r) else reject_loop fuel n r

abbrev pub wrapping_mul : ℕ → ℕ → ℕ
wrapping_mul a b = a * b % 2 ^ 64

-- `SplitMix64::next_u64`, on the state.
unfoldable pub splitmix_next : ℕ → ℕ × ℕ
splitmix_next s =
    let state = (s + 0x9E3779B97F4A7C15) % 2 ^ 64 in
    let y = wrapping_mul (bit_xor state (state / 2 ^ 30)) 0xBF58476D1CE4E5B9 in
    let z = wrapping_mul (bit_xor y (y / 2 ^ 27)) 0x94D049BB133111EB in
    (bit_xor z (z / 2 ^ 31), state)

-- `u64::from_le_bytes` over a chunk padded with zeros.
unfoldable pub from_le_bytes : List ℕ → ℕ
from_le_bytes [] = 0
from_le_bytes (b ∷ bs) = b + 256 * from_le_bytes bs

-- The loop of `SplitMix64::from_identity` over the chunks of eight bytes.
unfoldable pub mix_chunks : ℕ → ℕ → List ℕ → ℕ
unfolding from_le_bytes
mix_chunks zero state bytes = state
mix_chunks (suc fuel) state [] = state
mix_chunks (suc fuel) state (b ∷ bs) =
    mix_chunks fuel
      (wrapping_mul (bit_xor state (from_le_bytes (take 8 (b ∷ bs)))) 0x9E3779B97F4A7C15)
      (drop 8 (b ∷ bs))

-- `SplitMix64::from_identity`, its state.
unfoldable pub from_identity : List ℕ → ℕ → ℕ
unfolding mix_chunks
from_identity node_id now_ns = mix_chunks (length node_id) now_ns node_id
