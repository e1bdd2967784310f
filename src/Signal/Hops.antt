-- ===== src/Signal/Hops.antt =====
-- Hops, attenuation and the wire form of types in runtime/ntl-core/src/signal.rs.
use ntl.Base.{
  ◌+◌, ◌-◌, ◌≤◌, ◌<◌, ◌≡◌, refl, ◌⊎◌, inl, inr, Bool, true, ◌&&◌, ltb, none, some, List, [], ◌∷◌,
  ◌++◌, arith, length, length-append, min, bytes_beq, bytes_beq_iff, any, if◌then◌else◌,
}
use ntl.Float.{Float, ◌≼◌, IsNum, fmax}
use ntl.Float.Laws.{IsOrdered, HasLiterals, clamp_bounds, clamp_floor, fmax-ge_right}
use ntl.Signal.{
  NodeId, SignalType, data_signal, query, event, command, heartbeat, discovery, receipt_signal,
  custom, to_type_byte, from_type_byte, Signal, hop, has_visited, max_trace, attenuate_for_hop,
  signal_requires_receipt,
}

-- Whether a type has a byte of its own.
abbrev pub IsBuiltin : SignalType → Type 0
IsBuiltin (custom name) = ⊥
IsBuiltin t = Unit

-- Every type but the application-defined ones survives the round trip through its byte; for those the
-- decoder answers nothing.
pub from_type_byte-to_type_byte :
    (t : SignalType)
    → (IsBuiltin t × (from_type_byte (to_type_byte t) ≡ some t))
      ⊎ ((from_type_byte (to_type_byte t) ≡ none) × (to_type_byte t ≡ 15))
unfolding from_type_byte to_type_byte
from_type_byte-to_type_byte data_signal = inl (tt, refl)
from_type_byte-to_type_byte query = inl (tt, refl)
from_type_byte-to_type_byte event = inl (tt, refl)
from_type_byte-to_type_byte command = inl (tt, refl)
from_type_byte-to_type_byte heartbeat = inl (tt, refl)
from_type_byte-to_type_byte discovery = inl (tt, refl)
from_type_byte-to_type_byte receipt_signal = inl (tt, refl)
from_type_byte-to_type_byte (custom name) = inr (refl, refl)

any-append :
    (p : NodeId → Bool) (xs : List NodeId) (x : NodeId) → p x ≡ true → any p (xs ++ x ∷ []) ≡ true
any-append p [] x h = ground arith
any-append p (y ∷ ys) x h = ground (arith, any-append p ys x h)

module _ {F P : Type 0} where
  hop_trace :
      (n : NodeId) (s : Signal F P)
      → length s.trace ≤ max_trace
      → length (hop n s).trace ≡ min (length s.trace + 1) max_trace
  unfolding hop
  hop_trace n s h = ground (arith, length-append s.trace (n ∷ []))

  hop_ttl : (n : NodeId) (s : Signal F P) → (hop n s).ttl ≡ s.ttl - 1
  unfolding hop
  hop_ttl n s = refl

  -- A signal carried along a path of nodes.
  unfoldable pub hops : List NodeId → Signal F P → Signal F P
  hops [] s = s
  hops (n ∷ ns) s = hops ns (hop n s)

  -- Each hop takes one from the time to live, until none is left, and leaves a trace entry up to the
  -- limit of 64: after a path of n hops the time to live is less by n, and a trace that was within
  -- the limit has n more entries or is full.
  pub hops_lem :
      (ns : List NodeId) (s : Signal F P)
      → length s.trace ≤ max_trace
      → ((hops ns s).ttl ≡ s.ttl - length ns)
        × (length (hops ns s).trace ≡ min (length s.trace + length ns) max_trace)
  unfolding hops
  hops_lem [] s h = omega arith
  hops_lem (n ∷ ns) s h =
      omega (
        arith,
        hop_trace n s h,
        hop_ttl n s,
        hops_lem ns (hop n s) (omega (arith, hop_trace n s h)),
      )

  -- A node that forwards a signal whose trace is not full is recognised when the signal comes back.
  pub has_visited-hop :
      (n : NodeId) (s : Signal F P) → length s.trace < max_trace → has_visited (hop n s) n ≡ true
  unfolding has_visited hop
  has_visited-hop n s h =
      ground (arith, any-append (λ m. bytes_beq m n) s.trace n ((bytes_beq_iff n n).1 refl))

module _ {F P : Type 0} ⦃fl : Float F⦄ (laws : IsOrdered F) (lits : HasLiterals F) where
  -- The weight before it is clamped to [0, 1].
  carried : F → F → Signal F P → F
  carried factor floor s =
      let product = fl.mul s.weight factor in
      if signal_requires_receipt s && ltb 0 s.ttl then fmax product floor else product

  carried-IsNum :
      (factor floor : F) (s : Signal F P)
      → IsNum (fl.mul s.weight factor)
      → IsNum floor
      → IsNum (carried factor floor s)
  unfolding carried fmax
  carried-IsNum factor floor s n m = ground arith

  carried-ge :
      (factor floor : F) (s : Signal F P)
      → IsNum floor
      → signal_requires_receipt s ≡ true
      → 0 < s.ttl
      → floor ≼ carried factor floor s
  unfolding carried
  carried-ge factor floor s m r t =
      ground (arith, fmax-ge_right laws (fl.mul s.weight factor) floor m)

  -- Attenuation for a hop keeps the weight in [0, 1]; and for an acknowledged signal with time to live
  -- left it keeps it at or above the floor, so that the signal is not rejected for its weight at the
  -- next node that has the same floor. The product is a number and the floor lies in [0, 1].
  pub attenuate_for_hop_bounds :
      (factor floor : F) (s : Signal F P)
      → IsNum (fl.mul s.weight factor)
      → fl.lit 0 1 ≼ floor
      → floor ≼ fl.lit 1 1
      → let s' = attenuate_for_hop factor floor s in
        (fl.lit 0 1 ≼ s'.weight)
        × (s'.weight ≼ fl.lit 1 1)
        × (signal_requires_receipt s ≡ true → 0 < s.ttl → floor ≼ s'.weight)
  unfolding attenuate_for_hop carried
  attenuate_for_hop_bounds factor floor s n lo hi =
      let unit = lits.lit_mono 0 1 1 1 (omega arith) (omega arith) (omega arith) in
      let m = (laws.refl_of_le floor (fl.lit 1 1) hi).0 in
      let (low, high) =
        clamp_bounds laws (carried factor floor s) (fl.lit 0 1) (fl.lit 1 1)
          (carried-IsNum factor floor s n m) unit in
      (
        low,
        high,
        λ r t.
            clamp_floor laws floor (carried factor floor s) (fl.lit 0 1) (fl.lit 1 1)
              (carried-ge factor floor s m r t) hi unit,
      )
