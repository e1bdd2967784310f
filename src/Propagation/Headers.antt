-- ===== src/Propagation/Headers.antt =====
-- `check_propagable` and `clamp_inbound_headers` of runtime/ntl-core/src/propagation.rs.
use ntl.Base.{◌≤◌, ◌<◌, ◌≡◌, refl, ◌↔◌, false, arith, ok, min, ltb, ◌||◌, if◌then◌else◌}
use ntl.Float.{Float, ◌≼◌, IsNum, clamp}
use ntl.Float.Laws.{IsOrdered, HasLiterals, clamp_bounds, le_of_not_lt, lt_of_le}
use ntl.Signal.{NodeId, Signal, has_visited}
use ntl.Propagation.{PropagationConfig, check_propagable, clamp_inbound_headers}

module _ {F P : Type 0} ⦃fl : Float F⦄ where
  -- A signal may go on exactly when it has time to live left, has not been here, and its weight is not
  -- below the minimum. A weight that is not a number counts as not below.
  pub check_propagable-ok :
      (signal : Signal F P) (local_node : NodeId) (c : PropagationConfig F)
      → (check_propagable signal local_node c ≡ ok tt) ↔ (
          (0 < signal.ttl)
          × (has_visited signal local_node ≡ false)
          × (fl.lt signal.weight c.min_propagation_weight ≡ false))
  unfolding check_propagable
  check_propagable-ok signal local_node c = ground arith

module _ {F P : Type 0} ⦃fl : Float F⦄ (laws : IsOrdered F) (lits : HasLiterals F) where
  -- What needed no correction is left alone: a signal whose weight is in [0, 1] and whose time to live is
  -- accepted comes through unchanged and unreported.
  pub clamp_inbound_headers_within :
      (signal : Signal F P) (c : PropagationConfig F)
      → fl.lit 0 1 ≼ signal.weight
      → signal.weight ≼ fl.lit 1 1
      → signal.ttl ≤ c.max_accepted_ttl
      → clamp_inbound_headers signal c
        ≡ (record { weight_clamped = false; ttl_clamped = false }, signal)
  unfolding clamp_inbound_headers
  clamp_inbound_headers_within signal c p q h =
      rw
        (
          lt_of_le laws (fl.lit 0 1) signal.weight p,
          lt_of_le laws signal.weight (fl.lit 1 1) q,
          unlong,
        )
        refl
    where
      unlong : ltb c.max_accepted_ttl signal.ttl ≡ false
      unlong = ground arith

  kept_weight :
      (signal : Signal F P)
      → IsNum signal.weight
      → let w =
          if fl.lt signal.weight (fl.lit 0 1) || fl.lt (fl.lit 1 1) signal.weight
          then clamp signal.weight (fl.lit 0 1) (fl.lit 1 1)
          else signal.weight in
        (fl.lit 0 1 ≼ w) × (w ≼ fl.lit 1 1)
  kept_weight signal n =
      let unit = lits.lit_mono 0 1 1 1 (omega arith) (omega arith) (omega arith) in
      ground (
        arith,
        laws.refl_of_le (fl.lit 0 1) (fl.lit 1 1) unit,
        clamp_bounds laws signal.weight (fl.lit 0 1) (fl.lit 1 1) n unit,
        le_of_not_lt laws signal.weight (fl.lit 0 1),
        le_of_not_lt laws (fl.lit 1 1) signal.weight,
      )

  -- Whatever weight and time to live a peer wrote, after clamping the weight is in [0, 1] and the time to
  -- live is the smaller of what it wrote and what this node accepts. A second clamp corrects nothing.
  -- The weight is a number.
  pub clamp_inbound_headers_bounds :
      (signal : Signal F P) (c : PropagationConfig F)
      → IsNum signal.weight
      → let s = (clamp_inbound_headers signal c).1 in
        (fl.lit 0 1 ≼ s.weight)
        × (s.weight ≼ fl.lit 1 1)
        × (s.ttl ≡ min signal.ttl c.max_accepted_ttl)
        × (clamp_inbound_headers s c ≡ (record { weight_clamped = false; ttl_clamped = false }, s))
  unfolding clamp_inbound_headers
  clamp_inbound_headers_bounds signal c n =
      let (low, high) = kept_weight signal n in
      (
        low,
        high,
        ground arith,
        clamp_inbound_headers_within (clamp_inbound_headers signal c).1 c low high (ground arith),
      )
