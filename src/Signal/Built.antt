-- ===== src/Signal/Built.antt =====
-- What can be built with `SignalBuilder` of runtime/ntl-core/src/signal.rs.
use ntl.Base.{ℕ, ◌≡◌, ◌≢◌, arith, Bool, false, List, String, is_empty, nat_beq_iff, ok}
use ntl.Float.{Float, ◌≼◌, IsNum, in_closed}
use ntl.Float.Laws.{IsOrdered, HasLiterals, clamp_bounds}
use ntl.Delivery.{DeliveryClass, Receipt}
use ntl.Signal.{
  NodeId, SignalId, SignalType, PropagationScope, SignalBuilder, builder, receipt, with_weight,
  acknowledge, build_unsigned, validate,
}
use ntl.Signal.Builder.{
  with_payload, with_ttl, with_scope, with_correlation, with_tags, with_delivery,
}

module _ {F : Type 0} ⦃fl : Float F⦄ where
  abbrev InUnit : F → Type 0
  InUnit w = (fl.lit 0 1 ≼ w) × (w ≼ fl.lit 1 1)

  half-InUnit : HasLiterals F → InUnit (fl.lit 1 2)
  half-InUnit lits = (
    lits.lit_mono 0 1 1 2 (omega arith) (omega arith) (omega arith),
    lits.lit_mono 1 2 1 1 (omega arith) (omega arith) (omega arith),
  )

module _ {F P : Type 0} ⦃fl : Float F⦄ where
  -- The builders that a caller can reach, by any sequence of the setters.
  pub data Built : SignalBuilder F P → Type 0 where
    started : (t : SignalType) (topic : String) (null : P) → Built (builder t topic null)
    answered : (body : P) (r : Receipt) (origin : NodeId) → Built (receipt body r origin)
    payload : (p : P) {b : SignalBuilder F P} → Built b → Built (with_payload p b)
    weight : (w : F) {b : SignalBuilder F P} → IsNum w → Built b → Built (with_weight w b)
    ttl : (n : ℕ) {b : SignalBuilder F P} → Built b → Built (with_ttl n b)
    scope : (s : PropagationScope F) {b : SignalBuilder F P} → Built b → Built (with_scope s b)
    correlation : (id : SignalId) {b : SignalBuilder F P} → Built b → Built (with_correlation id b)
    tags : (ts : List String) {b : SignalBuilder F P} → Built b → Built (with_tags ts b)
    delivery : (c : DeliveryClass) {b : SignalBuilder F P} → Built b → Built (with_delivery c b)
    acked : {b : SignalBuilder F P} → Built b → Built (acknowledge b)

  acknowledge-weight : (b : SignalBuilder F P) → (acknowledge b).weight ≡ b.weight
  unfolding acknowledge
  acknowledge-weight b = ground arith

  module _ (laws : IsOrdered F) (lits : HasLiterals F) where
    Built-InUnit : {b : SignalBuilder F P} → Built b → InUnit b.weight
    unfolding builder receipt with_weight with_payload with_ttl with_scope with_correlation
        with_tags with_delivery
    Built-InUnit (started t topic null) = half-InUnit lits
    Built-InUnit (answered body r origin) = half-InUnit lits
    Built-InUnit (payload p d) = Built-InUnit d
    Built-InUnit (weight w n d) =
        clamp_bounds laws w (fl.lit 0 1) (fl.lit 1 1) n
          (lits.lit_mono 0 1 1 1 (omega arith) (omega arith) (omega arith))
    Built-InUnit (ttl n d) = Built-InUnit d
    Built-InUnit (scope s d) = Built-InUnit d
    Built-InUnit (correlation id d) = Built-InUnit d
    Built-InUnit (tags ts d) = Built-InUnit d
    Built-InUnit (delivery c d) = Built-InUnit d
    Built-InUnit (acked {b} d) = rw (acknowledge-weight b) (Built-InUnit d)

    -- A signal that was made with the builder is valid once it is signed, whatever setters it went through and
    -- in whatever order: the weights given are numbers, and the time to live that it ends with is not zero.
    pub build_unsigned-validate :
        {b : SignalBuilder F P} (empty : String → Bool) (origin : NodeId) (now_ns : ℕ)
        (id : SignalId) (signature : List ℕ)
        → Built b
        → b.ttl ≢ 0
        → is_empty signature ≡ false
        → validate (record (build_unsigned b empty origin now_ns id) { signature = signature })
          ≡ ok tt
    unfolding build_unsigned validate in_closed
    build_unsigned-validate {b} empty origin now_ns id signature d live signed =
        let (low, high) = Built-InUnit d in ground (arith, low, high, nat_beq_iff b.ttl 0)
