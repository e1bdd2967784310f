-- ===== src/Activation/Config.antt =====
-- The configuration of the gate in runtime/ntl-core/src/activation.rs: defaults for each class of node, their
-- validation, and a gate built from one.
use ntl.Base.{
  ℕ, ◌*◌, ◌≤◌, ◌<◌, ◌≡◌, sym, subst, true, false, not, ◌&&◌, ltb, nat_beq, arith, Result, ok,
  reject_if, [],
}
use ntl.Float.{Float, ◌≼◌, IsNum, in_closed}
use ntl.Float.Laws.{IsOrdered, HasLiterals, lt_of_le, le_of_not_lt}
use ntl.Activation.{
  NodeClass, edge, standard, server, infrastructure, ActivationConfig, step, drop_lowest_weight,
  new, ActivationState, evaluate,
}
use ntl.Activation.Admit.{IsValid}
use ntl.Rng.{Rng}

pub data ConfigError : Type 0 where
  bad_fire_batch_size bad_max_queue_depth bad_base_threshold bad_max_potential bad_leak_rate
        bad_max_queue_latency :
      ConfigError

module _ {F : Type 0} ⦃fl : Float F⦄ where
  class_row : NodeClass → ℕ × ℕ × ℕ × F × ℕ
  class_row edge = (10, 8, 256, fl.lit 10 1, 1000)
  class_row standard = (1, 16, 1024, fl.lit 10 1, 500)
  class_row server = (0, 64, 8192, fl.lit 50 1, 250)
  class_row infrastructure = (0, 128, 32768, fl.lit 100 1, 100)

  unfoldable pub for_class : NodeClass → ActivationConfig F
  unfolding class_row
  for_class class =
      let (refractory_ms, batch, depth, max_potential, latency_guard_ms) = class_row class in
      record {
        node_class = class;
        base_threshold = fl.lit 1 2;
        activation_function = step;
        refractory_period_ms = refractory_ms;
        max_potential = max_potential;
        dynamic_threshold = true;
        fire_batch_size = batch;
        max_queue_depth = depth;
        overflow_policy = drop_lowest_weight;
        leak_rate = fl.lit 1 100;
        max_queue_latency_ms = latency_guard_ms;
      }

  unfoldable pub validate : ActivationConfig F → Result ConfigError (Unit {0})
  unfolding in_closed
  validate c = reject_if (nat_beq c.fire_batch_size 0) bad_fire_batch_size (
      reject_if (nat_beq c.max_queue_depth 0) bad_max_queue_depth (
        reject_if (fl.le c.base_threshold (fl.lit 0 1)) bad_base_threshold (
          reject_if (fl.lt c.max_potential c.base_threshold) bad_max_potential (
            reject_if (not (in_closed (fl.lit 0 1) (fl.lit 1 1) c.leak_rate)) bad_leak_rate (
              reject_if
                (ltb 0 c.max_queue_latency_ms && ltb c.max_queue_latency_ms c.refractory_period_ms)
                bad_max_queue_latency (ok tt))))))

module _ {F : Type 0} ⦃fl : Float F⦄ (laws : IsOrdered F) (lits : HasLiterals F) where
  open lits use {lit_mono, lit_pos}

  positive-not-le : (n d : ℕ) → 0 < n → 0 < d → d ≤ 1000 → fl.le (fl.lit n d) (fl.lit 0 1) ≡ false
  positive-not-le n d p q r =
      ground (arith, laws.lt-eq (fl.lit 0 1) (fl.lit n d), lit_pos n d p q r)

  lit-not-lt :
      (n d m e : ℕ) → 0 < d → 0 < e → n * e ≤ m * d → fl.lt (fl.lit m e) (fl.lit n d) ≡ false
  lit-not-lt n d m e p q h = lt_of_le laws (fl.lit n d) (fl.lit m e) (lit_mono n d m e p q h)

  -- The floating-point checks at the defaults, for a ceiling of potential that is a whole number.
  record Defaults (m : ℕ) : Type 0 where
    positive : fl.le (fl.lit 1 2) (fl.lit 0 1) ≡ false
    reached : fl.lt (fl.lit m 1) (fl.lit 1 2) ≡ false
    leak_low : fl.lit 0 1 ≼ fl.lit 1 100
    leak_high : fl.lit 1 100 ≼ fl.lit 1 1

  defaults : (m : ℕ) → 0 < m → Defaults m
  defaults m h = record {
    positive = positive-not-le 1 2 (omega arith) (omega arith) (omega arith);
    reached = lit-not-lt 1 2 m 1 (omega arith) (omega arith) (omega arith);
    leak_low = lit_mono 0 1 1 100 (omega arith) (omega arith) (omega arith);
    leak_high = lit_mono 1 100 1 1 (omega arith) (omega arith) (omega arith);
  }

  -- The defaults of every class of node pass the validation.
  pub validate-for_class : (class : NodeClass) → validate {F = F} (for_class class) ≡ ok tt
  unfolding validate for_class
  validate-for_class edge = let d = defaults 10 (omega arith) in ground arith
  validate-for_class standard = let d = defaults 10 (omega arith) in ground arith
  validate-for_class server = let d = defaults 50 (omega arith) in ground arith
  validate-for_class infrastructure = let d = defaults 100 (omega arith) in ground arith

  -- A gate built from a configuration that passes the validation satisfies the gate's invariant, with
  -- an empty queue and the configured bounds, if the two thresholds are numbers.
  pub new-IsValid :
      (c : ActivationConfig F)
      → validate c ≡ ok tt
      → IsNum c.base_threshold
      → IsNum c.max_potential
      → IsValid (new c)
        × ((new c).queue ≡ [])
        × ((new c).fire_batch_size ≡ c.fire_batch_size)
        × ((new c).max_queue_depth ≡ c.max_queue_depth)
  unfolding validate new
  new-IsValid c h p q =
      let zero_num = lit_mono 0 1 0 1 (omega arith) (omega arith) (omega arith) in
      ground (
        arith,
        laws.le_total c.base_threshold (fl.lit 0 1),
        le_of_not_lt laws c.max_potential c.base_threshold q p,
        laws.le_trans (fl.lit 0 1) c.base_threshold c.max_potential,
      )

module _ {F : Type 0} ⦃fl : Float F⦄ (laws : IsOrdered F) {R : Type 0} (rng : Rng R F) where
  nan_evaluate :
      (g : ActivationState F) (r : R)
      → g.function ≡ step
      → fl.le g.threshold g.threshold ≡ false
      → (evaluate rng g r).0 ≡ false
  unfolding evaluate
  nan_evaluate g r f t = ground (arith, laws.refl_of_le g.threshold g.potential)

  -- The validation lets a threshold through that is NaN: a valid configuration stays valid when its
  -- base threshold is replaced by NaN. A gate with the step function and that threshold never fires by
  -- its potential.
  pub validate_nan :
      (c : ActivationConfig F) (nan : F)
      → validate c ≡ ok tt
      → fl.le nan nan ≡ false
      → (validate (record c { base_threshold = nan }) ≡ ok tt)
        × ((g : ActivationState F) (r : R)
            → g.function ≡ step
            → g.threshold ≡ nan
            → (evaluate rng g r).0 ≡ false)
  unfolding validate
  validate_nan c nan h e = (
    ground (arith, laws.refl_of_le nan (fl.lit 0 1), laws.lt-eq c.max_potential nan),
    λ g r f t. nan_evaluate g r f (subst (λ x. fl.le x x ≡ false) (sym t) e),
  )
