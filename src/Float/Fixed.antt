-- ===== src/Float/Fixed.antt =====
-- A concrete arithmetic that meets the laws: thousandths, as a difference of two naturals, with a NaN.
-- `exp` and `exp2` are coarse stand-ins; no law speaks of them.
use ntl.Base.{
  ℕ, ◌+◌, ◌-◌, ◌*◌, ◌/◌, ◌≤◌, ◌<◌, Bool, true, false, not, arith, leb, ltb, nat_beq, if◌then◌else◌,
}
use native.Mathlib.Nat.{
  le-div_iff_mul-le, div-le_of_le-mul, div-mul-le_self, le_of_mul-le-mul_right, mul-le-mul_left,
}
use ntl.Float.{Float, ◌≼◌}
use ntl.Float.Laws.{IsOrdered, HasLiterals, HasProducts}

pub data Fixed : Type 0 where
  nan : Fixed
  val : ℕ → ℕ → Fixed

abbrev on2 : (ℕ → ℕ → ℕ → ℕ → Fixed) → Fixed → Fixed → Fixed
on2 f nan y = nan
on2 f (val p n) nan = nan
on2 f (val p n) (val q m) = f p n q m

abbrev fixed_le : Fixed → Fixed → Bool
fixed_le nan y = false
fixed_le (val p n) nan = false
fixed_le (val p n) (val q m) = leb (p + m) (q + n)

abbrev fixed_lt : Fixed → Fixed → Bool
fixed_lt nan y = false
fixed_lt (val p n) nan = false
fixed_lt (val p n) (val q m) = ltb (p + m) (q + n)

abbrev fixed_neg : Fixed → Fixed
fixed_neg nan = nan
fixed_neg (val p n) = val n p

abbrev fixed_abs : Fixed → Fixed
fixed_abs nan = nan
fixed_abs (val p n) = if leb n p then val (p - n) 0 else val (n - p) 0

-- The product and the quotient by sign and size, rounded towards zero.
abbrev signed : Bool → ℕ → Fixed
signed true k = val k 0
signed false k = val 0 k

abbrev same : Bool → Bool → Bool
same true b = b
same false b = not b

abbrev size : ℕ → ℕ → ℕ
size p n = (p - n) + (n - p)

abbrev fixed_mul : Fixed → Fixed → Fixed
fixed_mul = on2 λ p n q m. signed (same (leb n p) (leb m q)) (size p n * size q m / 1000)

abbrev fixed_div : Fixed → Fixed → Fixed
fixed_div = on2 λ p n q m.
    if nat_beq (size q m) 0
    then nan
    else signed (same (leb n p) (leb m q)) (size p n * 1000 / size q m)

instance abbrev pub fixed_float : Float Fixed
fixed_float = record {
  lit = λ n d. val (1000 * n / d) 0;
  le = fixed_le;
  lt = fixed_lt;
  add = on2 λ p n q m. val (p + q) (n + m);
  sub = on2 λ p n q m. val (p + m) (n + q);
  mul = fixed_mul;
  div = fixed_div;
  neg = fixed_neg;
  abs = fixed_abs;
  exp = λ x. if fixed_le (val 0 0) x then val 2000 0 else val 500 0;
  exp2 = λ x. if fixed_le (val 0 0) x then val 2000 0 else val 500 0;
  of_nat = λ n. val (1000 * n) 0;
  of_ratio = λ n d. val (1000 * n / d) 0;
  epsilon = val 0 0;
  neg_infinity = val 0 1000000000;
  is_finite = λ x. fixed_le x x;
}

fixed_le_trans : (x y z : Fixed) → x ≼ y → y ≼ z → x ≼ z
fixed_le_trans nan y z h k = ground arith
fixed_le_trans (val p n) nan z h k = ground arith
fixed_le_trans (val p n) (val q m) nan h k = ground arith
fixed_le_trans (val p n) (val q m) (val r l) h k = ground arith

pub Fixed-IsOrdered : IsOrdered Fixed
Fixed-IsOrdered = record {
  refl_of_le = λ x y h. ground arith;
  le_trans = fixed_le_trans;
  le_total = λ x y h k. ground arith;
  lt-eq = λ x y. ground arith;
}

div_mono : (n d m e : ℕ) → 0 < d → 0 < e → n * e ≤ m * d → 1000 * n / d ≤ 1000 * m / e
div_mono n d m e p q h =
    (le-div_iff_mul-le {x = 1000 * n / d} {y = 1000 * m} q).1
      (le_of_mul-le-mul_right (times_d (div-mul-le_self (1000 * n) d)) p)
  where
    times_d : 1000 * n / d * d ≤ 1000 * n → 1000 * n / d * e * d ≤ 1000 * m * d
    times_d k = omega (arith, mul-le-mul_left e k, mul-le-mul_left 1000 h)

lit_pos_fixed : (n d : ℕ) → 0 < n → 0 < d → d ≤ 1000 → 0 < 1000 * n / d
lit_pos_fixed n d p q h = (le-div_iff_mul-le {x = 1} {y = 1000 * n} q).1 (omega arith)

pub Fixed-HasLiterals : HasLiterals Fixed
Fixed-HasLiterals = record {
  lit_mono = λ n d m e p q h. ground (arith, div_mono n d m e p q h);
  lit_pos = λ n d p q h. ground (arith, lit_pos_fixed n d p q h);
}

mul_below : (a b : ℕ) → a ≤ 1000 → b ≤ 1000 → a * b / 1000 ≤ a
mul_below a b h k = div-le_of_le-mul 1000 (grind arith)

fixed_mul_unit :
    (x y : Fixed)
    → val 0 0 ≼ x
    → x ≼ val 1000 0
    → val 0 0 ≼ y
    → y ≼ val 1000 0
    → (val 0 0 ≼ fixed_mul x y) × (fixed_mul x y ≼ x)
fixed_mul_unit nan y a b c d = ground arith
fixed_mul_unit (val p n) nan a b c d = ground arith
fixed_mul_unit (val p n) (val q m) a b c d = ground (arith, mul_below (p - n) (q - m))

pub Fixed-HasProducts : HasProducts Fixed
Fixed-HasProducts = record { mul_unit = fixed_mul_unit }
