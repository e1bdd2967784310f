-- ===== src/Float/Laws.antt =====
-- Laws of IEEE 754 arithmetic, for `f32`: order away from NaN, literals, and products in [0, 1].
use ntl.Base.{ℕ, ◌*◌, ◌≤◌, ◌<◌, ◌≡◌, ◌⊎◌, false, not, ◌&&◌, arith}
use ntl.Float.{Float, ◌≼◌, ◌≺◌, IsNum, fmin, fmax, clamp}

pub record IsOrdered (F : Type 0) ⦃fl : Float F⦄ : Type 0 where
  pub refl_of_le : (x y : F) → x ≼ y → IsNum x × IsNum y
  pub le_trans : (x y z : F) → x ≼ y → y ≼ z → x ≼ z
  pub le_total : (x y : F) → IsNum x → IsNum y → (x ≼ y) ⊎ (y ≼ x)
  pub lt-eq : (x y : F) → fl.lt x y ≡ (fl.le x x && fl.le y y && not (fl.le y x))

-- Rounding to nearest is monotone, and a literal that is not tiny does not round to zero.
pub record HasLiterals (F : Type 0) ⦃fl : Float F⦄ : Type 0 where
  pub lit_mono : (n d m e : ℕ) → 0 < d → 0 < e → n * e ≤ m * d → fl.lit n d ≼ fl.lit m e
  pub lit_pos : (n d : ℕ) → 0 < n → 0 < d → d ≤ 1000 → fl.lit 0 1 ≺ fl.lit n d

-- In [0, 1] a product lies between zero and its first factor.
pub record HasProducts (F : Type 0) ⦃fl : Float F⦄ : Type 0 where
  pub mul_unit :
      (x y : F)
      → fl.lit 0 1 ≼ x
      → x ≼ fl.lit 1 1
      → fl.lit 0 1 ≼ y
      → y ≼ fl.lit 1 1
      → (fl.lit 0 1 ≼ fl.mul x y) × (fl.mul x y ≼ x)

module _ {F : Type 0} ⦃fl : Float F⦄ (laws : IsOrdered F) where
  open laws use {refl_of_le, le_trans, le_total, lt-eq}

  pub le_of_lt : (x y : F) → x ≺ y → x ≼ y
  le_of_lt x y h = ground (arith, lt-eq x y, le_total x y)

  pub le_of_not_lt : (x y : F) → IsNum x → IsNum y → fl.lt x y ≡ false → y ≼ x
  le_of_not_lt x y p q h = ground (arith, lt-eq x y)

  pub lt_of_le : (x y : F) → x ≼ y → fl.lt y x ≡ false
  lt_of_le x y h = ground (arith, lt-eq y x)

  -- Two tests in a row agree with the order.
  pub lt_asymm : (x y : F) → x ≺ y → fl.lt y x ≡ false
  lt_asymm x y h = lt_of_le x y (le_of_lt x y h)

  pub fmin-le_right : (x m : F) → IsNum m → fmin x m ≼ m
  unfolding fmin
  fmin-le_right x m h = ground arith

  pub fmax-ge_right : (x m : F) → IsNum m → m ≼ fmax x m
  unfolding fmax
  fmax-ge_right x m h = ground (arith, le_total x m)

  pub clamp_bounds : (x lo hi : F) → IsNum x → lo ≼ hi → (lo ≼ clamp x lo hi) × (clamp x lo hi ≼ hi)
  unfolding clamp
  clamp_bounds x lo hi n h =
      ground (
        arith,
        refl_of_le lo hi h,
        lt-eq x lo,
        lt-eq hi x,
        lt-eq hi lo,
        le_total x lo,
        le_total x hi,
      )

  -- A number within the bounds is left as it is.
  pub clamp_within : (x lo hi : F) → lo ≼ x → x ≼ hi → clamp x lo hi ≡ x
  unfolding clamp
  clamp_within x lo hi p q = ground (arith, lt_of_le lo x p, lt_of_le x hi q)

  -- A number below the argument and below the upper bound is below the clamped value.
  pub clamp_floor : (m x lo hi : F) → m ≼ x → m ≼ hi → lo ≼ hi → m ≼ clamp x lo hi
  unfolding clamp
  clamp_floor m x lo hi p q h = ground (arith, le_trans m x lo p, le_of_lt x lo)
