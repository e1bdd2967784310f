-- ===== src/Float.antt =====
-- `f32`, as an interface: the comparisons and the arithmetic are the processor's. `min`, `max` and
-- `clamp` are written out from their documentation in Rust's standard library.
pub mod Laws
pub mod Fixed
use ntl.Base.{ℕ, ◌≡◌, Bool, true, false, not, if◌then◌else◌}

-- `lit n d` is the literal nearest to n / d, `of_nat` the cast `as f32`, and `of_ratio n d` the cast
-- to `f32` of a quotient taken in `f64`.
pub record Float (F : Type 0) : Type 0 where
  pub lit : ℕ → ℕ → F
  pub le : F → F → Bool
  pub lt : F → F → Bool
  pub add : F → F → F
  pub sub : F → F → F
  pub mul : F → F → F
  pub div : F → F → F
  pub neg : F → F
  pub abs : F → F
  pub exp : F → F
  pub exp2 : F → F
  pub of_nat : ℕ → F
  pub of_ratio : ℕ → ℕ → F
  -- `f32::EPSILON`, `f32::NEG_INFINITY` and `f32::is_finite`.
  pub epsilon : F
  pub neg_infinity : F
  pub is_finite : F → Bool

infix 4 ◌≼◌ ◌≺◌
abbrev pub ◌≼◌ : {F : Type 0} ⦃fl : Float F⦄ → F → F → Type 0
◌≼◌ ⦃fl⦄ x y = fl.le x y ≡ true

abbrev pub ◌≺◌ : {F : Type 0} ⦃fl : Float F⦄ → F → F → Type 0
◌≺◌ ⦃fl⦄ x y = fl.lt x y ≡ true

-- NaN is the one value that is not `<=` itself.
abbrev pub IsNum : {F : Type 0} ⦃fl : Float F⦄ → F → Type 0
IsNum x = x ≼ x

module _ {F : Type 0} ⦃fl : Float F⦄ where
  abbrev pub is_nan : F → Bool
  is_nan x = not (fl.le x x)

  -- A NaN argument of `min` and `max` is passed over.
  unfoldable pub fmin : F → F → F
  fmin x y = if is_nan x then y else if is_nan y then x else if fl.le x y then x else y

  unfoldable pub fmax : F → F → F
  fmax x y = if is_nan x then y else if is_nan y then x else if fl.le x y then y else x

  -- The source panics unless `lo <= hi`.
  unfoldable pub clamp : F → F → F → F
  clamp x lo hi = let y = if fl.lt x lo then lo else x in if fl.lt hi y then hi else y

  -- `(lo..=hi).contains(&x)`
  unfoldable pub in_closed : F → F → F → Bool
  in_closed lo hi x = if fl.le lo x then fl.le x hi else false
