-- ===== src/Float.antt =====
-- The `f64` operations that the server uses. The model has no floats: the type and its operations
-- are a parameter, and `F64Laws` says what the proofs rely on.
use geomqtt.Base.{ℕ, ℤ, ◌-◌, ◌^◌, ◌≤◌, Bool, Option, ◌≡◌, ◌⊎◌, Text}

pub record F64 : Type 1 where
  pub F : Type 0
  -- a literal, `mantissa / 10 ^ places`
  pub decimal : ℕ → ℕ → F
  -- `u32 as f64`
  pub of_u32 : ℕ → F
  -- `i64 as f64`
  pub of_i64 : ℤ → F
  -- `2f64.powi(z)`
  pub powi2 : ℕ → F
  -- `x.powi(2)`
  pub square : F → F
  pub add : F → F → F
  pub sub : F → F → F
  pub mul : F → F → F
  pub div : F → F → F
  pub neg : F → F
  pub floor : F → F
  -- `x.clamp(lo, hi)`
  pub clamp : F → F → F → F
  -- `x as u32`, saturating, with 0 for what is no number
  pub as_u32 : F → ℕ
  pub pi : F
  pub to_radians : F → F
  pub to_degrees : F → F
  pub sin : F → F
  pub cos : F → F
  pub tan : F → F
  pub asin : F → F
  pub atan : F → F
  pub sinh : F → F
  pub ln : F → F
  pub sqrt : F → F
  pub is_finite : F → Bool
  -- `{}` and `parse::<f64>()`
  pub show_f64 : F → Text
  pub parse_f64 : Text → Option F

-- What the standard library says of `clamp`, of `as` and of whole numbers that are exact: a clamped
-- number is no number or lies in the range, a cut keeps the order and makes 0 of what is no
-- number, and `2 ^ z - 1` is exact as long as it fits a `u32`.
pub record F64Laws (f : F64) : Type 1 where
  pub Le : f.F → f.F → Type 0
  pub IsNan : f.F → Type 0
  pub clamp_range :
      (x lo hi : f.F)
      → Le lo hi
      → IsNan (f.clamp x lo hi) ⊎ (Le lo (f.clamp x lo hi) × Le (f.clamp x lo hi) hi)
  pub as_u32_mono : (x y : f.F) → Le x y → f.as_u32 x ≤ f.as_u32 y
  pub as_u32_nan : (x : f.F) → IsNan x → f.as_u32 x ≡ 0
  pub zero-le-powi2 : (z : ℕ) → Le (f.decimal 0 0) (f.sub (f.powi2 z) (f.decimal 1 0))
  pub as_u32-powi2 : (z : ℕ) → z ≤ 32 → f.as_u32 (f.sub (f.powi2 z) (f.decimal 1 0)) ≡ 2 ^ z - 1
