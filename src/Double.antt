-- ===== src/Double.antt =====
-- Floating-point numbers, which the language and not the repository implements: a type with the
-- operations of <cmath> and of the built-in arithmetic that the code uses. No law is assumed; a
-- theorem that needs one takes it as a hypothesis.
pub mod Integers
pub mod Nan
use phu_audio_lib.Base.{ℕ, ℤ, Bool}

pub record Double : Type 1 where
  pub Carrier : Type 0
  -- The number nearest to the decimal literal `n / d`.
  pub lit : ℤ → ℕ → Carrier
  -- `static_cast<double>(n)` and `static_cast<int>(x)`.
  pub of_int : ℤ → Carrier
  pub to_int : Carrier → ℤ
  pub add : Carrier → Carrier → Carrier
  pub sub : Carrier → Carrier → Carrier
  pub mul : Carrier → Carrier → Carrier
  pub div : Carrier → Carrier → Carrier
  pub neg : Carrier → Carrier
  -- `a < b`, `a <= b` and `a == b`, each false at a NaN.
  pub lt : Carrier → Carrier → Bool
  pub le : Carrier → Carrier → Bool
  pub eq : Carrier → Carrier → Bool
  pub is_finite : Carrier → Bool
  pub fmod : Carrier → Carrier → Carrier
  pub ceil : Carrier → Carrier
  pub abs : Carrier → Carrier
  pub sqrt : Carrier → Carrier
  pub sin : Carrier → Carrier
  pub cos : Carrier → Carrier
  pub exp : Carrier → Carrier
  pub log1p : Carrier → Carrier
  pub log10 : Carrier → Carrier
  -- `std::numeric_limits<double>::quiet_NaN()`.
  pub quiet_nan : Carrier
  pub tan : Carrier → Carrier
  pub tanh : Carrier → Carrier
  pub pow : Carrier → Carrier → Carrier
  pub copysign : Carrier → Carrier → Carrier
  -- The nearest `float`.
  pub to_float : Carrier → Carrier
