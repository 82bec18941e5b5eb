-- ===== src/Double/Integers.antt =====
-- Integers in the place of the doubles: a concrete choice of the parameter `Double` for the tests.
-- The operations that leave the integers are rounded towards 0, or the identity; 0 stands for the NaN.
use phu_audio_lib.Base.{
  ℤ, pos, magnitude, ◌+ℤ◌, ◌-ℤ◌, ◌*ℤ◌, ltb_ℤ, leb_ℤ, eqb_ℤ, quot, rem, true, if◌then◌else◌,
}
use phu_audio_lib.Double.{Double}

abbrev pub integers : Double
integers = record {
  Carrier = ℤ;
  lit = λ n d. quot n (pos d);
  of_int = λ n. n;
  to_int = λ x. x;
  add = ◌+ℤ◌;
  sub = ◌-ℤ◌;
  mul = ◌*ℤ◌;
  div = quot;
  neg = λ x. pos 0 -ℤ x;
  lt = ltb_ℤ;
  le = leb_ℤ;
  eq = eqb_ℤ;
  is_finite = λ x. true;
  fmod = rem;
  ceil = λ x. x;
  abs = λ x. pos (magnitude x);
  sqrt = λ x. x;
  sin = λ x. x;
  cos = λ x. x;
  exp = λ x. x;
  log1p = λ x. x;
  log10 = λ x. x;
  quiet_nan = pos 0;
  tan = λ x. x;
  tanh = λ x. x;
  pow = λ x y. x;
  copysign = λ x y. if ltb_ℤ y (pos 0) then pos 0 -ℤ pos (magnitude x) else pos (magnitude x);
  to_float = λ x. x;
}
