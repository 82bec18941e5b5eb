-- ===== src/Double/Nan.antt =====
-- What IEEE 754 says of a NaN, and the numbers of a `Double` with a NaN added, where it holds.
use phu_audio_lib.Base.{ℤ, ◌≡◌, refl, Bool, false, Option, none, some}
use phu_audio_lib.Double.{Double}

-- The laws that a theorem about NaN may take as a hypothesis.
pub record NanLaws (d : Double) (IsNan : d.Carrier → Type 0) : Type 0 where
  pub add_left : (x y : d.Carrier) → IsNan x → IsNan (d.add x y)
  pub add_right : (x y : d.Carrier) → IsNan y → IsNan (d.add x y)
  pub sub_right : (x y : d.Carrier) → IsNan y → IsNan (d.sub x y)
  pub mul_left : (x y : d.Carrier) → IsNan x → IsNan (d.mul x y)
  pub sqrt_nan : (x : d.Carrier) → IsNan x → IsNan (d.sqrt x)
  pub abs_nan : (x : d.Carrier) → IsNan x → IsNan (d.abs x)
  pub lt_left : (x y : d.Carrier) → IsNan x → d.lt x y ≡ false
  pub lt_right : (x y : d.Carrier) → IsNan y → d.lt x y ≡ false

abbrev lift1 {ℓ} : {A : Type ℓ} → (A → A) → Option A → Option A
lift1 f none = none
lift1 f (some x) = some (f x)

abbrev lift2 {ℓ} : {A : Type ℓ} → (A → A → A) → Option A → Option A → Option A
lift2 f none y = none
lift2 f (some x) none = none
lift2 f (some x) (some y) = some (f x y)

abbrev test2 {ℓ} : {A : Type ℓ} → (A → A → Bool) → Option A → Option A → Bool
test2 f none y = false
test2 f (some x) none = false
test2 f (some x) (some y) = f x y

abbrev test1 {ℓ} : {A : Type ℓ} → (A → Bool) → Option A → Bool
test1 f none = false
test1 f (some x) = f x

-- A NaN cannot be converted; here it gives what the caller chose.
abbrev int_or {ℓ} : {A : Type ℓ} → (A → ℤ) → ℤ → Option A → ℤ
int_or f n none = n
int_or f n (some x) = f x

abbrev pub with_nan : Double → Double
with_nan d = record {
  Carrier = Option d.Carrier;
  lit = λ n k. some (d.lit n k);
  of_int = λ n. some (d.of_int n);
  to_int = int_or d.to_int (d.to_int (d.of_int (ℤ.pos 0)));
  add = lift2 d.add;
  sub = lift2 d.sub;
  mul = lift2 d.mul;
  div = lift2 d.div;
  neg = lift1 d.neg;
  lt = test2 d.lt;
  le = test2 d.le;
  eq = test2 d.eq;
  is_finite = test1 d.is_finite;
  fmod = lift2 d.fmod;
  ceil = lift1 d.ceil;
  abs = lift1 d.abs;
  sqrt = lift1 d.sqrt;
  sin = lift1 d.sin;
  cos = lift1 d.cos;
  exp = lift1 d.exp;
  log1p = lift1 d.log1p;
  log10 = lift1 d.log10;
  quiet_nan = none;
  tan = lift1 d.tan;
  tanh = lift1 d.tanh;
  pow = lift2 d.pow;
  copysign = lift2 d.copysign;
  to_float = lift1 d.to_float;
}

lift2-none {ℓ} : {A : Type ℓ} (f : A → A → A) (x y : Option A) → y ≡ none → lift2 f x y ≡ none
lift2-none f none y h = refl
lift2-none f (some x) y h = rw h

test2-none {ℓ} : {A : Type ℓ} (f : A → A → Bool) (x y : Option A) → y ≡ none → test2 f x y ≡ false
test2-none f none y h = refl
test2-none f (some x) y h = rw h

pub with_nan-NanLaws : (d : Double) → NanLaws (with_nan d) (λ x. x ≡ none)
with_nan-NanLaws d = record {
  add_left = λ x y h. rw h;
  add_right = λ x y h. lift2-none d.add x y h;
  sub_right = λ x y h. lift2-none d.sub x y h;
  mul_left = λ x y h. rw h;
  sqrt_nan = λ x h. rw h;
  abs_nan = λ x h. rw h;
  lt_left = λ x y h. rw h;
  lt_right = λ x y h. test2-none d.lt x y h;
}
