-- ===== src/Audio/Iso226/Spline.antt =====
-- audio/Iso226.h: the natural cubic spline. Its arrays are lists of the sizes that the code gives
-- them; `n` is the number of knots, which is 29 in the code, and at least 2.
pub mod Segment
pub mod Knots
use phu_audio_lib.Base.{
  ℕ, zero, suc, ◌+◌, ◌-◌, ◌/◌, pos, ltb, Option, none, some, ◌>>=◌, for_below, List, get_or, set,
  replicate, if◌then◌else◌,
}
use phu_audio_lib.Double.{Double}
use phu_audio_lib.Analog.Elements.{nought, one, two}

module _ (d : Double) where
  abbrev pub three : d.Carrier
  three = d.lit (pos 3) 1

  -- An element of an array.
  abbrev pub at : List d.Carrier → ℕ → d.Carrier
  at xs i = get_or xs i (nought d)

  pub record Cubics : Type 0 where
    pub a : List d.Carrier
    pub b : List d.Carrier
    pub c : List d.Carrier
    pub d' : List d.Carrier

  -- The local arrays of `buildSpline`, with the four that it fills.
  pub record Build : Type 0 where
    pub h : List d.Carrier
    pub rhs : List d.Carrier
    pub diag : List d.Carrier
    pub mu : List d.Carrier
    pub z : List d.Carrier
    pub c_full : List d.Carrier
    pub spline : Cubics

  -- The three loops. `i` is the index in the code; the last one counts down.
  unfoldable pub widths : List d.Carrier → List d.Carrier → ℕ → Build → Build
  widths x y i s = record s {
    h = set s.h i (d.sub (at x (i + 1)) (at x i));
    spline = record s.spline { a = set s.spline.a i (at y i) };
  }

  unfoldable pub forward : List d.Carrier → List d.Carrier → ℕ → Build → Build
  forward x y i s =
      let rise = d.div (d.sub (at y (i + 1)) (at y i)) (at s.h i) in
      let rise' = d.div (d.sub (at y i) (at y (i - 1))) (at s.h (i - 1)) in
      let rhs = d.mul three (d.sub rise rise') in
      let diag =
        d.sub (d.mul (two d) (d.sub (at x (i + 1)) (at x (i - 1))))
          (d.mul (at s.h (i - 1)) (at s.mu (i - 1))) in
      record s {
        rhs = set s.rhs i rhs;
        diag = set s.diag i diag;
        mu = set s.mu i (d.div (at s.h i) diag);
        z = set s.z i (d.div (d.sub rhs (d.mul (at s.h (i - 1)) (at s.z (i - 1)))) diag);
      }

  unfoldable pub backward : List d.Carrier → ℕ → Build → Build
  backward y j s =
      let next = at s.c_full (j + 1) in
      let here = d.sub (at s.z j) (d.mul (at s.mu j) next) in
      let rise = d.div (d.sub (at y (j + 1)) (at y j)) (at s.h j) in
      record s {
        c_full = set s.c_full j here;
        spline = record s.spline {
          b =
              set s.spline.b j
                (d.sub rise (d.div (d.mul (at s.h j) (d.add next (d.mul (two d) here))) three));
          d' = set s.spline.d' j (d.div (d.sub next here) (d.mul three (at s.h j)));
          c = set s.spline.c j here;
        };
      }

  unfoldable pub start : ℕ → Cubics → Build
  start n spline = record {
    h = replicate 28 (nought d);
    rhs = replicate 29 (nought d);
    diag = replicate 29 (nought d);
    mu = replicate 28 (nought d);
    z = replicate 29 (nought d);
    c_full = replicate 29 (nought d);
    spline = spline;
  }

  unfoldable pub build_spline : List d.Carrier → List d.Carrier → ℕ → Cubics → Cubics
  unfolding widths forward backward start for_below
  build_spline x y n spline =
      let m = n - 1 in
      let measured = for_below m (widths x y) (start n spline) in
      let first = record measured {
        diag = set measured.diag 0 (one d);
        mu = set measured.mu 0 (nought d);
        z = set measured.z 0 (nought d);
      } in
      let swept = for_below (m - 1) (λ k. forward x y (k + 1)) first in
      let last = record swept {
        diag = set swept.diag m (one d);
        z = set swept.z m (nought d);
        c_full = set swept.c_full m (nought d);
      } in
      (for_below m (λ k. backward y (m - 1 - k)) last).spline

  -- The binary search, on fuel; `none` is that the fuel ran out.
  unfoldable pub find_segment : ℕ → List d.Carrier → d.Carrier → ℕ → ℕ → Option ℕ
  find_segment zero x xq lo hi = none
  find_segment (suc fuel) x xq lo hi =
      let mid = (lo + hi + 1) / 2 in
      let upper = find_segment fuel x xq mid hi in
      let lower = find_segment fuel x xq lo (mid - 1) in
      if ltb lo hi then if d.le (at x mid) xq then upper else lower else some lo

  -- The cubic of segment `i`.
  unfoldable pub cubic : List d.Carrier → Cubics → d.Carrier → ℕ → d.Carrier
  cubic x s xq i =
      let t = d.sub xq (at x i) in
      d.add (d.add (d.add (at s.a i) (d.mul (at s.b i) t)) (d.mul (at s.c i) (d.mul t t)))
        (d.mul (at s.d' i) (d.mul (d.mul t t) t))

  -- `n` rounds are enough for `n` knots.
  unfoldable pub eval_spline : List d.Carrier → Cubics → ℕ → d.Carrier → Option d.Carrier
  unfolding find_segment cubic
  eval_spline x s n xq =
      let search = find_segment n x xq 0 (n - 2) in
      if d.le xq (at x 0) then some (at s.a 0) else (search >>= λ i. some (cubic x s xq i))
