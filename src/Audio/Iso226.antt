-- ===== src/Audio/Iso226.antt =====
-- audio/Iso226.h: equal-loudness contours. A span or an array is a list. The assertions on the
-- sizes, which a release build drops, are hypotheses of the theorems; the size of the FFT is not
-- negative. Each function returns the number of values with what the span then holds.
mod Tables
pub mod Spline
pub mod Contour
mod Tests
use phu_audio_lib.Base.{
  ℕ, suc, ◌+◌, ◌-◌, ◌/◌, pos, Option, some, ◌>>=◌, for_below, for_m, List, get_or, set, length, map,
  replicate, if◌then◌else◌,
}
use phu_audio_lib.Double.{Double}
use phu_audio_lib.Analog.Elements.{nought, two}
use phu_audio_lib.Audio.Iso226.Tables.{num_freqs, freq_data, af_data, lu_data, tf_data}
use phu_audio_lib.Audio.Iso226.Spline.{Cubics, three, at, build_spline, eval_spline}

module _ (d : Double) where
  abbrev ten : d.Carrier
  ten = d.lit (pos 10) 1

  -- The level at the `i`th reference frequency, for the first term of the formula.
  unfoldable pub level_at :
      d.Carrier → List d.Carrier → List d.Carrier → List d.Carrier → ℕ → d.Carrier
  level_at t1 af lu tf i =
      let exponent = d.sub (d.div (d.add (at d tf i) (at d lu i)) ten) (d.lit (pos 9) 1) in
      let base = d.mul (d.lit (pos 4) 10) (d.pow ten exponent) in
      let af_term = d.add t1 (d.pow base (at d af i)) in
      d.add (d.sub (d.mul (d.div ten (at d af i)) (d.log10 af_term)) (at d lu i)) (d.lit (pos 94) 1)

  unfoldable pub compute_contour :
      d.Carrier
      → List d.Carrier
      → List d.Carrier
      → List d.Carrier
      → ℕ
      → List d.Carrier
      → List d.Carrier
  unfolding level_at for_below
  compute_contour phon_level af lu tf n out =
      let t1 =
        d.mul (d.lit (pos 447) 100000)
          (d.sub (d.pow ten (d.mul (d.lit (pos 25) 1000) phon_level)) (d.lit (pos 114) 100)) in
      for_below n (λ i out. set out i (level_at t1 af lu tf i)) out

  unfoldable pub by_iso_freqs : d.Carrier → List d.Carrier → List d.Carrier × ℕ
  unfolding compute_contour
  by_iso_freqs phon_level out =
      (compute_contour phon_level (af_data d) (lu_data d) (tf_data d) num_freqs out, num_freqs)

  -- What `byGivenFreqs` computes before its loop.
  pub record Reference : Type 0 where
    pub ref_spl : List d.Carrier
    pub log_x : List d.Carrier
    pub spline : Cubics d

  unfoldable pub reference : d.Carrier → Reference
  unfolding compute_contour build_spline
  reference phon_level =
      let zeros = replicate num_freqs (nought d) in
      let segments = replicate (num_freqs - 1) (nought d) in
      let ref_spl =
        compute_contour phon_level (af_data d) (lu_data d) (tf_data d) num_freqs zeros in
      let log_x = for_below num_freqs (λ i xs. set xs i (d.log10 (at d (freq_data d) i))) zeros in
      record {
        ref_spl = ref_spl;
        log_x = log_x;
        spline =
            build_spline d log_x ref_spl num_freqs
              (record { a = segments; b = segments; c = segments; d' = segments });
      }

  -- Above the last reference frequency.
  unfoldable pub extrapolate : Reference → d.Carrier → d.Carrier
  extrapolate r log_f =
      let last = num_freqs - 2 in
      let h = d.sub (at d r.log_x (num_freqs - 1)) (at d r.log_x last) in
      let slope =
        d.add (d.add (at d r.spline.b last) (d.mul (d.mul (two d) (at d r.spline.c last)) h))
          (d.mul (d.mul (d.mul (three d) (at d r.spline.d' last)) h) h) in
      d.add (at d r.ref_spl (num_freqs - 1))
        (d.mul slope (d.sub log_f (at d r.log_x (num_freqs - 1))))

  -- The body of the loop, for a frequency.
  unfoldable pub level_of : Reference → d.Carrier → Option d.Carrier
  unfolding extrapolate eval_spline
  level_of r f =
      let log_f = d.log10 f in
      if d.le f (nought d)
      then some d.quiet_nan
      else if d.le log_f (at d r.log_x (num_freqs - 1))
      then eval_spline d r.log_x r.spline num_freqs log_f
      else some (extrapolate r log_f)

  unfoldable pub by_given_freqs :
      d.Carrier → List d.Carrier → List d.Carrier → Option (List d.Carrier × ℕ)
  unfolding reference level_of for_m
  by_given_freqs phon_level freqs out = do
    out' ←
        for_m (length freqs)
          (λ i out. level_of (reference phon_level) (at d freqs i) >>= λ v. some (set out i v)) out
    some (out', length freqs)

  unfoldable pub by_fft : d.Carrier → ℕ → List d.Carrier → List d.Carrier × ℕ
  unfolding for_below
  by_fft sample_rate fft_size out =
      let num_bins = fft_size / 2 + 1 in
      (
        for_below num_bins
            (λ i out.
              set out i (d.div (d.mul (d.of_int (pos i)) sample_rate) (d.of_int (pos fft_size))))
            out,
        num_bins,
      )
