-- ===== src/Analog/Transformer.antt =====
-- analog/models/transformer/TransformerLinear.h and .cpp: two filters of the first order and a saturator.
pub mod Reset
use phu_audio_lib.Base.{ℤ, pos, if◌then◌else◌}
use phu_audio_lib.Double.{Double}
use phu_audio_lib.Analog.Elements.{nought, one}
use phu_audio_lib.Analog.TubeStage.{clamp, min_d}

module _ (d : Double) where
  pub record TransformerConfig : Type 0 where
    pub hpf_cutoff_hz : d.Carrier
    pub lpf_cutoff_hz : d.Carrier
    pub drive : d.Carrier

  pub record Coeffs : Type 0 where
    pub b0 : d.Carrier
    pub b1 : d.Carrier
    pub a1 : d.Carrier

  pub record TransformerLinear : Type 0 where
    pub config : TransformerConfig
    pub hpf : Coeffs
    pub hpf_x1 : d.Carrier
    pub hpf_y1 : d.Carrier
    pub lpf : Coeffs
    pub lpf_x1 : d.Carrier
    pub lpf_y1 : d.Carrier

  unfoldable pub new_transformer : TransformerConfig → TransformerLinear
  new_transformer cfg =
      let o = nought d in
      let through : Coeffs = record { b0 = one d; b1 = o; a1 = o } in
      record {
        config = cfg;
        hpf = through;
        hpf_x1 = o;
        hpf_y1 = o;
        lpf = through;
        lpf_x1 = o;
        lpf_y1 = o;
      }

  -- tan(π * fc / fs), with `M_PI` as the code spells it.
  warped : d.Carrier → d.Carrier → d.Carrier
  warped fc fs =
      d.tan (d.div (d.mul (d.lit (pos 314159265358979323846) 100000000000000000000) fc) fs)

  compute_hpf_coeffs : d.Carrier → d.Carrier → Coeffs
  unfolding warped
  compute_hpf_coeffs fc fs =
      let k = warped fc fs in
      let norm = d.div (one d) (d.add (one d) k) in
      record {
        b0 = d.to_float norm;
        b1 = d.to_float (d.neg norm);
        a1 = d.to_float (d.mul (d.sub (one d) k) norm);
      }

  compute_lpf_coeffs : d.Carrier → d.Carrier → Coeffs
  unfolding warped
  compute_lpf_coeffs fc fs =
      let k = warped fc fs in
      let norm = d.div (one d) (d.add (one d) k) in
      record {
        b0 = d.to_float (d.mul k norm);
        b1 = d.to_float (d.mul k norm);
        a1 = d.to_float (d.mul (d.sub (one d) k) norm);
      }

  -- Arithmetic of `float` is rounded at each operation.
  pub saturate : d.Carrier → d.Carrier → d.Carrier
  saturate x drive = d.to_float (d.div (d.to_float (d.tanh (d.to_float (d.mul drive x)))) drive)

  unfoldable pub reset : TransformerLinear → TransformerLinear
  reset s = let o = nought d in record s { hpf_x1 = o; hpf_y1 = o; lpf_x1 = o; lpf_y1 = o }

  unfoldable pub prepare : d.Carrier → TransformerLinear → TransformerLinear
  unfolding compute_hpf_coeffs compute_lpf_coeffs reset clamp min_d
  prepare sample_rate s =
      let nyquist = d.mul sample_rate (d.lit (pos 5) 10) in
      let top = d.mul nyquist (d.lit (pos 49) 100) in
      let safe_hpf = clamp d s.config.hpf_cutoff_hz (one d) top in
      let lpf_min = min_d d (d.add safe_hpf (one d)) top in
      let safe_lpf = clamp d s.config.lpf_cutoff_hz lpf_min top in
      reset (record s {
        hpf = compute_hpf_coeffs safe_hpf sample_rate;
        lpf = compute_lpf_coeffs safe_lpf sample_rate;
      })

  unfoldable pub set_config : TransformerConfig → TransformerLinear → TransformerLinear
  set_config cfg s = record s { config = cfg }

  -- b0 * x + b1 * x1 + a1 * y1
  filtered : Coeffs → d.Carrier → d.Carrier → d.Carrier → d.Carrier
  filtered c x x1 y1 =
      let sum = d.to_float (d.add (d.to_float (d.mul c.b0 x)) (d.to_float (d.mul c.b1 x1))) in
      d.to_float (d.add sum (d.to_float (d.mul c.a1 y1)))

  unfoldable pub process_sample : d.Carrier → TransformerLinear → TransformerLinear × d.Carrier
  unfolding filtered saturate
  process_sample sample s =
      let hpf_out = filtered s.hpf sample s.hpf_x1 s.hpf_y1 in
      let lpf_out = filtered s.lpf hpf_out s.lpf_x1 s.lpf_y1 in
      let drive = if d.lt (one d) s.config.drive then s.config.drive else one d in
      (
        record s { hpf_x1 = sample; hpf_y1 = hpf_out; lpf_x1 = hpf_out; lpf_y1 = lpf_out },
        saturate lpf_out drive,
      )
