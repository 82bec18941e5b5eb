-- ===== src/Audio/LinkwitzRiley.antt =====
-- audio/LinkwitzRileyFilter.h: the mono filter, as a cascade of biquads. `SampleType` is the carrier
-- of the parameter `Double`. The vectors are read and written at each index below the number of
-- stages; a read out of their bounds, undefined in C++, is a fault, and a write there leaves the empty list,
-- which is none of the arrays of the code and which no later access finds an element in.
pub mod Stages
pub mod Stereo
pub mod TwoBands
pub mod MultiBand
mod Tests
use phu_audio_lib.Base.{
  ℕ, zero, suc, pos, negsuc, Option, none, some, ◌>>=◌, List, [], ◌∷◌, length, set, resize, map,
  ltb, if◌then◌else◌,
}
use phu_audio_lib.Double.{Double}
use phu_audio_lib.Analog.Elements.{nought, one, two}

-- `xs[i] = v`.
abbrev pub write {ℓ} : {A : Type ℓ} → List A → ℕ → A → List A
write xs i v = if ltb i (length xs) then set xs i v else []

pub data Slope : Type 0 where
  db24 db48 : Slope

pub data FilterType : Type 0 where
  low_pass high_pass all_pass : FilterType

module _ (d : Double) where
  abbrev pub q_lr4 : d.Carrier
  q_lr4 = d.lit (pos 7071067811865476) 10000000000000000

  abbrev pub q_lr8_1 : d.Carrier
  q_lr8_1 = d.lit (pos 5411961001461971) 10000000000000000

  abbrev pub q_lr8_2 : d.Carrier
  q_lr8_2 = d.lit (pos 13065629648763766) 10000000000000000

  abbrev pub filter_pi : d.Carrier
  filter_pi = d.lit (pos 314159265358979323846) 100000000000000000000

  pub record BiquadState : Type 0 where
    pub x1 : d.Carrier
    pub x2 : d.Carrier
    pub y1 : d.Carrier
    pub y2 : d.Carrier

  abbrev pub empty_state : BiquadState
  empty_state = record { x1 = nought d; x2 = nought d; y1 = nought d; y2 = nought d }

  unfoldable pub reset_biquad : BiquadState → BiquadState
  reset_biquad s = record s { x1 = nought d; x2 = nought d; y1 = nought d; y2 = nought d }

  pub record BiquadCoeffs : Type 0 where
    pub b0 : d.Carrier
    pub b1 : d.Carrier
    pub b2 : d.Carrier
    pub a1 : d.Carrier
    pub a2 : d.Carrier

  abbrev pub pass_through : BiquadCoeffs
  pass_through = record { b0 = one d; b1 = nought d; b2 = nought d; a1 = nought d; a2 = nought d }

  -- The six coefficients before the division by `a0`, of the type, the cosine and `alpha`.
  pub record RawCoeffs : Type 0 where
    pub b0 : d.Carrier
    pub b1 : d.Carrier
    pub b2 : d.Carrier
    pub a0 : d.Carrier
    pub a1 : d.Carrier
    pub a2 : d.Carrier

  unfoldable pub raw_coeffs : FilterType → d.Carrier → d.Carrier → RawCoeffs
  raw_coeffs FilterType.low_pass cs alpha = record {
    b0 = d.div (d.sub (one d) cs) (two d);
    b1 = d.sub (one d) cs;
    b2 = d.div (d.sub (one d) cs) (two d);
    a0 = d.add (one d) alpha;
    a1 = d.mul (d.lit (negsuc 1) 1) cs;
    a2 = d.sub (one d) alpha;
  }
  raw_coeffs FilterType.high_pass cs alpha = record {
    b0 = d.div (d.add (one d) cs) (two d);
    b1 = d.neg (d.add (one d) cs);
    b2 = d.div (d.add (one d) cs) (two d);
    a0 = d.add (one d) alpha;
    a1 = d.mul (d.lit (negsuc 1) 1) cs;
    a2 = d.sub (one d) alpha;
  }
  raw_coeffs FilterType.all_pass cs alpha = record {
    b0 = d.sub (one d) alpha;
    b1 = d.mul (d.lit (negsuc 1) 1) cs;
    b2 = d.add (one d) alpha;
    a0 = d.add (one d) alpha;
    a1 = d.mul (d.lit (negsuc 1) 1) cs;
    a2 = d.sub (one d) alpha;
  }

  unfoldable pub normalised : RawCoeffs → BiquadCoeffs
  normalised c = record {
    b0 = d.div c.b0 c.a0;
    b1 = d.div c.b1 c.a0;
    b2 = d.div c.b2 c.a0;
    a1 = d.div c.a1 c.a0;
    a2 = d.div c.a2 c.a0;
  }

  -- The `default:` of the switch has no value of the enumeration.
  unfoldable pub calc_biquad_coeffs_with_q :
      FilterType → d.Carrier → d.Carrier → d.Carrier → BiquadCoeffs
  unfolding raw_coeffs normalised
  calc_biquad_coeffs_with_q type freq sample_rate q =
      let omega = d.div (d.mul (d.mul (two d) filter_pi) freq) sample_rate in
      let sn = d.sin omega in
      let cs = d.cos omega in
      let alpha = d.div sn (d.mul (two d) q) in normalised (raw_coeffs type cs alpha)

  pub record LinkwitzRileyFilter : Type 0 where
    pub type : FilterType
    pub slope : Slope
    pub freq : d.Carrier
    pub sample_rate : d.Carrier
    pub num_stages : ℕ
    pub stages : List BiquadState
    pub coeffs_list : List BiquadCoeffs

  unfoldable pub new_filter : LinkwitzRileyFilter
  new_filter = record {
    type = FilterType.low_pass;
    slope = Slope.db24;
    freq = d.lit (pos 1000) 1;
    sample_rate = d.lit (pos 44100) 1;
    num_stages = 2;
    stages = [];
    coeffs_list = [];
  }

  unfoldable pub stages_for : FilterType → Slope → ℕ
  stages_for FilterType.all_pass Slope.db48 = 2
  stages_for FilterType.all_pass Slope.db24 = 1
  stages_for FilterType.low_pass Slope.db48 = 4
  stages_for FilterType.low_pass Slope.db24 = 2
  stages_for FilterType.high_pass Slope.db48 = 4
  stages_for FilterType.high_pass Slope.db24 = 2

  -- `c1` and `c2` at the first and the second half of the four stages.
  abbrev pub four_stages : BiquadCoeffs → BiquadCoeffs → List BiquadCoeffs → List BiquadCoeffs
  four_stages c1 c2 list = write (write (write (write list 0 c1) 1 c1) 2 c2) 3 c2

  -- The assignments to the list of coefficients.
  unfoldable pub assign_coeffs :
      FilterType → Slope → d.Carrier → d.Carrier → List BiquadCoeffs → List BiquadCoeffs
  unfolding calc_biquad_coeffs_with_q
  assign_coeffs FilterType.all_pass Slope.db24 freq sample_rate list =
      write list 0 (calc_biquad_coeffs_with_q FilterType.all_pass freq sample_rate q_lr4)
  assign_coeffs FilterType.all_pass Slope.db48 freq sample_rate list =
      write (write list 0 (calc_biquad_coeffs_with_q FilterType.all_pass freq sample_rate q_lr8_1))
        1 (calc_biquad_coeffs_with_q FilterType.all_pass freq sample_rate q_lr8_2)
  assign_coeffs type Slope.db24 freq sample_rate list =
      let c = calc_biquad_coeffs_with_q type freq sample_rate q_lr4 in write (write list 0 c) 1 c
  assign_coeffs type Slope.db48 freq sample_rate list =
      four_stages (calc_biquad_coeffs_with_q type freq sample_rate q_lr8_1)
        (calc_biquad_coeffs_with_q type freq sample_rate q_lr8_2) list

  unfoldable pub set_params :
      FilterType → Slope → d.Carrier → d.Carrier → LinkwitzRileyFilter → LinkwitzRileyFilter
  unfolding stages_for assign_coeffs
  set_params type slope freq sample_rate f =
      let n = stages_for type slope in
      record {
        type = type;
        slope = slope;
        freq = freq;
        sample_rate = sample_rate;
        num_stages = n;
        stages = resize n empty_state f.stages;
        coeffs_list =
            assign_coeffs type slope freq sample_rate (resize n pass_through f.coeffs_list);
      }

  unfoldable pub make_filter : FilterType → Slope → d.Carrier → d.Carrier → LinkwitzRileyFilter
  unfolding set_params new_filter
  make_filter type slope freq sample_rate = set_params type slope freq sample_rate new_filter

  unfoldable pub reset : LinkwitzRileyFilter → LinkwitzRileyFilter
  unfolding reset_biquad
  reset f = record f { stages = map reset_biquad f.stages }

  -- A biquad at one sample.
  unfoldable pub biquad_step : BiquadCoeffs → BiquadState → d.Carrier → BiquadState × d.Carrier
  biquad_step c s y =
      let y0 =
        d.sub
          (d.sub (d.add (d.add (d.mul c.b0 y) (d.mul c.b1 s.x1)) (d.mul c.b2 s.x2))
            (d.mul c.a1 s.y1))
          (d.mul c.a2 s.y2) in
      (record { x1 = y; x2 = s.x1; y1 = y0; y2 = s.y1 }, y0)

  -- The loop over the stages, where `n` stages are left.
  unfoldable pub run_stages :
      ℕ → List BiquadCoeffs → List BiquadState → d.Carrier → Option (List BiquadState × d.Carrier)
  unfolding biquad_step
  run_stages zero cs ss y = some (ss, y)
  run_stages (suc n) [] ss y = none
  run_stages (suc n) (c ∷ cs) [] y = none
  run_stages (suc n) (c ∷ cs) (s ∷ ss) y =
      let (s', y0) = biquad_step c s y in run_stages n cs ss y0 >>= λ r. some (s' ∷ r.0, r.1)

  unfoldable pub process_sample :
      d.Carrier → LinkwitzRileyFilter → Option (LinkwitzRileyFilter × d.Carrier)
  unfolding run_stages
  process_sample x f = run_stages f.num_stages f.coeffs_list f.stages x >>= λ r.
      some (record f { stages = r.0 }, r.1)
