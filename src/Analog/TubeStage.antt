-- ===== src/Analog/TubeStage.antt =====
-- analog/models/TubeStage.h and .cpp, with analog/dsp/UnitScaling.h: a triode stage that is solved by
-- the Newton-Raphson iteration for each sample. The operating point is the list of Vp and Vk.
pub mod Point
mod Tests
use phu_audio_lib.Base.{ℕ, ℤ, pos, Bool, true, false, List, [], ◌∷◌, get_or, if◌then◌else◌}
use phu_audio_lib.Double.{Double}
use phu_audio_lib.Analog.Elements.{
  nought, one, CapacitorCompanion, prepare_capacitor, reset_capacitor, update_capacitor,
}
use phu_audio_lib.Analog.Newton.{NrConfig, NrPolicy, solve}
use phu_audio_lib.Analog.Triode.{TubeParams, tube_params_12ax7, triode_ip_and_partials}

module _ (d : Double) where
  unfoldable pub sample_to_volts : d.Carrier → d.Carrier
  sample_to_volts sample = d.to_float (d.mul sample (d.lit (pos 10) 1))

  -- `kSamplesPerVolt` is the quotient of two numbers of type `float`.
  unfoldable pub volts_to_sample : d.Carrier → d.Carrier
  volts_to_sample volts = d.to_float (d.mul volts (d.to_float (d.div (one d) (d.lit (pos 10) 1))))

  -- `std::clamp` and `std::min`.
  unfoldable pub clamp : d.Carrier → d.Carrier → d.Carrier → d.Carrier
  clamp v lo hi = if d.lt v lo then lo else if d.lt hi v then hi else v

  unfoldable pub min_d : d.Carrier → d.Carrier → d.Carrier
  min_d a b = if d.lt b a then b else a

  pub record TubeStageConfig : Type 0 where
    pub tube : TubeParams d
    pub vcc : d.Carrier
    pub rp : d.Carrier
    pub rk : d.Carrier
    pub ck : d.Carrier
    pub input_clamp_v : d.Carrier
    pub nr : NrConfig d

  unfoldable pub default_config : TubeStageConfig
  unfolding tube_params_12ax7
  default_config = record {
    tube = tube_params_12ax7 d;
    vcc = d.lit (pos 250) 1;
    rp = d.lit (pos 100000) 1;
    rk = d.lit (pos 1500) 1;
    ck = nought d;
    input_clamp_v = d.lit (pos 50) 1;
    nr = record {
      max_iterations = pos 20;
      convergence_tol = d.lit (pos 1) 1000000000;
      damping_factor = one d;
      max_delta_v = nought d;
    };
  }

  pub record TubeStage : Type 0 where
    pub config : TubeStageConfig
    pub x : List d.Carrier
    pub cap_k : CapacitorCompanion d
    pub nr : NrPolicy d

  pub start_point : TubeStageConfig → List d.Carrier
  start_point cfg = d.mul cfg.vcc (d.lit (pos 5) 10) ∷ d.lit (pos 15) 10 ∷ []

  unfoldable pub new_stage : TubeStageConfig → TubeStage
  unfolding start_point
  new_stage cfg = record {
    config = cfg;
    x = start_point cfg;
    cap_k = record { farads = cfg.ck; geq = nought d; ieq = nought d };
    nr = record { config = cfg.nr; total_iterations = 0 };
  }

  unfoldable pub prepare : d.Carrier → TubeStage → TubeStage
  prepare sample_rate s =
      if d.lt (nought d) s.config.ck
      then record s { cap_k = prepare_capacitor d (d.div (one d) sample_rate) s.cap_k }
      else s

  unfoldable pub reset : TubeStage → TubeStage
  unfolding start_point reset_capacitor
  reset s = record s { x = start_point s.config; cap_k = reset_capacitor d s.cap_k }

  -- `stepFn`: a Newton step of the two equations for the currents, at grid voltage `vin` and with the
  -- companion of the capacitor. An array of another size does not occur.
  unfoldable pub kcl_step :
      TubeStageConfig
      → d.Carrier
      → d.Carrier
      → d.Carrier
      → Unit {0}
      → List d.Carrier
      → Unit {0} × List d.Carrier × Bool
  unfolding triode_ip_and_partials
  kcl_step cfg geq_k ieq_k vin env (vp ∷ vk ∷ []) =
      let inv_rp = d.div (one d) cfg.rp in
      let inv_rk = d.div (one d) cfg.rk in
      let t = triode_ip_and_partials d (d.sub vp vk) (d.sub vin vk) cfg.tube in
      let f1 = d.sub (d.mul (d.sub cfg.vcc vp) inv_rp) t.ip in
      let f2 = d.sub (d.sub (d.mul vk (d.add inv_rk geq_k)) ieq_k) t.ip in
      let j00 = d.sub (d.neg inv_rp) t.gds in
      let j01 = d.add t.gds t.gm in
      let j10 = d.neg t.gds in
      let j11 = d.add (d.add (d.add inv_rk geq_k) t.gds) t.gm in
      let det = d.sub (d.mul j00 j11) (d.mul j01 j10) in
      let inv = d.div (one d) det in
      let vp' = d.add vp (d.mul (d.add (d.mul (d.neg f1) j11) (d.mul f2 j01)) inv) in
      let vk' = d.add vk (d.mul (d.sub (d.mul f1 j10) (d.mul f2 j00)) inv) in
      if d.lt (d.abs det) (d.lit (pos 1) 1000000000000000000000000000000)
      then (env, vp ∷ vk ∷ [], false)
      else (env, vp' ∷ vk' ∷ [], true)
  kcl_step cfg geq_k ieq_k vin env x = (env, x, false)

  -- The grid voltage of a sample.
  pub grid_voltage : d.Carrier → TubeStage → d.Carrier
  unfolding sample_to_volts clamp min_d
  grid_voltage sample s =
      let limit = s.config.input_clamp_v in
      min_d (clamp (sample_to_volts sample) (d.neg limit) limit) (get_or s.x 1 (nought d))

  -- The companion's values, where the capacitor is fitted.
  abbrev pub if_fitted : TubeStage → d.Carrier → d.Carrier
  if_fitted s value = if d.lt (nought d) s.config.ck then value else nought d

  -- The callback for a sample.
  abbrev pub step_of :
      d.Carrier → TubeStage → Unit {0} → List d.Carrier → Unit {0} × List d.Carrier × Bool
  step_of sample s =
      kcl_step s.config (if_fitted s s.cap_k.geq) (if_fitted s s.cap_k.ieq) (grid_voltage sample s)

  unfoldable pub process_sample : d.Carrier → TubeStage → TubeStage × d.Carrier
  unfolding kcl_step grid_voltage solve update_capacitor volts_to_sample
  process_sample sample s =
      let (nr, out) = solve d (step_of sample s) s.nr tt s.x in
      let vp = get_or out.x 0 (nought d) in
      let vk = get_or out.x 1 (nought d) in
      (
        record s {
          x = out.x;
          nr = nr;
          cap_k = if d.lt (nought d) s.config.ck then update_capacitor d vk s.cap_k else s.cap_k;
        },
        volts_to_sample (d.to_float vp),
      )
