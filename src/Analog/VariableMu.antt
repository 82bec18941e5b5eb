-- ===== src/Analog/VariableMu.antt =====
-- analog/models/VariableMuStage.h and .cpp: a triode stage whose grid is biased by a control voltage. Its
-- configuration has the members of `TubeStageConfig`, which `circuit` holds, and `cvMaxV`.
pub mod Reset
mod Tests
use phu_audio_lib.Base.{ℕ, zero, suc, ℤ, pos, Bool, List, [], ◌∷◌, get_or, if◌then◌else◌}
use phu_audio_lib.Double.{Double}
use phu_audio_lib.Analog.Elements.{
  nought, one, two, CapacitorCompanion, prepare_capacitor, update_capacitor,
}
use phu_audio_lib.Analog.Newton.{NrConfig, NrPolicy, set_config, solve}
use phu_audio_lib.Analog.Triode.{tube_params_6072, Partials, triode_ip_and_partials}
use phu_audio_lib.Analog.TubeStage.{
  TubeStageConfig, default_config, sample_to_volts, volts_to_sample, clamp, min_d, kcl_step,
}

module _ (d : Double) where
  pub record VariableMuConfig : Type 0 where
    pub circuit : TubeStageConfig d
    pub cv_max_v : d.Carrier

  unfoldable pub default_mu_config : VariableMuConfig
  unfolding default_config tube_params_6072
  default_mu_config = record {
    circuit = record (default_config d) { tube = tube_params_6072 d };
    cv_max_v = d.lit (pos 6) 1;
  }

  pub record VariableMuStage : Type 0 where
    pub config : VariableMuConfig
    pub cv_bias : d.Carrier
    pub x : List d.Carrier
    pub cap_k : CapacitorCompanion d
    pub nr : NrPolicy d
    pub dc_block_coeff : d.Carrier
    pub dc_block_x1 : d.Carrier
    pub dc_block_y1 : d.Carrier
    pub x_qp : d.Carrier
    pub x_qk : d.Carrier
    pub vp_quiescent_norm : d.Carrier
    pub sample_rate : d.Carrier
    pub inv_gain_mag : d.Carrier

  unfoldable pub new_stage : VariableMuConfig → VariableMuStage
  new_stage cfg =
      let o = nought d in
      let vk = d.lit (pos 15) 10 in
      record {
        config = cfg;
        cv_bias = o;
        x = d.mul cfg.circuit.vcc (d.lit (pos 5) 10) ∷ vk ∷ [];
        cap_k = record { farads = cfg.circuit.ck; geq = o; ieq = o };
        nr = record { config = cfg.circuit.nr; total_iterations = 0 };
        dc_block_coeff = d.lit (pos 9999) 10000;
        dc_block_x1 = o;
        dc_block_y1 = o;
        x_qp = o;
        x_qk = vk;
        vp_quiescent_norm = o;
        sample_rate = o;
        inv_gain_mag = one d;
      }

  -- `updateCathodeBypassCompanion`
  pub update_companion : d.Carrier → VariableMuStage → VariableMuStage
  unfolding prepare_capacitor
  update_companion cathode_voltage s =
      let ck = s.config.circuit.ck in
      let prepared =
        prepare_capacitor d (d.div (one d) s.sample_rate) (record s.cap_k { farads = ck }) in
      record s {
        cap_k =
            if d.le ck (nought d)
            then record { farads = ck; geq = nought d; ieq = nought d }
            else if d.le s.sample_rate (nought d)
            then record { farads = ck; geq = nought d; ieq = nought d }
            else record prepared { ieq = d.mul prepared.geq cathode_voltage };
      }

  -- The Jacobian's determinant, with the values that the quiescent point is computed by.
  pub record Jacobian : Type 0 where
    pub inv_rk : d.Carrier
    pub j00 : d.Carrier
    pub j01 : d.Carrier
    pub j10 : d.Carrier
    pub j11 : d.Carrier
    pub det : d.Carrier

  pub jacobian : TubeStageConfig d → Partials d → Jacobian
  jacobian cfg t =
      let inv_rk = d.div (one d) cfg.rk in
      let j00 = d.sub (d.neg (d.div (one d) cfg.rp)) t.gds in
      let j01 = d.add t.gds t.gm in
      let j10 = d.neg t.gds in
      let j11 = d.add (d.add inv_rk t.gds) t.gm in
      record {
        inv_rk = inv_rk;
        j00 = j00;
        j01 = j01;
        j10 = j10;
        j11 = j11;
        det = d.sub (d.mul j00 j11) (d.mul j01 j10);
      }

  -- `1e-30`, `1e-10` and `1e-9`
  abbrev singular : d.Carrier
  singular = d.lit (pos 1) 1000000000000000000000000000000

  -- The search for the quiescent point in `prepare`, by the rounds left.
  pub quiescent : TubeStageConfig d → ℕ → d.Carrier → d.Carrier → d.Carrier × d.Carrier
  unfolding triode_ip_and_partials jacobian
  quiescent cfg zero vp vk = (vp, vk)
  quiescent cfg (suc rounds) vp vk =
      let t = triode_ip_and_partials d (d.sub vp vk) (d.neg vk) cfg.tube in
      let j = jacobian cfg t in
      let f1 = d.sub (d.mul (d.sub cfg.vcc vp) (d.div (one d) cfg.rp)) t.ip in
      let f2 = d.sub (d.mul vk j.inv_rk) t.ip in
      let inv = d.div (one d) j.det in
      let d_vp = d.mul (d.add (d.mul (d.neg f1) j.j11) (d.mul f2 j.j01)) inv in
      let d_vk = d.mul (d.sub (d.mul f1 j.j10) (d.mul f2 j.j00)) inv in
      let vp' = d.add vp d_vp in
      let vk' = d.add vk d_vk in
      let step = d.sqrt (d.add (d.mul d_vp d_vp) (d.mul d_vk d_vk)) in
      let norm = d.sqrt (d.add (d.mul vp' vp') (d.mul vk' vk')) in
      let next = quiescent cfg rounds vp' vk' in
      if d.lt (d.abs j.det) singular
      then (vp, vk)
      else if d.lt step (d.mul (d.lit (pos 1) 1000000000) (d.add norm (one d)))
      then (vp', vk')
      else next

  -- `1 / |Av|` at the quiescent point.
  pub inv_gain : TubeStageConfig d → d.Carrier → d.Carrier → d.Carrier
  unfolding triode_ip_and_partials jacobian
  inv_gain cfg vp vk =
      let t = triode_ip_and_partials d (d.sub vp vk) (d.neg vk) cfg.tube in
      let j = jacobian cfg t in
      let av =
        if d.lt singular (d.abs j.det) then d.div (d.mul t.gm j.inv_rk) j.det else d.neg (one d) in
      if d.lt (d.lit (pos 1) 10000000000) (d.abs av) then d.div (one d) (d.abs av) else one d

  unfoldable pub prepare : d.Carrier → VariableMuStage → VariableMuStage
  unfolding quiescent inv_gain update_companion clamp volts_to_sample
  prepare sample_rate s =
      let cfg = s.config.circuit in
      let two_pi = d.lit (pos 6283185307179586) 1000000000000000 in
      let fall = d.div (d.mul two_pi (d.lit (pos 10) 1)) sample_rate in
      let (vp, vk) = quiescent cfg 200 (d.mul cfg.vcc (d.lit (pos 5) 10)) (d.lit (pos 15) 10) in
      let norm = volts_to_sample d (d.to_float vp) in
      let s1 : VariableMuStage = record s {
        sample_rate = sample_rate;
        dc_block_coeff = clamp d (d.sub (one d) fall) (nought d) (one d);
        x_qp = vp;
        x_qk = vk;
        vp_quiescent_norm = norm;
        inv_gain_mag = inv_gain cfg vp vk;
        x = vp ∷ vk ∷ [];
      } in
      record (update_companion vk s1) { dc_block_x1 = norm; dc_block_y1 = nought d }

  unfoldable pub reset : VariableMuStage → VariableMuStage
  unfolding update_companion
  reset s =
      let vp =
        if d.lt (nought d) s.x_qp then s.x_qp else d.mul s.config.circuit.vcc (d.lit (pos 5) 10) in
      record (update_companion s.x_qk (record s { x = vp ∷ s.x_qk ∷ []; cv_bias = nought d })) {
        dc_block_x1 = s.vp_quiescent_norm;
        dc_block_y1 = nought d;
      }

  unfoldable pub set_cv : d.Carrier → VariableMuStage → VariableMuStage
  unfolding clamp
  set_cv cv s = record s { cv_bias = clamp d cv (nought d) s.config.cv_max_v }

  unfoldable pub set_nr_config : NrConfig d → VariableMuStage → VariableMuStage
  unfolding set_config
  set_nr_config cfg s = record s { nr = set_config d cfg s.nr }

  unfoldable pub set_cathode_bypass_capacitance : d.Carrier → VariableMuStage → VariableMuStage
  unfolding update_companion
  set_cathode_bypass_capacitance farads s =
      let ck = if d.lt (nought d) farads then farads else nought d in
      let circuit = record s.config.circuit { ck = ck } in
      update_companion (get_or s.x 1 (nought d))
        (record s { config = record s.config { circuit = circuit } })

  -- The grid voltage of a sample, with the control voltage as its bias.
  pub biased_voltage : d.Carrier → VariableMuStage → d.Carrier
  unfolding sample_to_volts clamp min_d
  biased_voltage sample s =
      let limit = s.config.circuit.input_clamp_v in
      min_d d (d.sub (clamp d (sample_to_volts d sample) (d.neg limit) limit) s.cv_bias)
        (get_or s.x 1 (nought d))

  unfoldable pub process_sample : d.Carrier → VariableMuStage → VariableMuStage × d.Carrier
  unfolding kcl_step biased_voltage solve update_capacitor volts_to_sample
  process_sample sample s =
      let fitted = d.lt (nought d) s.config.circuit.ck in
      let geq = if fitted then s.cap_k.geq else nought d in
      let ieq = if fitted then s.cap_k.ieq else nought d in
      let step = kcl_step d s.config.circuit geq ieq (biased_voltage sample s) in
      let (nr, out) = solve d step s.nr tt s.x in
      let vk = get_or out.x 1 (nought d) in
      let raw = volts_to_sample d (d.to_float (get_or out.x 0 (nought d))) in
      let dc_y = d.add (d.sub raw s.dc_block_x1) (d.mul s.dc_block_coeff s.dc_block_y1) in
      (
        record s {
          x = out.x;
          nr = nr;
          cap_k = if fitted then update_capacitor d vk s.cap_k else s.cap_k;
          dc_block_x1 = raw;
          dc_block_y1 = dc_y;
        },
        d.to_float (d.mul (d.neg s.inv_gain_mag) dc_y),
      )
