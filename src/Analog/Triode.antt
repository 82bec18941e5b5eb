-- ===== src/Analog/Triode.antt =====
-- analog/nonlinear/TriodeKoren.h and .cpp: the plate current of a triode and its derivatives.
use phu_audio_lib.Base.{pos, negsuc, if◌then◌else◌}
use phu_audio_lib.Double.{Double}
use phu_audio_lib.Analog.Elements.{nought, one}

module _ (d : Double) where
  pub record TubeParams : Type 0 where
    pub mu : d.Carrier
    pub kp : d.Carrier
    pub kvb : d.Carrier
    pub kg1 : d.Carrier
    pub x : d.Carrier

  unfoldable pub tube_params_12ax7 : TubeParams
  tube_params_12ax7 = record {
    mu = d.lit (pos 100) 1;
    kp = d.lit (pos 600) 1;
    kvb = d.lit (pos 300) 1;
    kg1 = d.lit (pos 1060) 1;
    x = d.lit (pos 14) 10;
  }

  unfoldable pub tube_params_12au7 : TubeParams
  tube_params_12au7 = record {
    mu = d.lit (pos 215) 10;
    kp = d.lit (pos 845) 10;
    kvb = d.lit (pos 0) 1;
    kg1 = d.lit (pos 1180) 1;
    x = d.lit (pos 13) 10;
  }

  unfoldable pub tube_params_6072 : TubeParams
  tube_params_6072 = record {
    mu = d.lit (pos 70) 1;
    kp = d.lit (pos 300) 1;
    kvb = d.lit (pos 300) 1;
    kg1 = d.lit (pos 1060) 1;
    x = d.lit (pos 14) 10;
  }

  unfoldable pub tube_params_12bh7 : TubeParams
  tube_params_12bh7 = record {
    mu = d.lit (pos 20) 1;
    kp = d.lit (pos 3000) 1;
    kvb = d.lit (pos 150) 1;
    kg1 = d.lit (pos 1200) 1;
    x = d.lit (pos 13) 10;
  }

  -- ln(1 + exp(u)), by the thresholds 30 and -30.
  pub softplus : d.Carrier → d.Carrier
  softplus u =
      if d.lt (d.lit (pos 30) 1) u
      then u
      else if d.lt u (d.lit (negsuc 29) 1)
      then d.exp u
      else d.log1p (d.exp u)

  pub sigmoid : d.Carrier → d.Carrier
  sigmoid u =
      if d.le (nought d) u
      then d.div (one d) (d.add (one d) (d.exp (d.neg u)))
      else d.div (d.exp u) (d.add (one d) (d.exp u))

  -- The three results of `korenIntermediates`. `std::max(a, b)` is `a < b ? b : a`.
  pub record Intermediates : Type 0 where
    pub e1 : d.Carrier
    pub sig : d.Carrier
    pub sq_v2 : d.Carrier

  pub koren_intermediates : d.Carrier → d.Carrier → TubeParams → Intermediates
  unfolding softplus sigmoid
  koren_intermediates vpk vgk p =
      let sum = d.add p.kvb (d.mul vpk vpk) in
      let min_v2 = d.lit (pos 1) 1000000000000 in
      let sq_v2 = d.sqrt (if d.lt sum min_v2 then min_v2 else sum) in
      let u = d.mul p.kp (d.add (d.div (one d) p.mu) (d.div vgk sq_v2)) in
      record { e1 = d.mul (d.div vpk p.kp) (softplus u); sig = sigmoid u; sq_v2 = sq_v2 }

  -- ∂E1/∂Vpk and ∂E1/∂Vgk.
  pub de1_dvpk : d.Carrier → d.Carrier → TubeParams → Intermediates → d.Carrier
  unfolding softplus
  de1_dvpk vpk vgk p k =
      let sp_over_kp =
        if d.eq vpk (nought d)
        then d.div (softplus (d.mul p.kp (d.add (d.div (one d) p.mu) (d.div vgk k.sq_v2)))) p.kp
        else d.div k.e1 vpk in
      d.sub sp_over_kp
        (d.div (d.mul (d.mul (d.mul vpk vpk) vgk) k.sig) (d.mul (d.mul k.sq_v2 k.sq_v2) k.sq_v2))

  pub de1_dvgk : d.Carrier → Intermediates → d.Carrier
  de1_dvgk vpk k = d.div (d.mul vpk k.sig) k.sq_v2

  unfoldable pub triode_ip : d.Carrier → d.Carrier → TubeParams → d.Carrier
  unfolding koren_intermediates
  triode_ip vpk vgk p =
      let k = koren_intermediates vpk vgk p in
      if d.le k.e1 (nought d) then nought d else d.div (d.pow k.e1 p.x) p.kg1

  unfoldable pub triode_dip_dvpk : d.Carrier → d.Carrier → TubeParams → d.Carrier
  unfolding koren_intermediates de1_dvpk
  triode_dip_dvpk vpk vgk p =
      let k = koren_intermediates vpk vgk p in
      if d.le k.e1 (nought d)
      then nought d
      else d.mul (d.div (d.mul p.x (d.pow k.e1 (d.sub p.x (one d)))) p.kg1) (de1_dvpk vpk vgk p k)

  unfoldable pub triode_dip_dvgk : d.Carrier → d.Carrier → TubeParams → d.Carrier
  unfolding koren_intermediates de1_dvgk
  triode_dip_dvgk vpk vgk p =
      let k = koren_intermediates vpk vgk p in
      if d.le k.e1 (nought d)
      then nought d
      else d.mul (d.div (d.mul p.x (d.pow k.e1 (d.sub p.x (one d)))) p.kg1) (de1_dvgk vpk k)

  pub record Partials : Type 0 where
    pub ip : d.Carrier
    pub gds : d.Carrier
    pub gm : d.Carrier

  unfoldable pub triode_ip_and_partials : d.Carrier → d.Carrier → TubeParams → Partials
  unfolding koren_intermediates de1_dvpk de1_dvgk
  triode_ip_and_partials vpk vgk p =
      let k = koren_intermediates vpk vgk p in
      let ex = d.pow k.e1 p.x in
      let exx1 = d.div ex k.e1 in
      let x_exx1_kg1 = d.div (d.mul p.x exx1) p.kg1 in
      if d.le k.e1 (nought d)
      then record { ip = nought d; gds = nought d; gm = nought d }
      else record {
        ip = d.div ex p.kg1;
        gds = d.mul x_exx1_kg1 (de1_dvpk vpk vgk p k);
        gm = d.mul x_exx1_kg1 (de1_dvgk vpk k);
      }
