-- ===== src/Analog/Levels.antt =====
-- analog/dsp/DbConversion.h. Each operation on floats is rounded by `to_float`.
use phu_audio_lib.Base.{pos}
use phu_audio_lib.Double.{Double}

module _ (d : Double) where
  unfoldable pub db_to_linear : d.Carrier → d.Carrier
  db_to_linear db = d.to_float (d.pow (d.lit (pos 10) 1) (d.to_float (d.div db (d.lit (pos 20) 1))))

  unfoldable pub linear_to_db : d.Carrier → d.Carrier
  linear_to_db linear = d.to_float (d.mul (d.lit (pos 20) 1) (d.to_float (d.log10 linear)))
