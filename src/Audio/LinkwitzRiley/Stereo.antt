-- ===== src/Audio/LinkwitzRiley/Stereo.antt =====
-- audio/LinkwitzRileyFilter.h: the stereo filter and the crossover of two bands.
use phu_audio_lib.Base.{Option, some, ◌>>=◌}
use phu_audio_lib.Double.{Double}
use phu_audio_lib.Audio.LinkwitzRiley.{
  Slope, FilterType, LinkwitzRileyFilter, new_filter, make_filter, set_params, reset,
  process_sample,
}

module _ (d : Double) where
  pub record StereoLinkwitzRileyFilter : Type 0 where
    pub left : LinkwitzRileyFilter d
    pub right : LinkwitzRileyFilter d

  unfoldable pub new_stereo : StereoLinkwitzRileyFilter
  new_stereo = record { left = new_filter d; right = new_filter d }

  unfoldable pub make_stereo :
      FilterType → Slope → d.Carrier → d.Carrier → StereoLinkwitzRileyFilter
  unfolding make_filter
  make_stereo type slope freq sample_rate = record {
    left = make_filter d type slope freq sample_rate;
    right = make_filter d type slope freq sample_rate;
  }

  unfoldable pub set_stereo_params :
      FilterType
      → Slope
      → d.Carrier
      → d.Carrier
      → StereoLinkwitzRileyFilter
      → StereoLinkwitzRileyFilter
  unfolding set_params
  set_stereo_params type slope freq sample_rate f = record {
    left = set_params d type slope freq sample_rate f.left;
    right = set_params d type slope freq sample_rate f.right;
  }

  unfoldable pub reset_stereo : StereoLinkwitzRileyFilter → StereoLinkwitzRileyFilter
  unfolding reset
  reset_stereo f = record { left = reset d f.left; right = reset d f.right }

  unfoldable pub process_stereo :
      d.Carrier
      → d.Carrier
      → StereoLinkwitzRileyFilter
      → Option (StereoLinkwitzRileyFilter × d.Carrier × d.Carrier)
  unfolding process_sample
  process_stereo in_l in_r f = do
    (left, out_l) ← process_sample d in_l f.left
    (right, out_r) ← process_sample d in_r f.right
    some (record { left = left; right = right }, out_l, out_r)

  pub record CrossOver : Type 0 where
    pub slope : Slope
    pub lp : StereoLinkwitzRileyFilter
    pub hp : StereoLinkwitzRileyFilter
    pub ap : StereoLinkwitzRileyFilter

  unfoldable pub new_crossover : CrossOver
  unfolding new_stereo
  new_crossover = record { slope = Slope.db24; lp = new_stereo; hp = new_stereo; ap = new_stereo }

  unfoldable pub make_crossover : Slope → d.Carrier → d.Carrier → CrossOver
  unfolding make_stereo
  make_crossover slope freq sample_rate = record {
    slope = slope;
    lp = make_stereo FilterType.low_pass slope freq sample_rate;
    hp = make_stereo FilterType.high_pass slope freq sample_rate;
    ap = make_stereo FilterType.all_pass slope freq sample_rate;
  }

  unfoldable pub set_crossover_params : Slope → d.Carrier → d.Carrier → CrossOver → CrossOver
  unfolding set_stereo_params
  set_crossover_params slope freq sample_rate c = record {
    slope = slope;
    lp = set_stereo_params FilterType.low_pass slope freq sample_rate c.lp;
    hp = set_stereo_params FilterType.high_pass slope freq sample_rate c.hp;
    ap = set_stereo_params FilterType.all_pass slope freq sample_rate c.ap;
  }

  unfoldable pub reset_crossover : CrossOver → CrossOver
  unfolding reset_stereo
  reset_crossover c = record c {
    lp = reset_stereo c.lp;
    hp = reset_stereo c.hp;
    ap = reset_stereo c.ap;
  }

  -- What a sample leaves in the four output references.
  pub record Split : Type 0 where
    pub lp_l : d.Carrier
    pub lp_r : d.Carrier
    pub hp_l : d.Carrier
    pub hp_r : d.Carrier

  unfoldable pub process_crossover : d.Carrier → d.Carrier → CrossOver → Option (CrossOver × Split)
  unfolding process_stereo
  process_crossover in_l in_r c = do
    (lp, lp_l, lp_r) ← process_stereo in_l in_r c.lp
    (hp, hp_l, hp_r) ← process_stereo in_l in_r c.hp
    some (
      record c { lp = lp; hp = hp },
      record { lp_l = lp_l; lp_r = lp_r; hp_l = hp_l; hp_r = hp_r },
    )
