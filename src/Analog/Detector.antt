-- ===== src/Analog/Detector.antt =====
-- analog/models/sidechain/RectifierDetector.h and .cpp, and EnvelopeUtils.h: a rectifier and an envelope
-- follower, with a fixed release or with two parallel branches.
pub mod Config
mod Tests
use phu_audio_lib.Base.{ℤ, pos, negsuc, Bool, if◌then◌else◌}
use phu_audio_lib.Double.{Double}
use phu_audio_lib.Analog.Elements.{nought, one}
use phu_audio_lib.Analog.TubeStage.{sample_to_volts}

pub data TimingKind : Type 0 where
  fixed : TimingKind
  auto_release : TimingKind

module _ (d : Double) where
  unfoldable pub compute_alpha : d.Carrier → d.Carrier → d.Carrier
  compute_alpha tau_sec sample_rate = d.exp (d.div (d.lit (negsuc 0) 1) (d.mul tau_sec sample_rate))

  pub record DetectorConfig : Type 0 where
    pub kind : TimingKind
    pub attack_sec : d.Carrier
    pub release_sec : d.Carrier
    pub fast_release_sec : d.Carrier
    pub slow_release_sec : d.Carrier

  pub record RectifierDetector : Type 0 where
    pub config : DetectorConfig
    pub alpha_attack : d.Carrier
    pub alpha_release : d.Carrier
    pub alpha_fast : d.Carrier
    pub alpha_slow : d.Carrier
    pub cv_fast : d.Carrier
    pub cv_slow : d.Carrier
    pub cv : d.Carrier
    pub kind : TimingKind

  unfoldable pub new_detector : DetectorConfig → RectifierDetector
  new_detector cfg =
      let o = nought d in
      record {
        config = cfg;
        alpha_attack = o;
        alpha_release = o;
        alpha_fast = o;
        alpha_slow = o;
        cv_fast = o;
        cv_slow = o;
        cv = o;
        kind = fixed;
      }

  -- The coefficients of the release, by the kind.
  prepare_release : TimingKind → d.Carrier → RectifierDetector → RectifierDetector
  unfolding compute_alpha
  prepare_release fixed sample_rate s = record s {
    alpha_release = compute_alpha s.config.release_sec sample_rate;
  }
  prepare_release auto_release sample_rate s = record s {
    alpha_fast = compute_alpha s.config.fast_release_sec sample_rate;
    alpha_slow = compute_alpha s.config.slow_release_sec sample_rate;
  }

  unfoldable pub prepare : d.Carrier → RectifierDetector → RectifierDetector
  unfolding prepare_release
  prepare sample_rate s = prepare_release s.config.kind sample_rate (record s {
    kind = s.config.kind;
    alpha_attack = compute_alpha s.config.attack_sec sample_rate;
  })

  unfoldable pub reset : RectifierDetector → RectifierDetector
  reset s = record s { cv = nought d; cv_fast = nought d; cv_slow = nought d }

  unfoldable pub set_config : DetectorConfig → RectifierDetector → RectifierDetector
  set_config cfg s = record s { config = cfg }

  -- alpha * cv + (1 - alpha) * rect
  smooth : d.Carrier → d.Carrier → d.Carrier → d.Carrier
  smooth alpha cv rect = d.to_float (d.add (d.mul alpha cv) (d.mul (d.sub (one d) alpha) rect))

  -- The envelope of a rectified sample, by the cached kind. `std::max(a, b)` is `a < b ? b : a`.
  follow : TimingKind → d.Carrier → RectifierDetector → RectifierDetector
  unfolding smooth
  follow fixed rect s =
      let alpha = if d.lt s.cv rect then s.alpha_attack else s.alpha_release in
      record s { cv = smooth alpha s.cv rect }
  follow auto_release rect s =
      let fast =
        if d.lt s.cv_fast rect
        then smooth s.alpha_attack s.cv_fast rect
        else d.to_float (d.mul s.alpha_fast s.cv_fast) in
      let slow = smooth s.alpha_slow s.cv_slow rect in
      record s { cv_fast = fast; cv_slow = slow; cv = if d.lt fast slow then slow else fast }

  unfoldable pub process_sample : d.Carrier → RectifierDetector → RectifierDetector × d.Carrier
  unfolding follow
  process_sample sample s =
      let next = follow s.kind (d.abs (sample_to_volts d sample)) s in (next, next.cv)

  unfoldable pub control_voltage : RectifierDetector → d.Carrier
  control_voltage s = s.cv
