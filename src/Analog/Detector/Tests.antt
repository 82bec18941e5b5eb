-- ===== src/Analog/Detector/Tests.antt =====
-- analog/models/sidechain/ at concrete inputs, in integers.
use phu_audio_lib.Base.{◌≡◌, refl, pos, negsuc, ◌+ℤ◌, ◌-ℤ◌, ◌*ℤ◌, [], ◌∷◌}
use phu_audio_lib.Double.Integers.{integers}
use phu_audio_lib.Analog.TubeStage.{sample_to_volts}
use phu_audio_lib.Analog.Detector.{
  TimingKind, DetectorConfig, RectifierDetector, new_detector, set_config, process_sample,
}
use phu_audio_lib.Analog.Detector.Config.{Call, run, run-set_config}

abbrev slow : DetectorConfig integers
slow = record {
  kind = TimingKind.auto_release;
  attack_sec = pos 1;
  release_sec = pos 2;
  fast_release_sec = pos 3;
  slow_release_sec = pos 4;
}

abbrev detector : RectifierDetector integers
detector = new_detector integers (record slow { kind = TimingKind.fixed })

config_waits :
    run integers
      (Call.sample_in (negsuc 2) ∷ Call.reset_state ∷ [])
      (set_config integers slow detector)
    ≡ (
      (run integers (Call.sample_in (negsuc 2) ∷ Call.reset_state ∷ []) detector).0,
      set_config integers slow
          (run integers (Call.sample_in (negsuc 2) ∷ Call.reset_state ∷ []) detector).1,
    )
config_waits =
    run-set_config integers slow (Call.sample_in (negsuc 2) ∷ Call.reset_state ∷ []) detector

-- With no smoothing the detector follows -3 at once, as 30 V.
follows : (process_sample integers (negsuc 2) detector).1 ≡ pos 30
unfolding process_sample new_detector sample_to_volts ◌+ℤ◌ ◌-ℤ◌ ◌*ℤ◌
follows = refl
