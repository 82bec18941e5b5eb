-- ===== src/Analog/Detector/Config.antt =====
-- analog/models/sidechain/RectifierDetector.cpp: when a new configuration takes effect.
use phu_audio_lib.Base.{◌≡◌, refl, ap, ◌∙◌, List, [], ◌∷◌}
use phu_audio_lib.Double.{Double}
use phu_audio_lib.Analog.TubeStage.{sample_to_volts}
use phu_audio_lib.Analog.Detector.{
  TimingKind, DetectorConfig, RectifierDetector, reset, set_config, follow, process_sample,
}

module _ (d : Double) where
  -- Samples, with resets between them.
  pub data Call : Type 0 where
    sample_in : d.Carrier → Call
    reset_state : Call

  -- The control voltages that come out, and the detector behind.
  pub run : List Call → RectifierDetector d → List d.Carrier × RectifierDetector d
  run [] s = ([], s)
  run (sample_in sample ∷ calls) s =
      let (s', cv) = process_sample d sample s in let (cvs, last) = run calls s' in (cv ∷ cvs, last)
  run (reset_state ∷ calls) s = run calls (reset d s)

  follow-set_config :
      (cfg : DetectorConfig d) (kind : TimingKind) (rect : d.Carrier) (s : RectifierDetector d)
      → follow d kind rect (set_config d cfg s) ≡ set_config d cfg (follow d kind rect s)
  unfolding follow set_config
  follow-set_config cfg TimingKind.fixed rect s = refl
  follow-set_config cfg TimingKind.auto_release rect s = refl

  reset-set_config :
      (cfg : DetectorConfig d) (s : RectifierDetector d)
      → reset d (set_config d cfg s) ≡ set_config d cfg (reset d s)
  unfolding reset set_config
  reset-set_config cfg s = refl

  process-set_config :
      (cfg : DetectorConfig d) (sample : d.Carrier) (s : RectifierDetector d)
      → process_sample d sample (set_config d cfg s)
        ≡ (set_config d cfg (process_sample d sample s).0, (process_sample d sample s).1)
  unfolding process_sample set_config
  process-set_config cfg sample s =
      let e = follow-set_config cfg s.kind (d.abs (sample_to_volts d sample)) s in
      unfold set_config in rw e refl

  -- Up to the next `prepare` a new configuration changes nothing: whatever samples and resets follow, the
  -- control voltages are those without it, and the detector differs in its configuration only.
  pub run-set_config :
      (cfg : DetectorConfig d) (calls : List Call) (s : RectifierDetector d)
      → run calls (set_config d cfg s) ≡ ((run calls s).0, set_config d cfg (run calls s).1)
  unfolding run
  run-set_config cfg [] s = refl
  run-set_config cfg (sample_in sample ∷ calls) s =
      rw (process-set_config cfg sample s, run-set_config cfg calls (process_sample d sample s).0)
        refl
  run-set_config cfg (reset_state ∷ calls) s =
      ap (run calls) (reset-set_config cfg s) ∙ run-set_config cfg calls (reset d s)
