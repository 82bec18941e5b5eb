-- ===== src/Analog/TubeStage/Tests.antt =====
-- analog/models/TubeStage.cpp at concrete inputs, in integers.
use phu_audio_lib.Base.{◌≡◌, pos, negsuc, [], ◌∷◌}
use phu_audio_lib.Double.Integers.{integers}
use phu_audio_lib.Analog.TubeStage.{TubeStageConfig, default_config, new_stage, prepare, reset}
use phu_audio_lib.Analog.TubeStage.Point.{
  prepare_at, reset_state, sample_in, run, outputs, outputs-reset,
}

-- A stage with a capacitor at the cathode.
abbrev config : TubeStageConfig integers
config = record (default_config integers) { ck = pos 2 }

outputs-reset_example :
    outputs integers (pos 2 ∷ negsuc 0 ∷ []) (
      prepare integers (pos 1) (
        reset integers (
          run integers
            (prepare_at (pos 4) ∷ sample_in (pos 3) ∷ reset_state ∷ sample_in (pos 1) ∷ [])
            (new_stage integers config))))
    ≡ outputs integers
        (pos 2 ∷ negsuc 0 ∷ [])
        (prepare integers (pos 1) (new_stage integers config))
outputs-reset_example =
    outputs-reset integers config
      (prepare_at (pos 4) ∷ sample_in (pos 3) ∷ reset_state ∷ sample_in (pos 1) ∷ []) (pos 1)
      (pos 2 ∷ negsuc 0 ∷ [])
