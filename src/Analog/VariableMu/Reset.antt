-- ===== src/Analog/VariableMu/Reset.antt =====
-- analog/models/VariableMuStage.cpp: what `reset` leaves of the past.
use phu_audio_lib.Base.{◌≡◌, refl, ◌∙◌, ap, List, [], ◌∷◌}
use phu_audio_lib.Double.{Double}
use phu_audio_lib.Analog.Elements.{prepare_capacitor}
use phu_audio_lib.Analog.Newton.{NrPolicy}
use phu_audio_lib.Analog.VariableMu.{
  VariableMuStage, update_companion, reset, set_cv, process_sample,
}

module _ (d : Double) where
  pub data Call : Type 0 where
    sample_in : d.Carrier → Call
    cv_in : d.Carrier → Call
    reset_state : Call

  pub perform : Call → VariableMuStage d → VariableMuStage d
  perform (sample_in sample) s = (process_sample d sample s).0
  perform (cv_in cv) s = set_cv d cv s
  perform reset_state s = reset d s

  pub run : List Call → VariableMuStage d → VariableMuStage d
  unfolding perform
  run [] s = s
  run (call ∷ calls) s = run calls (perform call s)

  abbrev with_nr : NrPolicy d → VariableMuStage d → VariableMuStage d
  with_nr nr s = record s { nr = nr }

  reset_self : (s : VariableMuStage d) → reset d s ≡ with_nr s.nr (reset d s)
  unfolding reset update_companion
  reset_self s = refl

  reset-perform :
      (call : Call) (s : VariableMuStage d)
      → reset d (perform call s) ≡ with_nr (perform call s).nr (reset d s)
  unfolding perform reset update_companion set_cv process_sample prepare_capacitor
  reset-perform (sample_in sample) s = refl
  reset-perform (cv_in cv) s = refl
  reset-perform reset_state s = refl

  -- After any samples, control voltages and resets, `reset` gives the same state as a `reset` before all of
  -- them, but for the iteration counter of a debug build.
  pub reset-run :
      (calls : List Call) (s : VariableMuStage d)
      → reset d (run calls s) ≡ record (reset d s) { nr = (run calls s).nr }
  unfolding run
  reset-run [] s = reset_self s
  reset-run (call ∷ calls) s =
      reset-run calls (perform call s)
      ∙ ap (with_nr (run calls (perform call s)).nr) (reset-perform call s)
