-- ===== src/Analog/Transformer/Reset.antt =====
-- analog/models/transformer/TransformerLinear.cpp: what `prepare` leaves of the past.
use phu_audio_lib.Base.{◌≡◌, refl, ◌∙◌, List, [], ◌∷◌}
use phu_audio_lib.Double.{Double}
use phu_audio_lib.Analog.Transformer.{TransformerLinear, prepare, reset, process_sample}

module _ (d : Double) where
  pub data Call : Type 0 where
    prepare_at : d.Carrier → Call
    reset_state : Call
    sample_in : d.Carrier → Call

  pub perform : Call → TransformerLinear d → TransformerLinear d
  perform (prepare_at rate) s = prepare d rate s
  perform reset_state s = reset d s
  perform (sample_in sample) s = (process_sample d sample s).0

  pub run : List Call → TransformerLinear d → TransformerLinear d
  unfolding perform
  run [] s = s
  run (call ∷ calls) s = run calls (perform call s)

  prepare-perform :
      (rate : d.Carrier) (call : Call) (s : TransformerLinear d)
      → prepare d rate (perform call s) ≡ prepare d rate s
  unfolding perform prepare reset process_sample
  prepare-perform rate (prepare_at other) s = refl
  prepare-perform rate call s = refl

  -- After any samples, resets and calls of `prepare` at other rates, a call of `prepare` gives the state
  -- that it would have given before all of them.
  pub prepare-run :
      (rate : d.Carrier) (calls : List Call) (s : TransformerLinear d)
      → prepare d rate (run calls s) ≡ prepare d rate s
  unfolding run
  prepare-run rate [] s = refl
  prepare-run rate (call ∷ calls) s =
      prepare-run rate calls (perform call s) ∙ prepare-perform rate call s
