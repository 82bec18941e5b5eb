-- ===== src/Analog/VariableMu/Tests.antt =====
-- analog/models/VariableMuStage.cpp at a concrete stage, in integers.
use phu_audio_lib.Base.{◌≡◌, pos, negsuc, List, [], ◌∷◌}
use phu_audio_lib.Double.Integers.{integers}
use phu_audio_lib.Analog.VariableMu.{VariableMuStage, default_mu_config, new_stage, prepare, reset}
use phu_audio_lib.Analog.VariableMu.Reset.{Call, run, reset-run}

abbrev stage : VariableMuStage integers
stage = prepare integers (pos 48000) (new_stage integers (default_mu_config integers))

abbrev calls : List (Call integers)
calls = Call.sample_in (negsuc 1) ∷ Call.cv_in (pos 3) ∷ Call.sample_in (pos 1) ∷ []

forgets_calls :
    reset integers (run integers calls stage)
    ≡ record (reset integers stage) { nr = (run integers calls stage).nr }
forgets_calls = reset-run integers calls stage
