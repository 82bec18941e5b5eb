-- ===== src/Analog/TubeStage/Point.antt =====
-- analog/models/TubeStage.cpp: what a stage that is reset keeps of its past.
use phu_audio_lib.Base.{
  ◌≡◌, refl, sym, ap, ◌∙◌, false, arith, Bool-cases, inl, inr, List, [], ◌∷◌, get_or, if◌then◌else◌,
}
use phu_audio_lib.Double.{Double}
use phu_audio_lib.Analog.Elements.{nought, prepare_capacitor, reset_capacitor, update_capacitor}
use phu_audio_lib.Analog.Newton.{NrPolicy, solve}
use phu_audio_lib.Analog.Newton.Fallback.{solve-total}
use phu_audio_lib.Analog.TubeStage.{
  TubeStageConfig, TubeStage, new_stage, prepare, reset, step_of, process_sample, volts_to_sample,
}

module _ (d : Double) where
  pub data Call : Type 0 where
    prepare_at : d.Carrier → Call
    reset_state : Call
    sample_in : d.Carrier → Call

  pub perform : Call → TubeStage d → TubeStage d
  perform (prepare_at rate) s = prepare d rate s
  perform reset_state s = reset d s
  perform (sample_in sample) s = (process_sample d sample s).0

  pub run : List Call → TubeStage d → TubeStage d
  unfolding perform
  run [] s = s
  run (call ∷ calls) s = run calls (perform call s)

  -- The samples that come out of a stage.
  pub outputs : List d.Carrier → TubeStage d → List d.Carrier
  unfolding process_sample
  outputs [] s = []
  outputs (sample ∷ samples) s = let r = process_sample d sample s in r.1 ∷ outputs samples r.0

  abbrev with_nr : NrPolicy d → TubeStage d → TubeStage d
  with_nr nr s = record s { nr = nr }

  -- The stage behind a sample that has led to the operating point `x`, with the policy left as it was.
  abbrev moved : List d.Carrier → TubeStage d → TubeStage d
  moved x s = record s {
    x = x;
    cap_k =
        if d.lt (nought d) s.config.ck
        then update_capacitor d (get_or x 1 (nought d)) s.cap_k
        else s.cap_k;
  }

  outputs-with_nr :
      (samples : List d.Carrier) (s : TubeStage d) (nr nr' : NrPolicy d)
      → nr.config ≡ nr'.config
      → outputs samples (with_nr nr s) ≡ outputs samples (with_nr nr' s)
  unfolding outputs
  outputs-with_nr [] s nr nr' e = refl
  outputs-with_nr (sample ∷ samples) s nr nr' e =
      let out = solve d (step_of d sample s) nr tt s.x in
      let out' = solve d (step_of d sample s) nr' tt s.x in
      let same : out.1.x ≡ out'.1.x = solve-total d (step_of d sample s) nr nr' tt s.x e in
      ap
        (λ (x : List d.Carrier).
          volts_to_sample d (d.to_float (get_or x 0 (nought d)))
          ∷ outputs samples (with_nr out.0 (moved x s)))
        same
      ∙ ap
          (λ (rest : List d.Carrier).
            volts_to_sample d (d.to_float (get_or out'.1.x 0 (nought d))) ∷ rest)
          (outputs-with_nr samples (moved out'.1.x s) out.0 out'.0 e)

  -- What calls leave as it was in a new stage.
  record IsKept (cfg : TubeStageConfig d) (s : TubeStage d) : Type 0 where
    config : s.config ≡ cfg
    policy : s.nr.config ≡ cfg.nr
    farads : s.cap_k.farads ≡ cfg.ck
    unfitted : d.lt (nought d) cfg.ck ≡ false → s.cap_k.geq ≡ nought d

  perform-IsKept :
      (cfg : TubeStageConfig d) (call : Call) (s : TubeStage d)
      → IsKept cfg s
      → IsKept cfg (perform call s)
  unfolding perform prepare reset process_sample solve prepare_capacitor reset_capacitor
      update_capacitor
  perform-IsKept cfg (prepare_at rate) s h = ground arith
  perform-IsKept cfg reset_state s h = ground arith
  perform-IsKept cfg (sample_in sample) s h = ground arith

  run-IsKept :
      (cfg : TubeStageConfig d) (calls : List Call) (s : TubeStage d)
      → IsKept cfg s
      → IsKept cfg (run calls s)
  unfolding run
  run-IsKept cfg [] s h = h
  run-IsKept cfg (call ∷ calls) s h = run-IsKept cfg calls _ (perform-IsKept cfg call s h)

  new_stage-IsKept : (cfg : TubeStageConfig d) → IsKept cfg (new_stage d cfg)
  unfolding new_stage
  new_stage-IsKept cfg = record {
    config = refl;
    policy = refl;
    farads = refl;
    unfitted = λ e. refl;
  }

  prepare-reset_lem :
      (cfg : TubeStageConfig d) (rate : d.Carrier) (s : TubeStage d)
      → IsKept cfg s
      → prepare d rate (reset d s) ≡ with_nr s.nr (prepare d rate (new_stage d cfg))
  unfolding prepare reset new_stage prepare_capacitor reset_capacitor
  prepare-reset_lem cfg rate s h = elim (Bool-cases (d.lt (nought d) cfg.ck)) [
    | inl fitted ↦ ground arith
    | inr unfitted ↦ ground arith
  ]

  -- After any calls of prepare, reset and processSample on a new stage, `reset` and `prepare` leave nothing of
  -- them: for all samples that follow, the stage gives out what a new stage prepared at the same rate gives out.
  pub outputs-reset :
      (cfg : TubeStageConfig d) (calls : List Call) (rate : d.Carrier) (samples : List d.Carrier)
      → outputs samples (prepare d rate (reset d (run calls (new_stage d cfg))))
        ≡ outputs samples (prepare d rate (new_stage d cfg))
  outputs-reset cfg calls rate samples =
      let kept = run-IsKept cfg calls (new_stage d cfg) (new_stage-IsKept cfg) in
      let fresh = prepare d rate (new_stage d cfg) in
      let same : fresh.nr.config ≡ cfg.nr = unfold prepare new_stage in (ground arith) in
      ap (outputs samples) (prepare-reset_lem cfg rate (run calls (new_stage d cfg)) kept)
      ∙ outputs-with_nr samples fresh (run calls (new_stage d cfg)).nr fresh.nr
          (kept.policy ∙ sym same)
