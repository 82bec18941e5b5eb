-- ===== src/Analog/Circuit/Status.antt =====
-- analog/circuit/Circuit.cpp: when `solve` refuses.
use phu_audio_lib.Base.{◌≡◌, refl, Bool, true, false, List, [], ◌∷◌, All, arith}
use phu_audio_lib.Double.{Double}
use phu_audio_lib.Analog.Circuit.{
  Circuit, stamp_resistor, stamp_capacitor, stamp_voltage_source, stamp_inductor,
  stamp_coupled_inductors, reset, begin_step, set_voltage_source_value, inject_current, solve,
}
use phu_audio_lib.Analog.Circuit.Calls.{Call, perform, run}

module _ (d : Double) where
  abbrev pub is_stamp : Call d → Bool
  is_stamp (Call.resistor ohms p q) = true
  is_stamp (Call.capacitor farads p q) = true
  is_stamp (Call.voltage_source i p q) = true
  is_stamp (Call.inductor henries p q) = true
  is_stamp (Call.coupled_inductors l1 l2 m p1 q1 p2 q2) = true
  is_stamp call = false

  abbrev pub is_prepare : Call d → Bool
  is_prepare (Call.prepare_at rate) = true
  is_prepare call = false

  perform-unready :
      (call : Call d) (c : Circuit d)
      → is_prepare call ≡ false
      → c.factorized ≡ false
      → (perform d call c).factorized ≡ false
  unfolding perform stamp_resistor stamp_capacitor stamp_voltage_source stamp_inductor
      stamp_coupled_inductors reset begin_step set_voltage_source_value inject_current solve
  perform-unready (Call.prepare_at rate) c h e = cc
  perform-unready call c h e = ground arith

  run-unready :
      (calls : List (Call d)) (c : Circuit d)
      → All (λ call. is_prepare call ≡ false) calls
      → c.factorized ≡ false
      → (run d calls c).factorized ≡ false
  unfolding run
  run-unready [] c h e = e
  run-unready (call ∷ calls) c h e =
      run-unready calls (perform d call c) h.1 (perform-unready call c h.0 e)

  stamp-unready :
      (call : Call d) (c : Circuit d) → is_stamp call ≡ true → (perform d call c).factorized ≡ false
  unfolding perform stamp_resistor stamp_capacitor stamp_voltage_source stamp_inductor
      stamp_coupled_inductors
  stamp-unready (Call.resistor ohms p q) c h = refl
  stamp-unready call c h = ground arith

  -- After an element is stamped, and until the next `prepare`, each `solve` returns false and leaves the
  -- whole circuit as it was, whatever else was called in between and whether or not the circuit was
  -- ready before.
  pub solve_after_stamp :
      (c : Circuit d) (stamp : Call d) (calls : List (Call d))
      → is_stamp stamp ≡ true
      → All (λ call. is_prepare call ≡ false) calls
      → solve d (run d (stamp ∷ calls) c) ≡ (run d (stamp ∷ calls) c, false)
  unfolding solve
  solve_after_stamp c stamp calls h g =
      let e : (run d (stamp ∷ calls) c).factorized ≡ false =
        unfold run in run-unready calls (perform d stamp c) g (stamp-unready stamp c h) in
      ground arith
