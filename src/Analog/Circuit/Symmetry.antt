-- ===== src/Analog/Circuit/Symmetry.antt =====
-- analog/circuit/Circuit.cpp: the matrix and its transpose, through all calls.
use phu_audio_lib.Base.{
  ℕ, ◌+◌, ◌≡◌, refl, subst, ◌∙◌, arith, List, [], ◌∷◌, ◌++◌, map, Bool-cases, inl, inr, All,
  All-append, All-map,
}
use phu_audio_lib.Double.{Double}
use phu_audio_lib.Analog.Elements.Symmetry.{
  IsSymmetric, stamp_conductance-IsSymmetric, stamp_voltage_source_kcl-IsSymmetric,
}
use phu_audio_lib.Analog.Circuit.{
  Circuit, CapRecord, IndRecord, CoupledRecord, size_of, new_circuit, stamp_resistor,
  stamp_capacitor, stamp_voltage_source, stamp_inductor, stamp_coupled_inductors, restamp, prepare,
  reset, begin_step, set_voltage_source_value, inject_current, solve, update_cap, update_ind,
  update_pair,
}
use phu_audio_lib.Analog.Circuit.Wiring.{
  CapIsInside, IndIsInside, CoupledIsInside, Wiring, IsWired, new_circuit-IsWired, restamp-IsWired,
  inside,
}
use phu_audio_lib.Analog.Circuit.Calls.{Call, perform, run, IsCall}

appended {ℓ} :
    {A : Type ℓ} (P : A → Type 0) (xs : List A) {x : A} → All P xs → P x → All P (xs ++ x ∷ [])
appended P xs {x} h g = All-append P xs (x ∷ []) h (g, tt)

module _ (d : Double) where
  map-Wiring :
      (size : ℕ) {a : List d.Carrier} (caps : List (CapRecord d)) (inductors : List (IndRecord d))
      (coupled : List (CoupledRecord d)) (f : CapRecord d → CapRecord d)
      (g : IndRecord d → IndRecord d) (h : CoupledRecord d → CoupledRecord d)
      → ((r : CapRecord d) → CapIsInside d size r → CapIsInside d size (f r))
      → ((r : IndRecord d) → IndIsInside d size r → IndIsInside d size (g r))
      → ((r : CoupledRecord d) → CoupledIsInside d size r → CoupledIsInside d size (h r))
      → Wiring d size a caps inductors coupled
      → Wiring d size a (map f caps) (map g inductors) (map h coupled)
  map-Wiring size caps inductors coupled f g h kf kg kh w = record {
    symmetric = w.symmetric;
    caps_inside = All-map (CapIsInside d size) (CapIsInside d size) f caps kf w.caps_inside;
    inductors_inside =
        All-map (IndIsInside d size) (IndIsInside d size) g inductors kg w.inductors_inside;
    coupled_inside =
        All-map (CoupledIsInside d size) (CoupledIsInside d size) h coupled kh w.coupled_inside;
  }

  reset-IsWired : (c : Circuit d) → IsWired d c → IsWired d (reset d c)
  unfolding reset
  reset-IsWired c w =
      map-Wiring (size_of d c) c.caps c.inductors c.coupled _ _ _ (λ r h. h) (λ r h. h) (λ r h. h) w

  solve-IsWired : (c : Circuit d) → IsWired d c → IsWired d (solve d c).0
  unfolding solve update_cap update_ind update_pair
  solve-IsWired c w = elim (Bool-cases c.factorized) [
    | inl ready ↦ simp ready (
        map-Wiring (size_of d c) c.caps c.inductors c.coupled _ _ _ (λ r h. h) (λ r h. h) (λ r h. h)
          w)
    | inr unready ↦ simp unready w
  ]

  with_matrix :
      {size : ℕ} {a a' : List d.Carrier} {caps : List (CapRecord d)}
      {inductors : List (IndRecord d)} {coupled : List (CoupledRecord d)}
      → Wiring d size a caps inductors coupled
      → IsSymmetric d size a'
      → Wiring d size a' caps inductors coupled
  with_matrix w sm = record {
    symmetric = sm;
    caps_inside = w.caps_inside;
    inductors_inside = w.inductors_inside;
    coupled_inside = w.coupled_inside;
  }

  with_records :
      {size : ℕ} {a : List d.Carrier} {caps caps' : List (CapRecord d)}
      {inductors inductors' : List (IndRecord d)} {coupled coupled' : List (CoupledRecord d)}
      → Wiring d size a caps inductors coupled
      → All (CapIsInside d size) caps'
      → All (IndIsInside d size) inductors'
      → All (CoupledIsInside d size) coupled'
      → Wiring d size a caps' inductors' coupled'
  with_records w h g k = record {
    symmetric = w.symmetric;
    caps_inside = h;
    inductors_inside = g;
    coupled_inside = k;
  }

  perform-IsWired :
      (call : Call d) (c : Circuit d)
      → IsCall d c.nodes c.sources call
      → IsWired d c
      → IsWired d (perform d call c)
  unfolding perform stamp_resistor stamp_capacitor stamp_voltage_source stamp_inductor
      stamp_coupled_inductors prepare begin_step set_voltage_source_value inject_current
  perform-IsWired (Call.resistor ohms p q) c (hp, hq) w = with_matrix w (
      stamp_conductance-IsSymmetric d (size_of d c) _ p q (inside d c hp) (inside d c hq)
        w.symmetric)
  perform-IsWired (Call.capacitor farads p q) c (hp, hq) w =
      with_records w
        (appended (CapIsInside d (size_of d c)) c.caps w.caps_inside (inside d c hp, inside d c hq))
        w.inductors_inside w.coupled_inside
  perform-IsWired (Call.voltage_source i p q) c (hi, hp, hq) w = with_matrix w (
      stamp_voltage_source_kcl-IsSymmetric d (size_of d c) (c.nodes + i) p q (omega arith)
        (inside d c hp) (inside d c hq) w.symmetric)
  perform-IsWired (Call.inductor henries p q) c (hp, hq) w =
      with_records w w.caps_inside
        (appended (IndIsInside d (size_of d c)) c.inductors w.inductors_inside
          (inside d c hp, inside d c hq))
        w.coupled_inside
  perform-IsWired (Call.coupled_inductors l1 l2 m p1 q1 p2 q2) c (h1, h2, h3, h4) w =
      with_records w w.caps_inside w.inductors_inside (
        appended (CoupledIsInside d (size_of d c)) c.coupled w.coupled_inside
          (inside d c h1, inside d c h2, inside d c h3, inside d c h4))
  perform-IsWired (Call.prepare_at rate) c h w = restamp-IsWired d rate c w
  perform-IsWired Call.reset_state c h w = reset-IsWired c w
  perform-IsWired Call.begin c h w = w
  perform-IsWired (Call.set_voltage i volts) c h w = w
  perform-IsWired (Call.inject node amps) c h w = w
  perform-IsWired Call.solve_step c h w = solve-IsWired c w

  perform-nodes :
      (call : Call d) (c : Circuit d)
      → ((perform d call c).nodes ≡ c.nodes) × ((perform d call c).sources ≡ c.sources)
  unfolding perform stamp_resistor stamp_capacitor stamp_voltage_source stamp_inductor
      stamp_coupled_inductors prepare restamp reset begin_step set_voltage_source_value
      inject_current solve
  perform-nodes (Call.resistor ohms p q) c = (refl, refl)
  perform-nodes Call.solve_step c = ground arith
  perform-nodes call c = (refl, refl)

  run-IsWired :
      (calls : List (Call d)) (c : Circuit d)
      → All (IsCall d c.nodes c.sources) calls
      → IsWired d c
      → IsWired d (run d calls c)
  unfolding run
  run-IsWired [] c h w = w
  run-IsWired (call ∷ calls) c h w =
      let (en, ev) = perform-nodes call c in
      run-IsWired calls (perform d call c) (rw (en, ev) h.1) (perform-IsWired call c h.0 w)

  run-nodes :
      (calls : List (Call d)) (c : Circuit d)
      → ((run d calls c).nodes ≡ c.nodes) × ((run d calls c).sources ≡ c.sources)
  unfolding run
  run-nodes [] c = (refl, refl)
  run-nodes (call ∷ calls) c =
      let (en, ev) = perform-nodes call c in
      let (en', ev') = run-nodes calls (perform d call c) in (en' ∙ en, ev' ∙ ev)

  ap_size :
      (c c' : Circuit d)
      → (c'.nodes ≡ c.nodes) × (c'.sources ≡ c.sources)
      → size_of d c' ≡ size_of d c
  ap_size c c' (en, ev) = omega (arith, en, ev)

  -- After any calls with the circuit's own nodes and sources, on a new circuit, the matrix that the
  -- factorisation reads has its size and equals its transpose bit for bit, whatever the floating-point
  -- operations round to.
  pub run-IsSymmetric :
      (n v : ℕ) (calls : List (Call d))
      → All (IsCall d n v) calls
      → IsSymmetric d (n + v) (run d calls (new_circuit d n v)).a_base
  unfolding new_circuit
  run-IsSymmetric n v calls h =
      let e =
        ap_size (new_circuit d n v) (run d calls (new_circuit d n v))
          (run-nodes calls (new_circuit d n v)) in
      let w = run-IsWired calls (new_circuit d n v) h (new_circuit-IsWired d n v) in
      subst (λ size. IsSymmetric d size (run d calls (new_circuit d n v)).a_base) e w.symmetric
