-- ===== src/Analog/Circuit/Calls.antt =====
-- analog/circuit/Circuit.h: a client's calls, one after the other, under the assertions of the code.
use phu_audio_lib.Base.{ℕ, ◌≤◌, ◌<◌, ℤ, pos, ◌≡◌, List, [], ◌∷◌}
use phu_audio_lib.Double.{Double}
use phu_audio_lib.Analog.Circuit.{
  Circuit, stamp_resistor, stamp_capacitor, stamp_voltage_source, stamp_inductor,
  stamp_coupled_inductors, prepare, reset, begin_step, set_voltage_source_value, inject_current,
  solve,
}

-- A node that the circuit has, 0 for ground.
pub record IsNode (nodes : ℕ) (node : ℤ) : Type 0 where
  pub index : ℕ
  pub is_index : node ≡ pos index
  pub inside : index ≤ nodes

module _ (d : Double) where
  pub data Call : Type 0 where
    resistor : d.Carrier → ℤ → ℤ → Call
    capacitor : d.Carrier → ℤ → ℤ → Call
    voltage_source : ℕ → ℤ → ℤ → Call
    inductor : d.Carrier → ℤ → ℤ → Call
    coupled_inductors : d.Carrier → d.Carrier → d.Carrier → ℤ → ℤ → ℤ → ℤ → Call
    prepare_at : d.Carrier → Call
    reset_state : Call
    begin : Call
    set_voltage : ℕ → d.Carrier → Call
    inject : ℤ → d.Carrier → Call
    solve_step : Call

  unfoldable pub perform : Call → Circuit d → Circuit d
  unfolding stamp_resistor stamp_capacitor stamp_voltage_source stamp_inductor
      stamp_coupled_inductors prepare reset begin_step set_voltage_source_value inject_current solve
  perform (resistor ohms p n) c = stamp_resistor d ohms p n c
  perform (capacitor farads p n) c = (stamp_capacitor d farads p n c).0
  perform (voltage_source i p n) c = stamp_voltage_source d i p n c
  perform (inductor henries p n) c = (stamp_inductor d henries p n c).0
  perform (coupled_inductors l1 l2 m p1 n1 p2 n2) c =
      (stamp_coupled_inductors d l1 l2 m p1 n1 p2 n2 c).0
  perform (prepare_at rate) c = prepare d rate c
  perform reset_state c = reset d c
  perform begin c = begin_step d c
  perform (set_voltage i volts) c = set_voltage_source_value d i volts c
  perform (inject node amps) c = inject_current d node amps c
  perform solve_step c = (solve d c).0

  unfoldable pub run : List Call → Circuit d → Circuit d
  unfolding perform
  run [] c = c
  run (call ∷ calls) c = run calls (perform call c)

  -- The nodes and the sources of a call are those of the circuit.
  abbrev pub IsCall : ℕ → ℕ → Call → Type 0
  IsCall n v (resistor ohms p q) = IsNode n p × IsNode n q
  IsCall n v (capacitor farads p q) = IsNode n p × IsNode n q
  IsCall n v (voltage_source i p q) = (i < v) × IsNode n p × IsNode n q
  IsCall n v (inductor henries p q) = IsNode n p × IsNode n q
  IsCall n v (coupled_inductors l1 l2 m p1 q1 p2 q2) =
      IsNode n p1 × IsNode n q1 × IsNode n p2 × IsNode n q2
  IsCall n v (prepare_at rate) = Unit
  IsCall n v reset_state = Unit
  IsCall n v begin = Unit
  IsCall n v (set_voltage i volts) = i < v
  IsCall n v (inject node amps) = IsNode n node
  IsCall n v solve_step = Unit
