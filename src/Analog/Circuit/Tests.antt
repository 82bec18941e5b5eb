-- ===== src/Analog/Circuit/Tests.antt =====
-- analog/circuit/Circuit.cpp at concrete inputs, in integers.
use phu_audio_lib.Base.{
  ◌+◌, ◌≡◌, refl, ℤ, pos, arith, true, List, [], ◌∷◌, ltb, if◌then◌else◌, length,
}
use phu_audio_lib.Base.{◌+ℤ◌, ◌-ℤ◌, ◌*ℤ◌}
use phu_audio_lib.Analog.Elements.{stamp_conductance, stamp_voltage_source_kcl}
use phu_audio_lib.Double.Integers.{integers}
use phu_audio_lib.Analog.Elements.Symmetry.{IsSymmetric}
use phu_audio_lib.Analog.Lu.{lu_factor}
use phu_audio_lib.Analog.Lu.Pivots.{count, lu_factor-pivots}
use phu_audio_lib.Analog.Circuit.{Circuit, new_circuit, node_voltage}
use phu_audio_lib.Analog.Circuit.Calls.{IsNode, Call, run}
use phu_audio_lib.Analog.Circuit.Symmetry.{run-IsSymmetric}

-- Rows 0 and 1 are swapped, since 4 is the largest value of column 0.
abbrev matrix : List ℤ
matrix = pos 1 ∷ pos 2 ∷ pos 4 ∷ pos 4 ∷ []

lu_factor_swaps :
    lu_factor integers 2 matrix ≡ ((pos 4 ∷ pos 4 ∷ pos 0 ∷ pos 2 ∷ [], 1 ∷ 0 ∷ []), true)
unfolding lu_factor ◌+ℤ◌ ◌-ℤ◌ ◌*ℤ◌
lu_factor_swaps = refl

lu_factor-pivots_example :
    (length (lu_factor integers 2 matrix).0.1 ≡ 2)
    × (count 1 (lu_factor integers 2 matrix).0.1 ≡ (if ltb 1 2 then 1 else 0))
lu_factor-pivots_example = lu_factor-pivots integers 2 matrix 1

-- A divider of two equal resistors behind a source of 10 V.
abbrev divider : List (Call integers)
divider =
    Call.resistor (pos 1) (pos 1) (pos 2)
    ∷ Call.resistor (pos 1) (pos 2) (pos 0)
    ∷ Call.voltage_source 0 (pos 1) (pos 0)
    ∷ Call.prepare_at (pos 1)
    ∷ Call.begin
    ∷ Call.set_voltage 0 (pos 10)
    ∷ Call.solve_step
    ∷ []

abbrev divided : Circuit integers
divided = run integers divider (new_circuit integers 2 1)

divider_voltages :
    (node_voltage integers (pos 1) divided ≡ pos 10)
    × (node_voltage integers (pos 2) divided ≡ pos 5)
unfolding run new_circuit node_voltage stamp_voltage_source_kcl stamp_conductance ◌+ℤ◌ ◌-ℤ◌ ◌*ℤ◌
divider_voltages = (refl, refl)

run-IsSymmetric_example :
    IsSymmetric integers (2 + 1) (run integers divider (new_circuit integers 2 1)).a_base
run-IsSymmetric_example =
    let zero_node : IsNode 2 (pos 0) = record {
      index = 0;
      is_index = refl;
      inside = omega arith;
    } in
    let first : IsNode 2 (pos 1) = record { index = 1; is_index = refl; inside = omega arith } in
    let second : IsNode 2 (pos 2) = record { index = 2; is_index = refl; inside = omega arith } in
    run-IsSymmetric integers 2 1 divider (
      (first, second),
      ((second, zero_node), ((omega arith, first, zero_node), (tt, (tt, (omega arith, (tt, tt)))))),
    )
