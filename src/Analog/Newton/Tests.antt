-- ===== src/Analog/Newton/Tests.antt =====
-- analog/nonlinear/NR.h at concrete inputs, in integers.
use phu_audio_lib.Base.{
  ℕ, ◌+◌, ◌%◌, ◌^◌, ◌≤◌, ◌≡◌, refl, inl, inr, ℤ, pos, ◌+ℤ◌, ◌-ℤ◌, ◌*ℤ◌, Bool, true, false, none,
  some, Option, List, [], ◌∷◌, quot, map, length-map, arith,
}
use phu_audio_lib.Double.Integers.{integers}
use phu_audio_lib.Double.Nan.{with_nan, with_nan-NanLaws}
use phu_audio_lib.Analog.Newton.{NrPolicy, solve}
use phu_audio_lib.Analog.Newton.Fallback.{solve_ends}
use phu_audio_lib.Analog.Newton.NotANumber.{solve_keeps_nan}

abbrev policy : NrPolicy integers
policy = record {
  config = record {
    max_iterations = pos 10;
    convergence_tol = pos 1;
    damping_factor = pos 1;
    max_delta_v = pos 0;
  };
  total_iterations = 7;
}

-- Halves each element, and counts its calls.
abbrev halve : ℕ → List ℤ → ℕ × List ℤ × Bool
halve calls xs = (calls + 1, map (λ x. quot x (pos 2)) xs, true)

halving :
    (solve integers halve policy 0 (pos 4 ∷ pos 1 ∷ [])).1.result
    ≡ record { converged = true; iterations = 2 }
unfolding solve ◌+ℤ◌ ◌-ℤ◌ ◌*ℤ◌
halving = refl

-- With no tolerance nothing converges.
abbrev short_policy : NrPolicy integers
short_policy = record policy {
  config = record policy.config { max_iterations = pos 2; convergence_tol = pos 0 };
}

giving_up : (solve integers halve short_policy 0 (pos 8 ∷ [])).1 ≡ record {
  env = 2;
  x = pos 8 ∷ [];
  result = record { converged = false; iterations = 2 };
  total = 9;
}
unfolding solve ◌+ℤ◌ ◌-ℤ◌ ◌*ℤ◌
giving_up = refl

solve_ends_example :
    ((solve integers halve short_policy 0 (pos 8 ∷ [])).1.result.iterations ≤ 2)
    × ((solve integers halve short_policy 0 (pos 8 ∷ [])).1.result.converged ≡ false
        → (solve integers halve short_policy 0 (pos 8 ∷ [])).1.x ≡ pos 8 ∷ [])
    × ((solve integers halve short_policy 0 (pos 8 ∷ [])).1.result.converged ≡ true
        → 1 ≤ (solve integers halve short_policy 0 (pos 8 ∷ [])).1.result.iterations)
    × ((solve integers halve short_policy 0 (pos 8 ∷ [])).0 ≡ record short_policy {
      total_iterations =
          (7 + (solve integers halve short_policy 0 (pos 8 ∷ [])).1.result.iterations) % 2 ^ 32;
    })
solve_ends_example = solve_ends integers halve short_policy 0 (pos 8 ∷ []) (omega arith)

abbrev nan_policy : NrPolicy (with_nan integers)
nan_policy = record {
  config = record {
    max_iterations = pos 10;
    convergence_tol = some (pos 1);
    damping_factor = some (pos 1);
    max_delta_v = some (pos 0);
  };
  total_iterations = 0;
}

-- A callback whose every result is zero.
abbrev zeros : ℕ → List (Option ℤ) → ℕ × List (Option ℤ) × Bool
zeros calls xs = (calls + 1, map (λ (x : Option ℤ). some (pos 0)) xs, true)

solve_keeps_nan_example :
    ((solve (with_nan integers) zeros nan_policy 0 (some (pos 3) ∷ none ∷ [])).1.result.converged
      ≡ false)
    × ((solve (with_nan integers) zeros nan_policy 0 (some (pos 3) ∷ none ∷ [])).1.x
        ≡ some (pos 3) ∷ none ∷ [])
solve_keeps_nan_example =
    solve_keeps_nan (with_nan integers) (λ x. x ≡ none) (with_nan-NanLaws integers) zeros
      (λ calls xs. length-map xs (λ (x : Option ℤ). some (pos 0))) nan_policy 0
      (some (pos 3) ∷ none ∷ []) (inr (inl refl))
