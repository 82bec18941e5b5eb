-- ===== src/Analog/Newton/Fallback.antt =====
-- analog/nonlinear/NR.h: what a caller may rely on when the iteration ends.
use phu_audio_lib.Base.{
  ℕ, zero, suc, ◌+◌, ◌-◌, ◌%◌, ◌^◌, ◌<◌, ap, ◌≤◌, ◌≡◌, refl, arith, pos, pos_part, Bool, true,
  false, List,
}
use phu_audio_lib.Double.{Double}
use phu_audio_lib.Analog.Newton.{NrConfig, NrPolicy, Outcome, damp, iterate, solve}

module _ (d : Double) {S : Type 0} (step : S → List d.Carrier → S × List d.Carrier × Bool) where
  -- The bounds on the rounds, and what the iterate is behind a loop that did not converge.
  record Ends (fallback : List d.Carrier) (low high total : ℕ) (out : Outcome d step) : Type 0 where
    at_least : low ≤ out.result.iterations
    at_most : out.result.iterations ≤ high
    restored : out.result.converged ≡ false → out.x ≡ fallback
    summed : out.total ≡ (total + (out.result.iterations - low)) % 2 ^ 32
    counted : out.result.converged ≡ true → low + 1 ≤ out.result.iterations

  iterate-Ends :
      (cfg : NrConfig d) (fallback : List d.Carrier) (rounds done total : ℕ) (env : S)
      (x : List d.Carrier)
      → total < 2 ^ 32
      → Ends fallback done
          (done + rounds)
          total
          (iterate d step cfg fallback rounds done total env x)
  unfolding iterate
  iterate-Ends cfg fallback zero done total env x h = ground arith
  iterate-Ends cfg fallback (suc rounds) done total env x h =
      let (env', stepped, ok) = step env x in
      let (x', delta_l2, x_l2) = damp d cfg x stepped (d.lit (pos 0) 1) (d.lit (pos 0) 1) in
      ground (
        arith,
        iterate-Ends cfg fallback rounds (done + 1) ((total + 1) % 2 ^ 32) env' x' (omega arith),
      )

  -- Whatever the callback does, the loop ends: it takes at most `maxIterations` iterations, none where that
  -- is not positive, and adds them to the 32-bit debug counter modulo 2 ^ 32, the configuration left as it was. Without
  -- convergence the iterate is again the one at entry; with convergence there was at least one iteration.
  pub solve_ends :
      (policy : NrPolicy d) (env : S) (x : List d.Carrier)
      → policy.total_iterations < 2 ^ 32
      → ((solve d step policy env x).1.result.iterations ≤ pos_part policy.config.max_iterations)
        × ((solve d step policy env x).1.result.converged ≡ false
            → (solve d step policy env x).1.x ≡ x)
        × ((solve d step policy env x).1.result.converged ≡ true
            → 1 ≤ (solve d step policy env x).1.result.iterations)
        × ((solve d step policy env x).0 ≡ record policy {
          total_iterations =
              (policy.total_iterations + (solve d step policy env x).1.result.iterations) % 2 ^ 32;
        })
  unfolding solve
  solve_ends policy env x h =
      let ends =
        iterate-Ends policy.config x (pos_part policy.config.max_iterations) 0
          policy.total_iterations env x h in
      (
        omega (arith, ends.at_most),
        ends.restored,
        ends.counted,
        ap (λ n. record policy { total_iterations = n }) (omega (arith, ends.summed)),
      )

  iterate-restores :
      (cfg : NrConfig d) (fallback : List d.Carrier) (rounds done total : ℕ) (env : S)
      (x : List d.Carrier)
      → (iterate d step cfg fallback rounds done total env x).result.converged ≡ false
      → (iterate d step cfg fallback rounds done total env x).x ≡ fallback
  unfolding iterate
  iterate-restores cfg fallback zero done total env x h = refl
  iterate-restores cfg fallback (suc rounds) done total env x h =
      let (env', stepped, ok) = step env x in
      let (x', delta_l2, x_l2) = damp d cfg x stepped (d.lit (pos 0) 1) (d.lit (pos 0) 1) in
      ground (arith, iterate-restores cfg fallback rounds (done + 1) ((total + 1) % 2 ^ 32) env' x')

  pub solve-restores :
      (policy : NrPolicy d) (env : S) (x : List d.Carrier)
      → (solve d step policy env x).1.result.converged ≡ false
      → (solve d step policy env x).1.x ≡ x
  unfolding solve
  solve-restores policy env x h =
      iterate-restores policy.config x (pos_part policy.config.max_iterations) 0
        policy.total_iterations env x h

  -- The debug counter has no influence on the rest.
  iterate-total :
      (cfg : NrConfig d) (fallback : List d.Carrier) (rounds done total total' : ℕ) (env : S)
      (x : List d.Carrier)
      → (iterate d step cfg fallback rounds done total env x).x
        ≡ (iterate d step cfg fallback rounds done total' env x).x
  unfolding iterate
  iterate-total cfg fallback zero done total total' env x = refl
  iterate-total cfg fallback (suc rounds) done total total' env x =
      let (env', stepped, ok) = step env x in
      let (x', delta_l2, x_l2) = damp d cfg x stepped (d.lit (pos 0) 1) (d.lit (pos 0) 1) in
      ground (
        arith,
        iterate-total cfg fallback rounds (done + 1) ((total + 1) % 2 ^ 32) ((total' + 1) % 2 ^ 32)
            env' x',
      )

  pub solve-total :
      (policy policy' : NrPolicy d) (env : S) (x : List d.Carrier)
      → policy.config ≡ policy'.config
      → (solve d step policy env x).1.x ≡ (solve d step policy' env x).1.x
  unfolding solve
  solve-total policy policy' env x e = rw e (
      iterate-total policy'.config x (pos_part policy'.config.max_iterations) 0
        policy.total_iterations policy'.total_iterations env x)
