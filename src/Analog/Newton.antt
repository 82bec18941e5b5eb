-- ===== src/Analog/Newton.antt =====
-- analog/nonlinear/NR.h: the Newton-Raphson iteration policy. The callback is a parameter: from the
-- state that it captures and the iterate, it gives its new state, the new iterate and whether its linear
-- solve succeeded. The array of `N` elements is a list; `xPrev_` and `xFallback_` are values here.
pub mod Fallback
pub mod NotANumber
mod Tests
use phu_audio_lib.Base.{
  ℕ, zero, suc, ◌+◌, ◌%◌, ◌^◌, ℤ, pos, pos_part, Bool, true, false, ◌&&◌, List, [], ◌∷◌,
  if◌then◌else◌,
}
use phu_audio_lib.Double.{Double}

module _ (d : Double) where
  pub record NrConfig : Type 0 where
    pub max_iterations : ℤ
    pub convergence_tol : d.Carrier
    pub damping_factor : d.Carrier
    pub max_delta_v : d.Carrier

  pub record NrResult : Type 0 where
    pub converged : Bool
    pub iterations : ℕ

  -- The members that outlive a call, those of a debug build included: `totalIter_`, an `int`, is kept as the
  -- number of its 32 bits, and counts on modulo 2 ^ 32, where C++ leaves its overflow undefined.
  pub record NrPolicy : Type 0 where
    pub config : NrConfig
    pub total_iterations : ℕ

  unfoldable pub set_config : NrConfig → NrPolicy → NrPolicy
  set_config config policy = record policy { config = config }

  unfoldable pub reset_counters : NrPolicy → NrPolicy
  reset_counters policy = record policy { total_iterations = 0 }

  pub all_finite : List d.Carrier → Bool
  all_finite [] = true
  all_finite (x ∷ xs) = d.is_finite x && all_finite xs

  -- The step limit of one element.
  pub limit_delta : d.Carrier → d.Carrier → d.Carrier
  limit_delta max_delta delta =
      if d.lt (d.lit (pos 0) 1) max_delta && d.lt max_delta (d.abs delta)
      then d.copysign max_delta delta
      else delta

  -- The loop over the elements: from the previous iterate and the callback's, the damped iterate and
  -- the two sums of squares.
  pub damp :
      NrConfig
      → List d.Carrier
      → List d.Carrier
      → d.Carrier
      → d.Carrier
      → List d.Carrier × d.Carrier × d.Carrier
  unfolding limit_delta
  damp cfg [] xs delta_l2 x_l2 = ([], delta_l2, x_l2)
  damp cfg (p ∷ ps) [] delta_l2 x_l2 = ([], delta_l2, x_l2)
  damp cfg (p ∷ ps) (x ∷ xs) delta_l2 x_l2 =
      let delta = limit_delta cfg.max_delta_v (d.sub x p) in
      let x' = d.add p (d.mul cfg.damping_factor delta) in
      let (rest, delta_sum, x_sum) =
        damp cfg ps xs (d.add delta_l2 (d.mul delta delta)) (d.add x_l2 (d.mul x' x')) in
      (x' ∷ rest, delta_sum, x_sum)

  -- |Δx| < tol · (|x| + 1)
  pub within_tolerance : NrConfig → d.Carrier → d.Carrier → Bool
  within_tolerance cfg delta_l2 x_l2 =
      d.lt (d.sqrt delta_l2) (d.mul cfg.convergence_tol (d.add (d.sqrt x_l2) (d.lit (pos 1) 1)))

  module _ {S : Type 0} (step : S → List d.Carrier → S × List d.Carrier × Bool) where
    -- What a call leaves: the callback's state, the iterate, the result and the debug counter.
    pub record Outcome : Type 0 where
      pub env : S
      pub x : List d.Carrier
      pub result : NrResult
      pub total : ℕ

    -- The loop, by the rounds left.
    pub iterate : NrConfig → List d.Carrier → ℕ → ℕ → ℕ → S → List d.Carrier → Outcome
    unfolding all_finite damp within_tolerance
    iterate cfg fallback zero done total env x = record {
      env = env;
      x = fallback;
      result = record { converged = false; iterations = done };
      total = total;
    }
    iterate cfg fallback (suc rounds) done total env x =
        let (env', stepped, ok) = step env x in
        let (x', delta_l2, x_l2) = damp cfg x stepped (d.lit (pos 0) 1) (d.lit (pos 0) 1) in
        let total' = (total + 1) % 2 ^ 32 in
        let next = iterate cfg fallback rounds (done + 1) total' env' x' in
        if ok && all_finite stepped
        then (if within_tolerance cfg delta_l2 x_l2
            then record {
              env = env';
              x = x';
              result = record { converged = true; iterations = done + 1 };
              total = total';
            }
            else next)
        else record {
          env = env';
          x = fallback;
          result = record { converged = false; iterations = done };
          total = total;
        }

    unfoldable pub solve : NrPolicy → S → List d.Carrier → NrPolicy × Outcome
    unfolding iterate
    solve policy env x =
        let rounds = pos_part policy.config.max_iterations in
        let out = iterate policy.config x rounds 0 policy.total_iterations env x in
        (record policy { total_iterations = out.total }, out)
