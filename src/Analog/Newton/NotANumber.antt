-- ===== src/Analog/Newton/NotANumber.antt =====
-- analog/nonlinear/NR.h: an iterate that holds a NaN when `solve` is called.
use phu_audio_lib.Base.{
  ℕ, zero, suc, ◌+◌, ◌%◌, ◌^◌, ◌≡◌, ◌⊎◌, inl, inr, refl, arith, pos, pos_part, Bool, false, List,
  [], ◌∷◌, length,
}
use phu_audio_lib.Double.{Double}
use phu_audio_lib.Double.Nan.{NanLaws}
use phu_audio_lib.Analog.Newton.{
  NrConfig, NrPolicy, limit_delta, damp, within_tolerance, iterate, solve,
}
use phu_audio_lib.Analog.Newton.Fallback.{solve-restores}

module _ (d : Double) (IsNan : d.Carrier → Type 0) (laws : NanLaws d IsNan) where
  -- An element that is a NaN.
  abbrev pub HasNan : List d.Carrier → Type 0
  HasNan [] = ⊥
  HasNan (x ∷ xs) = IsNan x ⊎ HasNan xs

  limit_delta-IsNan : (bound delta : d.Carrier) → IsNan delta → IsNan (limit_delta d bound delta)
  unfolding limit_delta
  limit_delta-IsNan bound delta h =
      let e : d.lt bound (d.abs delta) ≡ false =
        laws.lt_right bound (d.abs delta) (laws.abs_nan delta h) in
      let unlimited : limit_delta d bound delta ≡ delta = ground arith in rw unlimited h

  damp-sum_IsNan :
      (cfg : NrConfig d) (ps xs : List d.Carrier) (delta_l2 x_l2 : d.Carrier)
      → IsNan delta_l2
      → IsNan (damp d cfg ps xs delta_l2 x_l2).1
  unfolding damp
  damp-sum_IsNan cfg [] xs delta_l2 x_l2 h = h
  damp-sum_IsNan cfg (p ∷ ps) [] delta_l2 x_l2 h = h
  damp-sum_IsNan cfg (p ∷ ps) (x ∷ xs) delta_l2 x_l2 h =
      damp-sum_IsNan cfg ps xs _ _ (laws.add_left delta_l2 _ h)

  damp-HasNan :
      (cfg : NrConfig d) (ps xs : List d.Carrier) (delta_l2 x_l2 : d.Carrier)
      → length xs ≡ length ps
      → HasNan ps
      → HasNan (damp d cfg ps xs delta_l2 x_l2).0 × IsNan (damp d cfg ps xs delta_l2 x_l2).1
  unfolding damp
  damp-HasNan cfg [] xs delta_l2 x_l2 e h = absurd h
  damp-HasNan cfg (p ∷ ps) [] delta_l2 x_l2 e h = absurd (omega (arith, e))
  damp-HasNan cfg (p ∷ ps) (x ∷ xs) delta_l2 x_l2 e (inl nan) =
      let delta = limit_delta-IsNan cfg.max_delta_v (d.sub x p) (laws.sub_right x p nan) in
      (
        inl (laws.add_left p _ nan),
        damp-sum_IsNan cfg ps xs _ _ (laws.add_right delta_l2 _ (laws.mul_left _ _ delta)),
      )
  damp-HasNan cfg (p ∷ ps) (x ∷ xs) delta_l2 x_l2 e (inr later) =
      let rest = damp-HasNan cfg ps xs _ _ (omega (arith, e)) later in (inr rest.0, rest.1)

  within_tolerance-nan :
      (cfg : NrConfig d) (delta_l2 x_l2 : d.Carrier)
      → IsNan delta_l2
      → within_tolerance d cfg delta_l2 x_l2 ≡ false
  unfolding within_tolerance
  within_tolerance-nan cfg delta_l2 x_l2 h = laws.lt_left _ _ (laws.sqrt_nan delta_l2 h)

  module _ {S : Type 0} (step : S → List d.Carrier → S × List d.Carrier × Bool)
      (sized : (env : S) (x : List d.Carrier) → length (step env x).1 ≡ length x) where
    iterate-nan :
        (cfg : NrConfig d) (fallback : List d.Carrier) (rounds done total : ℕ) (env : S)
        (x : List d.Carrier)
        → HasNan x
        → (iterate d step cfg fallback rounds done total env x).result.converged ≡ false
    unfolding iterate
    iterate-nan cfg fallback zero done total env x h = refl
    iterate-nan cfg fallback (suc rounds) done total env x h =
        let (env', stepped, ok) = step env x in
        let (x', delta_l2, x_l2) = damp d cfg x stepped (d.lit (pos 0) 1) (d.lit (pos 0) 1) in
        let nan = damp-HasNan cfg x stepped (d.lit (pos 0) 1) (d.lit (pos 0) 1) (sized env x) h in
        ground (
          arith,
          within_tolerance-nan cfg delta_l2 x_l2 nan.1,
          iterate-nan cfg fallback rounds (done + 1) ((total + 1) % 2 ^ 32) env' x' nan.0,
        )

    -- The callback's result is checked for a NaN, but not the iterate at entry. A call on an iterate with
    -- a NaN in it never converges and gives that iterate back, whatever the callback computes: behind a
    -- first NaN the caller's state stays lost.
    pub solve_keeps_nan :
        (policy : NrPolicy d) (env : S) (x : List d.Carrier)
        → HasNan x
        → ((solve d step policy env x).1.result.converged ≡ false)
          × ((solve d step policy env x).1.x ≡ x)
    solve_keeps_nan policy env x h =
        let failed : (solve d step policy env x).1.result.converged ≡ false =
          unfold solve in
          iterate-nan policy.config x (pos_part policy.config.max_iterations) 0
            policy.total_iterations env x h in
        (failed, solve-restores d step policy env x failed)
