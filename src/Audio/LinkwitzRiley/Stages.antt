-- ===== src/Audio/LinkwitzRiley/Stages.antt =====
-- audio/LinkwitzRileyFilter.h: the vectors of a mono filter, over its setters and its samples.
use phu_audio_lib.Base.{
  ℕ, zero, suc, ◌<◌, ◌≤◌, ltb, lt→ltb, true, ◌≡◌, refl, ap, ◌∙◌, sym, none, some, Returns,
  Returns-bind, List, [], ◌∷◌, map, length, length-resize, length-set, length-map, arith,
}
use phu_audio_lib.Double.{Double}
use phu_audio_lib.Audio.LinkwitzRiley.{
  Slope, FilterType, BiquadState, BiquadCoeffs, LinkwitzRileyFilter, reset_biquad, biquad_step,
  run_stages, process_sample, reset, set_params, stages_for, assign_coeffs, empty_state,
  pass_through, new_filter, write,
}

pub length-write {ℓ} :
    {A : Type ℓ} (xs : List A) (i : ℕ) (v : A) → i < length xs → length (write xs i v) ≡ length xs
length-write xs i v h =
    let inside : ltb i (length xs) ≡ true = lt→ltb i (length xs) h in rw inside (length-set xs i v)

module _ {ℓ} {A : Type ℓ} where
  writes_1 : (xs : List A) (a : A) → length xs ≡ 1 → length (write xs 0 a) ≡ 1
  writes_1 xs a h = length-write xs 0 a (omega (arith, h)) ∙ h

  writes_2 : (xs : List A) (a b : A) → length xs ≡ 2 → length (write (write xs 0 a) 1 b) ≡ 2
  writes_2 xs a b h =
      let first : length (write xs 0 a) ≡ 2 = length-write xs 0 a (omega (arith, h)) ∙ h in
      length-write (write xs 0 a) 1 b (omega (arith, first)) ∙ first

  writes_4 :
      (xs : List A) (a b : A)
      → length xs ≡ 4
      → length (write (write (write (write xs 0 a) 1 a) 2 b) 3 b) ≡ 4
  writes_4 xs a b h =
      let l1 : length (write xs 0 a) ≡ 4 = length-write xs 0 a (omega (arith, h)) ∙ h in
      let l2 : length (write (write xs 0 a) 1 a) ≡ 4 =
        length-write (write xs 0 a) 1 a (omega (arith, l1)) ∙ l1 in
      let l3 : length (write (write (write xs 0 a) 1 a) 2 b) ≡ 4 =
        length-write (write (write xs 0 a) 1 a) 2 b (omega (arith, l2)) ∙ l2 in
      length-write (write (write (write xs 0 a) 1 a) 2 b) 3 b (omega (arith, l3)) ∙ l3

module _ (d : Double) where
  -- As many states and coefficients as stages, of which there is one at least.
  abbrev pub IsConfigured : LinkwitzRileyFilter d → Type 0
  IsConfigured f =
      (length f.stages ≡ f.num_stages) × (length f.coeffs_list ≡ f.num_stages) × (1 ≤ f.num_stages)

  -- The coefficients are written to indices of the list of as many as there are stages.
  length-assign_coeffs :
      (type : FilterType) (slope : Slope) (freq rate : d.Carrier) (list : List (BiquadCoeffs d))
      → length list ≡ stages_for d type slope
      → length (assign_coeffs d type slope freq rate list) ≡ stages_for d type slope
  unfolding assign_coeffs stages_for
  length-assign_coeffs FilterType.all_pass Slope.db24 freq rate list h = writes_1 list _ h
  length-assign_coeffs FilterType.all_pass Slope.db48 freq rate list h = writes_2 list _ _ h
  length-assign_coeffs FilterType.low_pass Slope.db24 freq rate list h = writes_2 list _ _ h
  length-assign_coeffs FilterType.low_pass Slope.db48 freq rate list h = writes_4 list _ _ h
  length-assign_coeffs FilterType.high_pass Slope.db24 freq rate list h = writes_2 list _ _ h
  length-assign_coeffs FilterType.high_pass Slope.db48 freq rate list h = writes_4 list _ _ h

  stages_for-pos : (type : FilterType) (slope : Slope) → 1 ≤ stages_for d type slope
  unfolding stages_for
  stages_for-pos FilterType.all_pass Slope.db24 = omega arith
  stages_for-pos FilterType.all_pass Slope.db48 = omega arith
  stages_for-pos FilterType.low_pass Slope.db24 = omega arith
  stages_for-pos FilterType.low_pass Slope.db48 = omega arith
  stages_for-pos FilterType.high_pass Slope.db24 = omega arith
  stages_for-pos FilterType.high_pass Slope.db48 = omega arith

  pub set_params-IsConfigured :
      (type : FilterType) (slope : Slope) (freq rate : d.Carrier) (f : LinkwitzRileyFilter d)
      → IsConfigured (set_params d type slope freq rate f)
  unfolding set_params
  set_params-IsConfigured type slope freq rate f = (
    length-resize (stages_for d type slope) (empty_state d) f.stages,
    length-assign_coeffs type slope freq rate _
        (length-resize (stages_for d type slope) (pass_through d) f.coeffs_list),
    stages_for-pos type slope,
  )

  -- Filters with the same state after a reset have vectors of the same sizes.
  pub reset-eq-IsConfigured :
      (f g : LinkwitzRileyFilter d) → reset d g ≡ reset d f → IsConfigured f → IsConfigured g
  unfolding reset
  reset-eq-IsConfigured f g e h =
      let stages : length g.stages ≡ length f.stages =
        sym (length-map g.stages (reset_biquad d))
        ∙ ap (λ (k : LinkwitzRileyFilter d). length k.stages) e
        ∙ length-map f.stages (reset_biquad d) in
      let coeffs : length g.coeffs_list ≡ length f.coeffs_list =
        ap (λ (k : LinkwitzRileyFilter d). length k.coeffs_list) e in
      let num : g.num_stages ≡ f.num_stages = ap (λ (k : LinkwitzRileyFilter d). k.num_stages) e in
      (omega (arith, stages, num, h.0), omega (arith, coeffs, num, h.1), omega (arith, num, h.2))

  run_stages-reset :
      (n : ℕ) (cs : List (BiquadCoeffs d)) (ss : List (BiquadState d)) (y : d.Carrier)
      → length ss ≡ n
      → length cs ≡ n
      → Returns (run_stages d n cs ss y) (λ r. map (reset_biquad d) r.0 ≡ map (reset_biquad d) ss)
  unfolding run_stages reset_biquad
  run_stages-reset zero cs ss y h k = refl
  run_stages-reset (suc n) [] ss y h k = absurd (omega (arith, k))
  run_stages-reset (suc n) (c ∷ cs) [] y h k = absurd (omega (arith, h))
  run_stages-reset (suc n) (c ∷ cs) (s ∷ ss) y h k =
      Returns-bind (λ r. map (reset_biquad d) r.0 ≡ map (reset_biquad d) ss)
        (λ r. map (reset_biquad d) r.0 ≡ map (reset_biquad d) (s ∷ ss))
        (run_stages d n cs ss (biquad_step d c s y).1)
        (λ r. some ((biquad_step d c s y).0 ∷ r.0, r.1))
        (run_stages-reset n cs ss (biquad_step d c s y).1 (omega (arith, h)) (omega (arith, k)))
        (λ r e. ap (λ (rest : List (BiquadState d)). reset_biquad d s ∷ rest) e)

  -- A sample of a configured filter changes only what a reset clears.
  pub process_sample-reset :
      (x : d.Carrier) (f : LinkwitzRileyFilter d)
      → IsConfigured f
      → Returns (process_sample d x f) (λ r. reset d r.0 ≡ reset d f)
  unfolding process_sample reset
  process_sample-reset x f h =
      Returns-bind (λ r. map (reset_biquad d) r.0 ≡ map (reset_biquad d) f.stages) _
        (run_stages d f.num_stages f.coeffs_list f.stages x)
        (λ r. some (record f { stages = r.0 }, r.1))
        (run_stages-reset f.num_stages f.coeffs_list f.stages x h.0 h.1)
        (λ r e. ap (λ (ss : List (BiquadState d)). record f { stages = ss }) e)

  -- `setParams` was never called: the first stage lies out of the vectors.
  pub process_sample-new_filter : (x : d.Carrier) → process_sample d x (new_filter d) ≡ none
  unfolding process_sample new_filter run_stages
  process_sample-new_filter x = refl
