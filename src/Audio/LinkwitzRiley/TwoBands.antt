-- ===== src/Audio/LinkwitzRiley/TwoBands.antt =====
-- audio/LinkwitzRileyFilter.h: a `MultiBandN` of one frequency next to a `CrossOver`.
use phu_audio_lib.Base.{
  ◌≡◌, refl, Option, Option-cases, inl, inr, none, some, ◌>>=◌, Returns, Returns-bind,
  Returns-weaken, List, [], ◌∷◌, replicate,
}
use phu_audio_lib.Double.{Double}
use phu_audio_lib.Analog.Elements.{nought}
use phu_audio_lib.Audio.LinkwitzRiley.{
  Slope, FilterType, LinkwitzRileyFilter, new_filter, process_sample, run_stages,
}
use phu_audio_lib.Audio.LinkwitzRiley.Stages.{
  IsConfigured, set_params-IsConfigured, reset-eq-IsConfigured, process_sample-reset,
}
use phu_audio_lib.Audio.LinkwitzRiley.Stereo.{
  StereoLinkwitzRileyFilter, CrossOver, Split, make_crossover, process_crossover, process_stereo,
}
use phu_audio_lib.Audio.LinkwitzRiley.MultiBand.{MultiBandN, returned, new_multiband, initialize}
use phu_audio_lib.Audio.LinkwitzRiley.MultiBand.Initialize.{Succeeds}
use phu_audio_lib.Audio.LinkwitzRiley.MultiBand.Process.{process_sample_multi}

module _ (d : Double) where
  -- The filters of a crossover at the beginning of arrays that hold new filters behind them.
  abbrev widened : d.Carrier → d.Carrier → CrossOver d → MultiBandN d
  unfolding new_filter
  widened freq rate c =
      let others = replicate 5 (new_filter d) in
      let rows = replicate 6 (replicate 6 (new_filter d)) in
      record {
        slope = c.slope;
        num_bands = 2;
        num_freqs = 1;
        sample_rate = rate;
        freqs = freq ∷ replicate 5 (nought d);
        left = record {
          lp_filters = c.lp.left ∷ others;
          hp_filters = c.hp.left ∷ others;
          allpass = rows;
        };
        right = record {
          lp_filters = c.lp.right ∷ others;
          hp_filters = c.hp.right ∷ others;
          allpass = rows;
        };
      }

  initialize-widened :
      (slope : Slope) (freq rate : d.Carrier) (fs : List d.Carrier)
      → initialize d slope (freq ∷ fs) 1 rate (new_multiband d)
        ≡ returned (widened freq rate (make_crossover d slope freq rate))
  unfolding initialize new_multiband make_crossover
  initialize-widened slope freq rate fs = refl

  process_sample_multi-widened :
      (freq rate in_l in_r a b : d.Carrier) (c : CrossOver d)
      → process_sample_multi d in_l in_r (a ∷ b ∷ []) (a ∷ b ∷ []) (widened freq rate c) ≡ (
          process_crossover d in_l in_r c >>= λ u.
          some (widened freq rate u.0, u.1.lp_l ∷ u.1.hp_l ∷ [], u.1.lp_r ∷ u.1.hp_r ∷ []))
  unfolding process_sample_multi process_crossover widened
  process_sample_multi-widened freq rate in_l in_r a b c =
      let stages = λ (f : LinkwitzRileyFilter d) (x : d.Carrier).
        run_stages d f.num_stages f.coeffs_list f.stages x in
      elim (Option-cases (stages c.lp.left in_l)) [
        | inl e ↦ rw e refl
        | inr (p, e) ↦ rw e (elim (Option-cases (stages c.lp.right in_r)) [
          | inl e ↦ rw e refl
          | inr (q, e) ↦ rw e (elim (Option-cases (stages c.hp.left in_l)) [
            | inl e ↦ rw e refl
            | inr (r, e) ↦ rw e (elim (Option-cases (stages c.hp.right in_r)) [
              | inl e ↦ rw e refl
              | inr (s, e) ↦ rw e refl
            ])
          ])
        ])
      ]

  -- The bands of the left and of the right channel.
  abbrev pub Bands : Type 0
  Bands = List d.Carrier × List d.Carrier

  -- The bands of each sample. The arrays hold `a` and `b` before each call.
  unfoldable pub multi_outputs :
      d.Carrier → d.Carrier → List (d.Carrier × d.Carrier) → MultiBandN d → Option (List Bands)
  unfolding process_sample_multi
  multi_outputs a b [] m = some []
  multi_outputs a b ((in_l, in_r) ∷ inputs) m = do
    (m', left, right) ← process_sample_multi d in_l in_r (a ∷ b ∷ []) (a ∷ b ∷ []) m
    rest ← multi_outputs a b inputs m'
    some ((left, right) ∷ rest)

  unfoldable pub crossover_outputs :
      List (d.Carrier × d.Carrier) → CrossOver d → Option (List Bands)
  unfolding process_crossover
  crossover_outputs [] c = some []
  crossover_outputs ((in_l, in_r) ∷ inputs) c = do
    (c', s) ← process_crossover d in_l in_r c
    rest ← crossover_outputs inputs c'
    some ((s.lp_l ∷ s.hp_l ∷ [], s.lp_r ∷ s.hp_r ∷ []) ∷ rest)

  abbrev StereoIsConfigured : StereoLinkwitzRileyFilter d → Type 0
  StereoIsConfigured f = IsConfigured d f.left × IsConfigured d f.right

  abbrev IsReady : CrossOver d → Type 0
  IsReady c = StereoIsConfigured c.lp × StereoIsConfigured c.hp

  process_sample-IsConfigured :
      (x : d.Carrier) (f : LinkwitzRileyFilter d)
      → IsConfigured d f
      → Returns (process_sample d x f) (λ r. IsConfigured d r.0)
  process_sample-IsConfigured x f h =
      Returns-weaken _ _ (process_sample d x f) (λ r e. reset-eq-IsConfigured d f r.0 e h)
        (process_sample-reset d x f h)

  process_stereo-IsConfigured :
      (in_l in_r : d.Carrier) (f : StereoLinkwitzRileyFilter d)
      → StereoIsConfigured f
      → Returns (process_stereo d in_l in_r f) (λ r. StereoIsConfigured r.0)
  unfolding process_stereo
  process_stereo-IsConfigured in_l in_r f h =
      Returns-bind (λ r. IsConfigured d r.0) _ (process_sample d in_l f.left) _
        (process_sample-IsConfigured in_l f.left h.0)
        (λ l hl.
          Returns-bind (λ r. IsConfigured d r.0) _ (process_sample d in_r f.right) _
            (process_sample-IsConfigured in_r f.right h.1) (λ r hr. (hl, hr)))

  process_crossover-IsReady :
      (in_l in_r : d.Carrier) (c : CrossOver d)
      → IsReady c
      → Returns (process_crossover d in_l in_r c) (λ r. IsReady r.0)
  unfolding process_crossover
  process_crossover-IsReady in_l in_r c h =
      Returns-bind (λ r. StereoIsConfigured r.0) _ (process_stereo d in_l in_r c.lp) _
        (process_stereo-IsConfigured in_l in_r c.lp h.0)
        (λ lp hl.
          Returns-bind (λ r. StereoIsConfigured r.0) _ (process_stereo d in_l in_r c.hp) _
            (process_stereo-IsConfigured in_l in_r c.hp h.1) (λ hp hh. (hl, hh)))

  abbrev bands_of : Split d → Bands
  bands_of s = (s.lp_l ∷ s.hp_l ∷ [], s.lp_r ∷ s.hp_r ∷ [])

  -- The samples behind the first, `first` and `first'` being what that leaves.
  outputs_step :
      (a b freq rate : d.Carrier) (inputs : List (d.Carrier × d.Carrier))
      (first : Option (CrossOver d × Split d))
      (first' : Option (MultiBandN d × List d.Carrier × List d.Carrier))
      → first' ≡ (
          first >>= λ u.
          some (widened freq rate u.0, u.1.lp_l ∷ u.1.hp_l ∷ [], u.1.lp_r ∷ u.1.hp_r ∷ []))
      → Returns first (λ u. IsReady u.0)
      → ((c : CrossOver d)
          → IsReady c
          → Returns
              (crossover_outputs inputs c)
              (λ outs. multi_outputs a b inputs (widened freq rate c) ≡ some outs))
      → Returns
          (first >>= λ u. crossover_outputs inputs u.0 >>= λ rest. some (bands_of u.1 ∷ rest))
          (λ outs.
            (first' >>= λ u. multi_outputs a b inputs u.0 >>= λ rest. some ((u.1, u.2) ∷ rest))
            ≡ some outs)
  outputs_step a b freq rate inputs none first' e ready rest = ready
  outputs_step a b freq rate inputs (some (c, s)) first' e ready rest =
      Returns-bind (λ outs. multi_outputs a b inputs (widened freq rate c) ≡ some outs) _
        (crossover_outputs inputs c) _ (rest c ready) (λ outs same. rw (e, same) refl)

  multi_outputs-widened :
      (a b freq rate : d.Carrier) (inputs : List (d.Carrier × d.Carrier)) (c : CrossOver d)
      → IsReady c
      → Returns
          (crossover_outputs inputs c)
          (λ outs. multi_outputs a b inputs (widened freq rate c) ≡ some outs)
  unfolding multi_outputs crossover_outputs
  multi_outputs-widened a b freq rate [] c h = refl
  multi_outputs-widened a b freq rate ((in_l, in_r) ∷ inputs) c h =
      outputs_step a b freq rate inputs (process_crossover d in_l in_r c)
        (process_sample_multi d in_l in_r (a ∷ b ∷ []) (a ∷ b ∷ []) (widened freq rate c))
        (process_sample_multi-widened freq rate in_l in_r a b c)
        (process_crossover-IsReady in_l in_r c h)
        (λ c' h'. multi_outputs-widened a b freq rate inputs c' h')

  -- A `MultiBandN` that is made for one frequency leaves in the arrays of bands, at each of any
  -- samples, what a `CrossOver` for that frequency gives as its low and high band; no call of the two
  -- faults.
  pub multi_outputs-crossover :
      (slope : Slope) (freq rate a b : d.Carrier) (fs : List d.Carrier)
      (inputs : List (d.Carrier × d.Carrier))
      → Succeeds (initialize d slope (freq ∷ fs) 1 rate (new_multiband d)) (λ m.
        Returns
          (crossover_outputs inputs (make_crossover d slope freq rate))
          (λ outs. multi_outputs a b inputs m ≡ some outs))
  unfolding make_crossover
  multi_outputs-crossover slope freq rate a b fs inputs =
      let ready =
        λ (type : FilterType). set_params-IsConfigured d type slope freq rate (new_filter d) in
      rw (initialize-widened slope freq rate fs) (
        multi_outputs-widened a b freq rate inputs (make_crossover d slope freq rate) (
          (ready FilterType.low_pass, ready FilterType.low_pass),
          (ready FilterType.high_pass, ready FilterType.high_pass),
        ))
