-- ===== src/Audio/LinkwitzRiley/MultiBand/Setup.antt =====
-- audio/LinkwitzRileyFilter.h: the two ways to set the parameters of a crossover.
use phu_audio_lib.Base.{
  ℕ, ◌+◌, ◌≤◌, ◌≡◌, refl, ap, ◌∙◌, List, for_below, for_below-split, arith, ◌==◌, true, false, ltb,
}
use phu_audio_lib.Double.{Double}
use phu_audio_lib.Audio.LinkwitzRiley.{Slope}
use phu_audio_lib.Audio.LinkwitzRiley.MultiBand.{
  MultiBandN, initialize, set_params_multi, returned, set_allpasses, set_pairs, store_freq,
}

module _ (d : Double) where
  -- The loop that stores a frequency and sets its filters is the two loops of initialize.
  set_pairs-store_freq :
      (slope : Slope) (freqs : List d.Carrier) (rate : d.Carrier) (n : ℕ) (m : MultiBandN d)
      → for_below n (λ i s. set_pairs d slope freqs rate i (store_freq d freqs i s)) m
        ≡ for_below n (set_pairs d slope freqs rate) (for_below n (store_freq d freqs) m)
  unfolding set_pairs store_freq
  set_pairs-store_freq slope freqs rate =
      for_below-split (store_freq d freqs) (set_pairs d slope freqs rate) (λ i j s. refl)

  -- Where the number of frequencies is that of the crossover, and from 1 to 6, setParams leaves the
  -- same crossover as initialize.
  pub set_params_multi-initialize :
      (slope : Slope) (freqs : List d.Carrier) (rate : d.Carrier) (m : MultiBandN d)
      → m.num_bands ≡ m.num_freqs + 1
      → 1 ≤ m.num_freqs
      → m.num_freqs ≤ 6
      → set_params_multi d slope freqs m.num_freqs rate m
        ≡ initialize d slope freqs m.num_freqs rate m
  unfolding set_params_multi initialize
  set_params_multi-initialize slope freqs rate m bands low high =
      let same : (m.num_freqs == m.num_freqs) ≡ true = ground arith in
      let some_freqs : ltb m.num_freqs 1 ≡ false = ground arith in
      let not_too_many : ltb 6 m.num_freqs ≡ false = ground arith in
      let n = m.num_freqs in
      let start : Path (MultiBandN d) (record m { slope = slope; sample_rate = rate })
          (record m { slope = slope; num_bands = n + 1; num_freqs = n; sample_rate = rate }) =
        ap (λ (k : ℕ). record m { slope = slope; num_bands = k; sample_rate = rate }) bands in
      rw (same, some_freqs, not_too_many)
        (ap (λ (s : MultiBandN d). returned (for_below n (set_allpasses d slope freqs rate n) s))
          (set_pairs-store_freq slope freqs rate n _
            ∙ ap
                (λ (s : MultiBandN d).
                  for_below n (set_pairs d slope freqs rate) (for_below n (store_freq d freqs) s))
                start))
