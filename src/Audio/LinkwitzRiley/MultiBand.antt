-- ===== src/Audio/LinkwitzRiley/MultiBand.antt =====
-- audio/LinkwitzRileyFilter.h: the crossover of up to seven bands. The arrays of one channel are a
-- record; a row of an array of all-pass filters belongs to a band. A pointer to samples or to
-- frequencies is a list, which has as many as the call says.
pub mod Arrays
pub mod Channels
pub mod Safety
pub mod Ready
pub mod Initialize
pub mod Reset
pub mod Process
pub mod Run
pub mod Setup
use phu_audio_lib.Base.{
  ℕ, zero, suc, ◌+◌, ◌-◌, pos, ◌||◌, ltb, ◌==◌, not, for_below, List, [], ◌∷◌, get_or, length,
  replicate, if◌then◌else◌,
}
use phu_audio_lib.Double.{Double}
use phu_audio_lib.Analog.Elements.{nought}
use phu_audio_lib.Audio.LinkwitzRiley.{
  Slope, FilterType, LinkwitzRileyFilter, new_filter, set_params, reset, write,
}

abbrev pub max_bands : ℕ
max_bands = 7

abbrev pub max_freqs : ℕ
max_freqs = 6

-- A call that may throw `std::invalid_argument`, which leaves the object as it was.
pub data Outcome (A : Type 0) : Type 0 where
  returned : A → Outcome A
  invalid_argument : Outcome A

-- A call of a method of the element at `i`; out of bounds it leaves the empty list, as `write` does.
unfoldable pub update {ℓ} : {A : Type ℓ} → ℕ → (A → A) → List A → List A
update i f [] = []
update zero f (x ∷ xs) = f x ∷ xs
update (suc i) f (x ∷ xs) = if ltb i (length xs) then x ∷ update i f xs else []

module _ (d : Double) where
  pub record Channel : Type 0 where
    pub lp_filters : List (LinkwitzRileyFilter d)
    pub hp_filters : List (LinkwitzRileyFilter d)
    pub allpass : List (List (LinkwitzRileyFilter d))

  pub record MultiBandN : Type 0 where
    pub slope : Slope
    pub num_bands : ℕ
    pub num_freqs : ℕ
    pub sample_rate : d.Carrier
    pub freqs : List d.Carrier
    pub left : Channel
    pub right : Channel

  abbrev pub new_channel : Channel
  unfolding new_filter
  new_channel = record {
    lp_filters = replicate max_freqs (new_filter d);
    hp_filters = replicate max_freqs (new_filter d);
    allpass = replicate max_freqs (replicate max_freqs (new_filter d));
  }

  unfoldable pub new_multiband : MultiBandN
  unfolding new_channel
  new_multiband = record {
    slope = Slope.db24;
    num_bands = 2;
    num_freqs = 1;
    sample_rate = d.lit (pos 44100) 1;
    freqs = replicate max_freqs (nought d);
    left = new_channel;
    right = new_channel;
  }

  -- The bodies of the loops, for a channel and for both.
  unfoldable pub set_pair : Slope → d.Carrier → d.Carrier → ℕ → Channel → Channel
  unfolding set_params update
  set_pair slope freq sample_rate i c = record c {
    lp_filters = update i (set_params d FilterType.low_pass slope freq sample_rate) c.lp_filters;
    hp_filters = update i (set_params d FilterType.high_pass slope freq sample_rate) c.hp_filters;
  }

  unfoldable pub set_pairs : Slope → List d.Carrier → d.Carrier → ℕ → MultiBandN → MultiBandN
  unfolding set_pair
  set_pairs slope freqs sample_rate i m = record m {
    left = set_pair slope (get_or freqs i (nought d)) sample_rate i m.left;
    right = set_pair slope (get_or freqs i (nought d)) sample_rate i m.right;
  }

  unfoldable pub store_freq : List d.Carrier → ℕ → MultiBandN → MultiBandN
  store_freq freqs i m = record m { freqs = write m.freqs i (get_or freqs i (nought d)) }

  unfoldable pub set_allpass : Slope → d.Carrier → d.Carrier → ℕ → ℕ → Channel → Channel
  unfolding set_params update
  set_allpass slope freq sample_rate band f c = record c {
    allpass =
        update band (update f (set_params d FilterType.all_pass slope freq sample_rate)) c.allpass;
  }

  -- The loop over the frequencies above a band.
  unfoldable pub set_allpasses :
      Slope → List d.Carrier → d.Carrier → ℕ → ℕ → MultiBandN → MultiBandN
  unfolding set_allpass for_below
  set_allpasses slope freqs sample_rate num_freqs band = for_below (num_freqs - suc band) (λ k m.
      let f = suc band + k in
      let freq = get_or freqs f (nought d) in
      record m {
        left = set_allpass slope freq sample_rate band f m.left;
        right = set_allpass slope freq sample_rate band f m.right;
      })

  unfoldable pub initialize :
      Slope → List d.Carrier → ℕ → d.Carrier → MultiBandN → Outcome MultiBandN
  unfolding set_pairs store_freq set_allpasses for_below
  initialize slope freqs num_freqs sample_rate m =
      let settings = record m {
        slope = slope;
        num_bands = num_freqs + 1;
        num_freqs = num_freqs;
        sample_rate = sample_rate;
      } in
      let stored = for_below num_freqs (store_freq freqs) settings in
      let paired = for_below num_freqs (set_pairs slope freqs sample_rate) stored in
      if ltb num_freqs 1 || ltb max_freqs num_freqs
      then invalid_argument
      else returned (for_below num_freqs (set_allpasses slope freqs sample_rate num_freqs) paired)

  unfoldable pub set_params_multi :
      Slope → List d.Carrier → ℕ → d.Carrier → MultiBandN → Outcome MultiBandN
  unfolding set_pairs store_freq set_allpasses for_below
  set_params_multi slope freqs num_freqs sample_rate m =
      let settings = record m { slope = slope; sample_rate = sample_rate } in
      let paired =
        for_below num_freqs (λ i m. set_pairs slope freqs sample_rate i (store_freq freqs i m))
          settings in
      if not (num_freqs == m.num_freqs)
      then invalid_argument
      else returned (for_below num_freqs (set_allpasses slope freqs sample_rate num_freqs) paired)

  unfoldable pub reset_pair : ℕ → Channel → Channel
  unfolding reset update
  reset_pair i c = record c {
    lp_filters = update i (reset d) c.lp_filters;
    hp_filters = update i (reset d) c.hp_filters;
  }

  unfoldable pub reset_allpass : ℕ → ℕ → Channel → Channel
  unfolding reset update
  reset_allpass band f c = record c { allpass = update band (update f (reset d)) c.allpass }

  unfoldable pub reset_multi : MultiBandN → MultiBandN
  unfolding reset_pair reset_allpass for_below
  reset_multi m =
      let pairs =
        for_below m.num_freqs
          (λ i (s : MultiBandN). record s {
            left = reset_pair i s.left;
            right = reset_pair i s.right;
          })
          m in
      for_below m.num_freqs
        (λ band s.
          for_below (m.num_freqs - suc band)
            (λ k (s : MultiBandN).
              let f = suc band + k in
              record s { left = reset_allpass band f s.left; right = reset_allpass band f s.right })
            s)
        pairs
