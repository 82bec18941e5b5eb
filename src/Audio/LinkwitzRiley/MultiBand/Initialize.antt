-- ===== src/Audio/LinkwitzRiley/MultiBand/Initialize.antt =====
-- audio/LinkwitzRileyFilter.h: initialize, loop by loop, and reset.
use phu_audio_lib.Base.{
  ℕ, zero, suc, replicate, ◌+◌, ◌-◌, ◌<◌, ◌≤◌, ◌≡◌, refl, sym, subst, ltb, false, for_below,
  for_below-counts, length, ◌∙◌, List, get_or, arith,
}
use phu_audio_lib.Double.{Double}
use phu_audio_lib.Analog.Elements.{nought}
use phu_audio_lib.Audio.LinkwitzRiley.{Slope, new_filter}
use phu_audio_lib.Audio.LinkwitzRiley.Stages.{length-write}
use phu_audio_lib.Audio.LinkwitzRiley.MultiBand.{
  Channel, new_channel, MultiBandN, Outcome, returned, invalid_argument, set_pairs, set_allpasses,
  store_freq, initialize,
}
use phu_audio_lib.Audio.LinkwitzRiley.MultiBand.Arrays.{
  Below, AnyFilter, IsSized, ChannelIsReady, IsReady,
}
use phu_audio_lib.Audio.LinkwitzRiley.MultiBand.Ready.{
  PairsAreSet, RowsAreSet, BandIsSet, RowsAreSet-BandIsSet, BandIsSet-RowsAreSet,
  set_pair-PairsAreSet, set_allpass-BandIsSet,
}

-- The call returns, with an object that satisfies `P`.
abbrev pub Succeeds : {A : Type 0} → Outcome A → (A → Type 0) → Type 0
Succeeds (returned a) P = P a
Succeeds invalid_argument P = ⊥

pub Succeeds-weaken :
    {A : Type 0} (P Q : A → Type 0) (o : Outcome A)
    → ((a : A) → P a → Q a)
    → Succeeds o P
    → Succeeds o Q
Succeeds-weaken P Q (returned a) f h = f a h
Succeeds-weaken P Q invalid_argument f h = h

Below-replicate {ℓ} :
    {A : Type ℓ} (P : A → Type 0) (n : ℕ) (v : A) → P v → Below n P (replicate n v)
Below-replicate P zero v p i lt = absurd (omega arith)
Below-replicate P (suc n) v p zero lt = p
Below-replicate P (suc n) v p (suc i) lt = Below-replicate P n v p i (omega arith)

module _ (d : Double) where
  pub new_channel-IsSized : IsSized d (new_channel d)
  unfolding new_channel
  new_channel-IsSized =
      let filters = Below-replicate (AnyFilter d) 6 (new_filter d) tt in
      record {
        lps = filters;
        hps = filters;
        rows = Below-replicate (Below 6 (AnyFilter d)) 6 (replicate 6 (new_filter d)) filters;
      }

  -- The numbers of a crossover for `n` frequencies, and a property of both channels.
  record Has (n : ℕ) (P : Channel d → Type 0) (m : MultiBandN d) : Type 0 where
    stored : length m.freqs ≡ 6
    freqs : m.num_freqs ≡ n
    bands : m.num_bands ≡ n + 1
    left : P m.left
    right : P m.right

  Has-weaken :
      (n : ℕ) (P Q : Channel d → Type 0) (m : MultiBandN d)
      → ((c : Channel d) → P c → Q c)
      → Has n P m
      → Has n Q m
  Has-weaken n P Q m f h = record {
    stored = h.stored;
    freqs = h.freqs;
    bands = h.bands;
    left = f m.left h.left;
    right = f m.right h.right;
  }

  module _ (slope : Slope) (freqs : List d.Carrier) (rate : d.Carrier) (n : ℕ) (small : n ≤ 6) where
    set_pairs_loop :
        (m : MultiBandN d)
        → Has n (IsSized d) m
        → Has n (PairsAreSet d n) (for_below n (set_pairs d slope freqs rate) m)
    unfolding set_pairs
    set_pairs_loop m h =
        for_below-counts (λ k. Has n (PairsAreSet d k)) (set_pairs d slope freqs rate) n
          (λ k s lt r. record {
            stored = r.stored;
            freqs = r.freqs;
            bands = r.bands;
            left =
                set_pair-PairsAreSet d slope (get_or freqs k (nought d)) rate k s.left (omega arith)
                  r.left;
            right =
                set_pair-PairsAreSet d slope (get_or freqs k (nought d)) rate k s.right
                  (omega arith) r.right;
          })
          m
          (Has-weaken n (IsSized d) (PairsAreSet d 0) m
            (λ c s. record {
              sized = s;
              lps = λ i lt. absurd (omega arith);
              hps = λ i lt. absurd (omega arith);
            })
            h)

    set_allpasses_loop :
        (band : ℕ) (m : MultiBandN d)
        → band < n
        → Has n (RowsAreSet d n band) m
        → Has n (RowsAreSet d n (suc band)) (set_allpasses d slope freqs rate n band m)
    unfolding set_allpasses
    set_allpasses_loop band m lt h =
        Has-weaken n (BandIsSet d n band (n - suc band)) (RowsAreSet d n (suc band)) _
          (BandIsSet-RowsAreSet d n band)
          (for_below-counts (λ k. Has n (BandIsSet d n band k)) _ (n - suc band)
            (λ k s l r.
              let freq = get_or freqs (suc band + k) (nought d) in
              record {
                stored = r.stored;
                freqs = r.freqs;
                bands = r.bands;
                left = set_allpass-BandIsSet d slope freq rate n band k s.left small l r.left;
                right = set_allpass-BandIsSet d slope freq rate n band k s.right small l r.right;
              })
            m
            (Has-weaken n (RowsAreSet d n band) (BandIsSet d n band 0) m
              (λ c. RowsAreSet-BandIsSet d n band c (omega arith)) h))

    all_rows_loop :
        (m : MultiBandN d)
        → Has n (PairsAreSet d n) m
        → Has n (RowsAreSet d n n) (for_below n (set_allpasses d slope freqs rate n) m)
    all_rows_loop m h =
        for_below-counts (λ k. Has n (RowsAreSet d n k)) (set_allpasses d slope freqs rate n) n
          set_allpasses_loop m
          (Has-weaken n (PairsAreSet d n) (RowsAreSet d n 0) m
            (λ c p. record { pairs = p; rows = λ b lt. absurd (omega arith) }) h)

    -- initialize for 1 to 6 frequencies.
    pub initialize-IsReady :
        (m : MultiBandN d)
        → 1 ≤ n
        → length m.freqs ≡ 6
        → IsSized d m.left
        → IsSized d m.right
        → Succeeds (initialize d slope freqs n rate m) (IsReady d)
    unfolding initialize store_freq
    initialize-IsReady m low stored left right =
        let some_freqs : ltb n 1 ≡ false = ground arith in
        let not_too_many : ltb 6 n ≡ false = ground arith in
        rw (some_freqs, not_too_many)
          (ready _ (
            all_rows_loop _ (
              set_pairs_loop _ (
                for_below-counts (λ k. Has n (IsSized d)) (store_freq d freqs) n
                  (λ i s lt h. record {
                    stored =
                        length-write s.freqs i (get_or freqs i (nought d)) (omega (arith, h.stored))
                        ∙ h.stored;
                    freqs = h.freqs;
                    bands = h.bands;
                    left = h.left;
                    right = h.right;
                  })
                  _
                  (record {
                    stored = stored;
                    freqs = refl;
                    bands = refl;
                    left = left;
                    right = right;
                  })))))
      where
        channel : (c : Channel d) → RowsAreSet d n n c → ChannelIsReady d n c
        channel c h = record {
          sized = h.pairs.sized;
          lps = h.pairs.lps;
          hps = h.pairs.hps;
          rows = h.rows;
        }

        ready : (s : MultiBandN d) → Has n (RowsAreSet d n n) s → IsReady d s
        ready s h = record {
          freqs = h.stored;
          bands = omega (arith, h.freqs, h.bands);
          some_freqs = omega (arith, h.freqs);
          not_too_many = omega (arith, h.freqs);
          left = subst (λ k. ChannelIsReady d k s.left) (sym h.freqs) (channel s.left h.left);
          right = subst (λ k. ChannelIsReady d k s.right) (sym h.freqs) (channel s.right h.right);
        }
