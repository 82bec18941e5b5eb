-- ===== src/Audio/LinkwitzRiley/MultiBand/Process.antt =====
-- audio/LinkwitzRileyFilter.h: samples and blocks through the crossover of up to seven bands.
use phu_audio_lib.Base.{
  ℕ, suc, ◌+◌, ◌-◌, Option, none, some, ◌>>=◌, for_below, for_m, List, [], get_elem?, get_or, set,
}
use phu_audio_lib.Double.{Double}
use phu_audio_lib.Analog.Elements.{nought, one}
use phu_audio_lib.Audio.LinkwitzRiley.{LinkwitzRileyFilter, process_sample, write}
use phu_audio_lib.Audio.LinkwitzRiley.MultiBand.{Channel, MultiBandN, update}

module _ (d : Double) where
  -- `filters[i].processSample(x)`.
  unfoldable pub process_at :
      ℕ
      → d.Carrier
      → List (LinkwitzRileyFilter d)
      → Option (List (LinkwitzRileyFilter d) × d.Carrier)
  unfolding process_sample
  process_at i x filters = do
    f ← get_elem? filters i
    (f', y) ← process_sample d x f
    some (set filters i f', y)

  -- What the loops of `processSample` hold for a channel: the array of outputs as far as it is written.
  pub record Cascade : Type 0 where
    pub channel : Channel d
    pub input : d.Carrier
    pub bands : List d.Carrier

  -- A row of all-pass filters, and the band that passes through it.
  abbrev pub Row : Type 0
  Row = List (LinkwitzRileyFilter d) × d.Carrier

  -- The loop over the frequencies above `f`, for both channels.
  unfoldable pub compensate_both : ℕ → ℕ → Row × Row → Option (Row × Row)
  unfolding process_at
  compensate_both f k (l, r) = do
    l' ← process_at (suc f + k) l.1 l.0
    r' ← process_at (suc f + k) r.1 r.0
    some (l', r')

  -- What a round leaves for a channel: the low-pass filters, the high-pass filters with their output,
  -- and the row with the band.
  abbrev pub advance : ℕ → Cascade → List (LinkwitzRileyFilter d) → Row → Row → Cascade
  advance f c lp_filters high row = record {
    channel = record {
      lp_filters = lp_filters;
      hp_filters = high.0;
      allpass = set c.channel.allpass f row.0;
    };
    input = high.1;
    bands = write c.bands f row.1;
  }

  unfoldable pub split_both : ℕ → ℕ → Cascade × Cascade → Option (Cascade × Cascade)
  unfolding process_at compensate_both for_m
  split_both num_freqs f (l, r) = do
    low_l ← process_at f l.input l.channel.lp_filters
    low_r ← process_at f r.input r.channel.lp_filters
    high_l ← process_at f l.input l.channel.hp_filters
    high_r ← process_at f r.input r.channel.hp_filters
    row_l ← get_elem? l.channel.allpass f
    row_r ← get_elem? r.channel.allpass f
    (done_l, done_r) ←
        for_m (num_freqs - suc f) (compensate_both f) ((row_l, low_l.1), (row_r, low_r.1))
    some (advance f l low_l.0 high_l done_l, advance f r low_r.0 high_r done_r)

  -- The new object with the two arrays of outputs. There is always a band.
  unfoldable pub process_sample_multi :
      d.Carrier
      → d.Carrier
      → List d.Carrier
      → List d.Carrier
      → MultiBandN d
      → Option (MultiBandN d × List d.Carrier × List d.Carrier)
  unfolding split_both for_m
  process_sample_multi in_l in_r bands_l bands_r m = do
    (l, r) ← for_m m.num_freqs (split_both m.num_freqs) (
      record { channel = m.left; input = in_l; bands = bands_l },
      record { channel = m.right; input = in_r; bands = bands_r },
    )
    some (
      record m { left = l.channel; right = r.channel },
      write l.bands (m.num_bands - 1) l.input,
      write r.bands (m.num_bands - 1) r.input,
    )

  -- `bands[b][i] = temp[b]` for each band, in both channels.
  unfoldable pub copy_bands :
      ℕ
      → ℕ
      → List d.Carrier
      → List d.Carrier
      → List (List d.Carrier) × List (List d.Carrier)
      → List (List d.Carrier) × List (List d.Carrier)
  unfolding update
  copy_bands num_bands i temp_l temp_r =
      for_below num_bands (λ b (buffers : List (List d.Carrier) × List (List d.Carrier)). (
        update b (λ samples. write samples i (get_or temp_l b (nought d))) buffers.0,
        update b (λ samples. write samples i (get_or temp_r b (nought d))) buffers.1,
      ))

  -- A round of the loop over the samples. The temporary arrays of a round hold `garbage` before.
  unfoldable pub block_round :
      List d.Carrier
      → List d.Carrier
      → List d.Carrier
      → ℕ
      → MultiBandN d × List (List d.Carrier) × List (List d.Carrier)
      → Option (MultiBandN d × List (List d.Carrier) × List (List d.Carrier))
  unfolding process_sample_multi copy_bands
  block_round garbage in_l in_r i (m, bands_l, bands_r) = do
    (m', temp_l, temp_r) ←
        process_sample_multi (get_or in_l i (nought d)) (get_or in_r i (nought d)) garbage garbage m
    let copied = copy_bands m'.num_bands i temp_l temp_r (bands_l, bands_r)
    some (m', copied.0, copied.1)

  unfoldable pub process_block :
      List d.Carrier
      → List d.Carrier
      → List d.Carrier
      → ℕ
      → MultiBandN d × List (List d.Carrier) × List (List d.Carrier)
      → Option (MultiBandN d × List (List d.Carrier) × List (List d.Carrier))
  unfolding block_round for_m
  process_block garbage in_l in_r num_samples = for_m num_samples (block_round garbage in_l in_r)

  -- The gain of a band; `none` is `nullptr`.
  unfoldable pub gain_of : Option (List d.Carrier) → ℕ → d.Carrier
  gain_of none b = one d
  gain_of (some gains) b = get_or gains b (nought d)

  unfoldable pub sum_bands :
      List (List d.Carrier)
      → List (List d.Carrier)
      → ℕ
      → Option (List d.Carrier)
      → MultiBandN d
      → List d.Carrier × List d.Carrier
      → List d.Carrier × List d.Carrier
  unfolding gain_of for_below
  sum_bands bands_l bands_r num_samples gains m =
      for_below num_samples (λ i (out : List d.Carrier × List d.Carrier).
        let sample =
          λ (bands : List (List d.Carrier)) (b : ℕ). get_or (get_or bands b []) i (nought d) in
        let sums =
          for_below m.num_bands
            (λ b (sum : d.Carrier × d.Carrier).
              let g = gain_of gains b in
              (d.add sum.0 (d.mul g (sample bands_l b)), d.add sum.1 (d.mul g (sample bands_r b))))
            (nought d, nought d) in
        (write out.0 i sums.0, write out.1 i sums.1))
