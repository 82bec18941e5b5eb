-- ===== src/Audio/FftProcessor.antt =====
-- audio/FFTProcessor.h. A `float` is of the carrier of the parameter `Double`; the transform of
-- juce::dsp::FFT, of the order and of the 2 ^ (order + 1) numbers that it is given, is a parameter.
-- The numbers in `fftData` are all written before each transform and are not kept. The count of the
-- samples is below 2 ^ 31.
pub mod Window
pub mod Sliding
pub mod Filled
pub mod Feed
mod Tests
use phu_audio_lib.Base.{
  ℕ, zero, suc, ◌+◌, ◌-◌, ◌*◌, ◌/◌, ◌%◌, ◌^◌, ℤ, pos, negsuc, ltb, leb, ◌==◌, min, Bool, true,
  false, List, [], ◌∷◌, ◌++◌, set, get_or, replicate, tabulate, for_below, if◌then◌else◌,
}
use phu_audio_lib.Double.{Double}
use phu_audio_lib.Analog.Elements.{nought, one, two}
use phu_audio_lib.Analog.TubeStage.{clamp}
use phu_audio_lib.Audio.Fifo.{AbstractFifo}
use phu_audio_lib.Audio.Fifo.Samples.{SampleFifo, pull, get_num_available}

-- `juce::jlimit(10, 15, order)`.
unfoldable pub limit_order : ℤ → ℕ
limit_order (pos n) = if ltb n 10 then 10 else if ltb 15 n then 15 else n
limit_order (negsuc n) = 10

module _ (d : Double) where
  abbrev half : d.Carrier
  half = d.lit (pos 5) 10

  pub record FftProcessor : Type 0 where
    pub current_order : ℕ
    pub fft_size : ℕ
    pub attack : d.Carrier
    pub decay : d.Carrier
    pub strength : d.Carrier
    pub window : List d.Carrier
    pub magnitudes : List d.Carrier
    pub smoothed : List d.Carrier
    pub ring : List d.Carrier
    pub write_pos : ℕ
    pub filled : Bool
    pub accumulated : ℕ

  -- The Hann window at `i`.
  unfoldable pub hann : ℕ → ℕ → d.Carrier
  hann size i =
      let pi = d.lit (pos 314159265358979323846) 100000000000000000000 in
      let angle = d.div (d.mul (d.mul (two d) pi) (d.of_int (pos i))) (d.of_int (pos (size - 1))) in
      d.mul half (d.sub (one d) (d.cos angle))

  unfoldable pub set_fft_order : ℤ → FftProcessor → FftProcessor
  unfolding limit_order hann
  set_fft_order order p =
      let limited = limit_order order in
      let size = 2 ^ limited in
      if limited == p.current_order then p else record p {
        current_order = limited;
        fft_size = size;
        window = tabulate size (hann size);
        magnitudes = replicate (size / 2) (nought d);
        smoothed = replicate (size / 2) (nought d);
        ring = replicate size (nought d);
        write_pos = 0;
        filled = false;
      }

  -- The constructor.
  unfoldable pub new_processor : ℤ → FftProcessor
  unfolding set_fft_order
  new_processor order = set_fft_order order (record {
    current_order = 0;
    fft_size = 0;
    attack = nought d;
    decay = nought d;
    strength = d.lit (pos 3) 10;
    window = [];
    magnitudes = [];
    smoothed = [];
    ring = [];
    write_pos = 0;
    filled = false;
    accumulated = 0;
  })

  unfoldable pub set_temporal_smoothing : d.Carrier → d.Carrier → FftProcessor → FftProcessor
  unfolding clamp
  set_temporal_smoothing attack decay p = record p {
    attack = clamp d attack (nought d) (one d);
    decay = clamp d decay (nought d) (one d);
  }

  unfoldable pub set_frequency_smoothing : d.Carrier → FftProcessor → FftProcessor
  unfolding clamp
  set_frequency_smoothing strength p = record p { strength = clamp d strength (nought d) (one d) }

  -- A sample of both channels as one of the ring.
  unfoldable pub mono : d.Carrier → d.Carrier → d.Carrier
  mono left right = d.mul (d.add left right) half

  -- A round of the loop that shifts the samples in.
  unfoldable pub shift_in : ℕ → d.Carrier → List d.Carrier × ℕ → List d.Carrier × ℕ
  shift_in size v (ring, write_pos) = (set ring write_pos v, (write_pos + 1) % size)

  unfoldable pub mix_in : List d.Carrier → List d.Carrier → ℕ → FftProcessor → FftProcessor
  unfolding shift_in mono for_below
  mix_in left right n p =
      let mixed =
        for_below n
          (λ i s.
            shift_in p.fft_size (mono (get_or left i (nought d)) (get_or right i (nought d))) s)
          (p.ring, p.write_pos) in
      record p { ring = mixed.0; write_pos = mixed.1 }

  -- The input of the transform: the window over the ring from its oldest sample on, and zeros.
  unfoldable pub fft_input : FftProcessor → List d.Carrier
  fft_input p =
      tabulate p.fft_size (λ i.
        d.mul (get_or p.ring ((p.write_pos + i) % p.fft_size) (nought d))
          (get_or p.window i (nought d)))
      ++ replicate p.fft_size (nought d)

  -- A round of the temporal smoothing, at bin `i`.
  unfoldable pub smooth_bin : List d.Carrier → ℕ → FftProcessor → FftProcessor
  smooth_bin spectrum i p =
      let new_magnitude =
        d.div (d.mul (get_or spectrum i (nought d)) (d.lit (pos 4) 1))
          (d.of_int (pos p.fft_size)) in
      let old = get_or p.smoothed i (nought d) in
      let coefficient = if d.lt old new_magnitude then p.attack else p.decay in
      let value = d.add (d.mul old coefficient) (d.mul new_magnitude (d.sub (one d) coefficient)) in
      record p { smoothed = set p.smoothed i value; magnitudes = set p.magnitudes i value }

  -- A round of the frequency smoothing. The bin on the left is already smoothed.
  unfoldable pub blend_bin : d.Carrier → ℕ → List d.Carrier → List d.Carrier
  blend_bin strength k magnitudes =
      let i = suc k in
      let left_bin = get_or magnitudes (i - 1) (nought d) in
      let center_bin = get_or magnitudes i (nought d) in
      let right_bin = get_or magnitudes (i + 1) (nought d) in
      let smoothed =
        d.mul (d.add (d.add left_bin (d.mul center_bin (two d))) right_bin) (d.lit (pos 25) 100) in
      set magnitudes i (d.add (d.mul center_bin (d.sub (one d) strength)) (d.mul smoothed strength))

  -- What `process` does from the transform on.
  unfoldable pub analyse : (ℕ → List d.Carrier → List d.Carrier) → FftProcessor → FftProcessor
  unfolding fft_input smooth_bin blend_bin for_below
  analyse transform p =
      let spectrum = transform p.current_order (fft_input p) in
      let num_bins = p.fft_size / 2 in
      let q = for_below num_bins (smooth_bin spectrum) p in
      if d.lt (nought d) q.strength
      then record q { magnitudes = for_below (num_bins - 2) (blend_bin q.strength) q.magnitudes }
      else q

  -- The count of the samples, up to a full window.
  unfoldable pub count : ℕ → FftProcessor → FftProcessor
  count n p =
      if p.filled
      then p
      else record p { accumulated = p.accumulated + n; filled = leb p.fft_size (p.accumulated + n) }

  -- The samples that were read.
  unfoldable pub take_in :
      (ℕ → List d.Carrier → List d.Carrier)
      → List d.Carrier
      → List d.Carrier
      → ℕ
      → FftProcessor
      → FftProcessor × Bool
  unfolding mix_in count analyse
  take_in transform left right n p =
      let counted = count n (mix_in left right n p) in
      if counted.filled then (analyse transform counted, true) else (counted, false)

  module _ (fifo : AbstractFifo) where
    -- The temporary buffer of `process` holds `garbage` before.
    unfoldable pub process :
        (ℕ → List d.Carrier → List d.Carrier)
        → (ℕ → List d.Carrier)
        → SampleFifo fifo d.Carrier
        → FftProcessor
        → SampleFifo fifo d.Carrier × FftProcessor × Bool
    unfolding take_in pull get_num_available
    process transform garbage f p =
        let available = get_num_available fifo d.Carrier f in
        let to_read = min available p.fft_size in
        let temp = garbage to_read ∷ garbage to_read ∷ [] in
        let (f', read, n) = pull fifo d.Carrier temp (pos to_read) f in
        let (p', done) = take_in transform (get_or read 0 []) (get_or read 1 []) n p in
        if available == 0
        then (f, p, p.filled)
        else if n == 0
        then (f', p, p.filled)
        else (f', p', done)

  unfoldable pub get_bin_frequency : ℤ → d.Carrier → FftProcessor → d.Carrier
  get_bin_frequency bin sample_rate p =
      d.div (d.mul (d.of_int bin) sample_rate) (d.of_int (pos p.fft_size))
