-- ===== src/Audio/FftProcessor/Tests.antt =====
-- audio/FFTProcessor.h at concrete inputs, in integers.
use phu_audio_lib.Base.{
  ◌≡◌, refl, ◌+◌, ◌^◌, ◌+ℤ◌, ◌*ℤ◌, pos, negsuc, [], ◌∷◌, ◌++◌, false, leb, length, drop, replicate,
  tabulate, get_or, arith,
}
use phu_audio_lib.Double.Integers.{integers}
use phu_audio_lib.Analog.Elements.{nought}
use phu_audio_lib.Audio.FftProcessor.{
  FftProcessor, limit_order, hann, fft_input, set_fft_order, mix_in,
}
use phu_audio_lib.Audio.FftProcessor.Sliding.{Block, Transform, all_mixed, feed}
use phu_audio_lib.Audio.FftProcessor.Filled.{feed-fft_input, feed-filled}

limits : (limit_order (negsuc 3) ≡ 10) × (limit_order (pos 12) ≡ 12) × (limit_order (pos 40) ≡ 15)
unfolding limit_order
limits = (refl, refl, refl)

-- A processor of four samples, such as the limits do not allow.
abbrev small : FftProcessor integers
small = record {
  current_order = 2;
  fft_size = 4;
  attack = pos 0;
  decay = pos 0;
  strength = pos 1;
  window = [];
  magnitudes = [];
  smoothed = [];
  ring = replicate 4 (pos 0);
  write_pos = 3;
  filled = false;
  accumulated = 3000;
}

wraps :
    mix_in integers
      (pos 1 ∷ pos 2 ∷ [])
      (pos 3 ∷ pos 4 ∷ [])
      2
      (record small { ring = pos 7 ∷ pos 8 ∷ pos 9 ∷ pos 6 ∷ [] })
    ≡ record small { ring = pos 0 ∷ pos 8 ∷ pos 9 ∷ pos 0 ∷ []; write_pos = 1 }
unfolding mix_in ◌+ℤ◌ ◌*ℤ◌
wraps = refl

abbrev silence : Transform integers
silence order xs = xs

abbrev block : Block integers
block = record { left = pos 1 ∷ pos 2 ∷ []; right = pos 3 ∷ pos 4 ∷ []; size = 2 }

feed-fft_input_example :
    fft_input integers
      (feed integers silence (block ∷ block ∷ []) (set_fft_order integers (pos 10) small))
    ≡ tabulate (2 ^ limit_order (pos 10)) (λ i.
      integers.mul
        (get_or
          (drop (length (all_mixed integers (block ∷ block ∷ []))) (
            replicate (2 ^ limit_order (pos 10)) (nought integers)
            ++ all_mixed integers (block ∷ block ∷ [])))
          i
          (nought integers))
        (hann integers (2 ^ limit_order (pos 10)) i))
      ++ replicate (2 ^ limit_order (pos 10)) (nought integers)
unfolding limit_order
feed-fft_input_example =
    feed-fft_input integers silence (pos 10) (block ∷ block ∷ []) small
      (λ e. absurd (omega (arith, e)))

-- The samples that were counted before the change are more than the new window: two samples fill it.
feed-filled_example :
    (feed integers silence (block ∷ []) (set_fft_order integers (pos 10) small)).filled
    ≡ leb (2 ^ limit_order (pos 10)) (small.accumulated + length (all_mixed integers (block ∷ [])))
unfolding limit_order
feed-filled_example =
    feed-filled integers silence (pos 10) block [] small (λ e. absurd (omega (arith, e)))
