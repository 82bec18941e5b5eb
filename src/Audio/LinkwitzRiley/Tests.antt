-- ===== src/Audio/LinkwitzRiley/Tests.antt =====
-- audio/LinkwitzRileyFilter.h at concrete inputs, in integers.
use phu_audio_lib.Base.{
  ◌≡◌, refl, pos, negsuc, ℤ, ◌-ℤ◌, ◌+ℤ◌, ◌*ℤ◌, List, [], ◌∷◌, none, some, ◌>>=◌, both, Returns,
  arith,
}
use phu_audio_lib.Double.Integers.{integers}
use phu_audio_lib.Audio.LinkwitzRiley.{
  Slope, BiquadState, BiquadCoeffs, empty_state, run_stages, make_filter, FilterType, set_params,
}
use phu_audio_lib.Audio.LinkwitzRiley.Stereo.{make_crossover}
use phu_audio_lib.Audio.LinkwitzRiley.TwoBands.{
  multi_outputs, crossover_outputs, multi_outputs-crossover,
}
use phu_audio_lib.Audio.LinkwitzRiley.MultiBand.{new_multiband, initialize, set_params_multi}
use phu_audio_lib.Audio.LinkwitzRiley.MultiBand.Arrays.{IsReady}
use phu_audio_lib.Audio.LinkwitzRiley.MultiBand.Process.{process_sample_multi, sum_bands}
use phu_audio_lib.Audio.LinkwitzRiley.MultiBand.Channels.{
  process_channel, rejoin, process_sample_multi-channels,
}
use phu_audio_lib.Audio.LinkwitzRiley.MultiBand.Run.{
  Call, initialize_call, params_call, reset_call, sample_call, run, run-IsReady_from_new,
}
use phu_audio_lib.Audio.LinkwitzRiley.MultiBand.Setup.{set_params_multi-initialize}
use phu_audio_lib.Audio.LinkwitzRiley.MultiBand.Initialize.{Succeeds}

-- Two stages with y = 2 x - x1 + y1: the second reads what the first leaves.
abbrev stage : BiquadCoeffs integers
stage = record { b0 = pos 2; b1 = negsuc 0; b2 = pos 0; a1 = negsuc 0; a2 = pos 0 }

abbrev state_after : ℤ → ℤ → BiquadState integers
state_after x y = record { x1 = x; x2 = pos 0; y1 = y; y2 = pos 0 }

two_stages :
    run_stages integers 2
      (stage ∷ stage ∷ [])
      (empty_state integers ∷ empty_state integers ∷ [])
      (pos 3)
    ≡ some (state_after (pos 3) (pos 6) ∷ state_after (pos 6) (pos 12) ∷ [], pos 12)
unfolding run_stages ◌-ℤ◌ ◌+ℤ◌ ◌*ℤ◌
two_stages = refl

stages_kept :
    (set_params integers FilterType.high_pass Slope.db24
      (pos 100)
      (pos 48000)
      (make_filter integers FilterType.low_pass Slope.db48 (pos 100) (pos 48000))).stages
    ≡ empty_state integers ∷ empty_state integers ∷ []
unfolding set_params make_filter
stages_kept = refl

new_multiband_faults :
    process_sample_multi integers
      (pos 1)
      (pos 1)
      (pos 0 ∷ pos 0 ∷ [])
      (pos 0 ∷ pos 0 ∷ [])
      (new_multiband integers)
    ≡ none
unfolding process_sample_multi new_multiband
new_multiband_faults = refl

sums :
    sum_bands integers
      ((pos 1 ∷ pos 2 ∷ []) ∷ (pos 10 ∷ pos 20 ∷ []) ∷ [])
      ((pos 3 ∷ pos 4 ∷ []) ∷ (pos 30 ∷ pos 40 ∷ []) ∷ [])
      2
      (some (pos 1 ∷ pos 2 ∷ []))
      (new_multiband integers)
      (pos 0 ∷ pos 0 ∷ [], pos 0 ∷ pos 0 ∷ [])
    ≡ (pos 21 ∷ pos 42 ∷ [], pos 63 ∷ pos 84 ∷ [])
unfolding sum_bands new_multiband ◌+ℤ◌ ◌*ℤ◌
sums = refl

abbrev freqs : List ℤ
freqs = pos 300 ∷ pos 3000 ∷ []

set_params_multi-initialize_example :
    set_params_multi integers Slope.db48 freqs 1 (pos 48000) (new_multiband integers)
    ≡ initialize integers Slope.db48 freqs 1 (pos 48000) (new_multiband integers)
unfolding new_multiband
set_params_multi-initialize_example =
    set_params_multi-initialize integers Slope.db48 freqs (pos 48000) (new_multiband integers) refl
      (omega arith) (omega arith)

process_sample_multi-channels_example :
    process_sample_multi integers
      (pos 5)
      (pos 7)
      (pos 0 ∷ pos 0 ∷ [])
      (pos 0 ∷ pos 0 ∷ [])
      (new_multiband integers)
    ≡ (both
          (process_channel integers
            (new_multiband integers).num_freqs
            (new_multiband integers).num_bands
            (pos 5)
            (pos 0 ∷ pos 0 ∷ [])
            (new_multiband integers).left)
          (process_channel integers
            (new_multiband integers).num_freqs
            (new_multiband integers).num_bands
            (pos 7)
            (pos 0 ∷ pos 0 ∷ [])
            (new_multiband integers).right)
        >>= λ c. some (rejoin integers (new_multiband integers) c.0 c.1))
process_sample_multi-channels_example =
    process_sample_multi-channels integers (pos 5) (pos 7) (pos 0 ∷ pos 0 ∷ []) (pos 0 ∷ pos 0 ∷ [])
      (new_multiband integers)

-- A sample, a change with the wrong number of frequencies, one to six bands, and a sample.
abbrev history : List (Call integers)
history =
    sample_call (pos 1) (pos 2) (pos 0 ∷ pos 0 ∷ pos 0 ∷ []) (pos 0 ∷ pos 0 ∷ pos 0 ∷ [])
    ∷ params_call Slope.db24 freqs 1 (pos 48000)
    ∷ initialize_call Slope.db24 (pos 1 ∷ pos 2 ∷ pos 3 ∷ pos 4 ∷ pos 5 ∷ []) 5 (pos 48000)
    ∷ reset_call
    ∷ sample_call (pos 1) (pos 2) [] []
    ∷ []

run-IsReady_from_new_example :
    Succeeds
      (initialize integers Slope.db48 freqs 2 (pos 48000) (new_multiband integers))
      (λ m. Returns (run integers history m) (IsReady integers))
run-IsReady_from_new_example =
    run-IsReady_from_new integers Slope.db48 freqs 2 (pos 48000) history (omega arith) (omega arith)

abbrev inputs : List (ℤ × ℤ)
inputs = (pos 1, pos 2) ∷ (pos 3, pos 0) ∷ []

multi_outputs-crossover_example :
    Succeeds
      (initialize integers Slope.db24
        (pos 300 ∷ pos 3000 ∷ [])
        1
        (pos 48000)
        (new_multiband integers))
      (λ m.
        Returns
          (crossover_outputs integers inputs
            (make_crossover integers Slope.db24 (pos 300) (pos 48000)))
          (λ outs. multi_outputs integers (pos 8) (pos 9) inputs m ≡ some outs))
multi_outputs-crossover_example =
    multi_outputs-crossover integers Slope.db24 (pos 300) (pos 48000) (pos 8) (pos 9)
      (pos 3000 ∷ []) inputs
