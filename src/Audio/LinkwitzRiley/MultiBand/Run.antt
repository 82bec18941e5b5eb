-- ===== src/Audio/LinkwitzRiley/MultiBand/Run.antt =====
-- audio/LinkwitzRileyFilter.h: the calls that a crossover sees.
use phu_audio_lib.Base.{
  ℕ, ◌≤◌, ◌≡◌, ◌==◌, Bool-cases, inl, inr, false, refl, Option, some, ◌>>=◌, both, Returns,
  Returns-bind, Returns-pair, for_m-Returns, List, [], ◌∷◌, ltb, ◌≢◌, get_or, ◌⊎◌, arith,
}
use native.Mathlib.Decide.{ℕ_discrete}
use phu_audio_lib.Double.{Double}
use phu_audio_lib.Analog.Elements.{nought}
use phu_audio_lib.Audio.LinkwitzRiley.{Slope}
use phu_audio_lib.Audio.LinkwitzRiley.MultiBand.{
  Channel, MultiBandN, Outcome, returned, invalid_argument, new_multiband, initialize,
  set_params_multi, reset_multi,
}
use phu_audio_lib.Audio.LinkwitzRiley.MultiBand.Arrays.{ChannelIsReady, IsReady}
use phu_audio_lib.Audio.LinkwitzRiley.MultiBand.Process.{
  process_sample_multi, block_round, process_block,
}
use phu_audio_lib.Audio.LinkwitzRiley.MultiBand.Channels.{
  process_channel, process_sample_multi-channels,
}
use phu_audio_lib.Audio.LinkwitzRiley.MultiBand.Safety.{process_channel-ChannelIsReady}
use phu_audio_lib.Audio.LinkwitzRiley.MultiBand.Setup.{set_params_multi-initialize}
use phu_audio_lib.Audio.LinkwitzRiley.MultiBand.Reset.{reset_multi-IsReady}
use phu_audio_lib.Audio.LinkwitzRiley.MultiBand.Initialize.{
  Succeeds, Succeeds-weaken, new_channel-IsSized, initialize-IsReady,
}

module _ (d : Double) where
  pub data Call : Type 0 where
    initialize_call : Slope → List d.Carrier → ℕ → d.Carrier → Call
    params_call : Slope → List d.Carrier → ℕ → d.Carrier → Call
    reset_call : Call
    sample_call : d.Carrier → d.Carrier → List d.Carrier → List d.Carrier → Call
    block_call :
        List d.Carrier
        → List d.Carrier
        → List d.Carrier
        → ℕ
        → List (List d.Carrier)
        → List (List d.Carrier)
        → Call

  -- An exception leaves the object as it was.
  abbrev pub or_as_before : MultiBandN d → Outcome (MultiBandN d) → MultiBandN d
  or_as_before m (returned m') = m'
  or_as_before m invalid_argument = m

  unfoldable pub call : Call → MultiBandN d → Option (MultiBandN d)
  unfolding initialize set_params_multi reset_multi process_sample_multi process_block
  call (initialize_call slope freqs n rate) m =
      some (or_as_before m (initialize d slope freqs n rate m))
  call (params_call slope freqs n rate) m =
      some (or_as_before m (set_params_multi d slope freqs n rate m))
  call reset_call m = some (reset_multi d m)
  call (sample_call in_l in_r bands_l bands_r) m = do
    r ← process_sample_multi d in_l in_r bands_l bands_r m
    some r.0
  call (block_call garbage in_l in_r n bands_l bands_r) m = do
    r ← process_block d garbage in_l in_r n (m, bands_l, bands_r)
    some r.0

  unfoldable pub run : List Call → MultiBandN d → Option (MultiBandN d)
  unfolding call
  run [] m = some m
  run (c ∷ calls) m = call c m >>= run calls

  process_sample_multi-IsReady :
      (in_l in_r : d.Carrier) (bands_l bands_r : List d.Carrier) (m : MultiBandN d)
      → IsReady d m
      → Returns (process_sample_multi d in_l in_r bands_l bands_r m) (λ r. IsReady d r.0)
  process_sample_multi-IsReady in_l in_r bands_l bands_r m h =
      let n = m.num_freqs in
      let Q : Channel d × List d.Carrier → Type 0 = λ r. ChannelIsReady d n r.0 in
      let left = process_channel d n m.num_bands in_l bands_l m.left in
      let right = process_channel d n m.num_bands in_r bands_r m.right in
      rw (process_sample_multi-channels d in_l in_r bands_l bands_r m) (
        Returns-bind (λ u. Q u.0 × Q u.1) (λ r. IsReady d r.0) (both left right) _
          (Returns-pair Q Q left right
            (process_channel-ChannelIsReady d n m.num_bands in_l bands_l m.left h.not_too_many
              h.left)
            (process_channel-ChannelIsReady d n m.num_bands in_r bands_r m.right h.not_too_many
              h.right))
          (λ u q. record {
            freqs = h.freqs;
            bands = h.bands;
            some_freqs = h.some_freqs;
            not_too_many = h.not_too_many;
            left = q.0;
            right = q.1;
          }))

  process_block-IsReady :
      (garbage in_l in_r : List d.Carrier) (n : ℕ)
      (state : MultiBandN d × List (List d.Carrier) × List (List d.Carrier))
      → IsReady d state.0
      → Returns (process_block d garbage in_l in_r n state) (λ r. IsReady d r.0)
  unfolding process_block block_round
  process_block-IsReady garbage in_l in_r n =
      for_m-Returns (λ i r. IsReady d r.0) (block_round d garbage in_l in_r) n
        (λ i (m, bands_l, bands_r) lt h.
          Returns-bind (λ r. IsReady d r.0) (λ r. IsReady d r.0) _ _
            (process_sample_multi-IsReady (get_or in_l i (nought d)) (get_or in_r i (nought d))
              garbage garbage m h)
            (λ r q. q))

  or_as_before-IsReady :
      (m : MultiBandN d) (o : Outcome (MultiBandN d))
      → IsReady d m
      → Succeeds o (IsReady d) ⊎ (o ≡ invalid_argument)
      → IsReady d (or_as_before m o)
  or_as_before-IsReady m (returned m') h (inl r) = r
  or_as_before-IsReady m (returned m') h (inr e) = absurd (cc)
  or_as_before-IsReady m invalid_argument h r = h

  initialize_ends :
      (slope : Slope) (freqs : List d.Carrier) (n : ℕ) (rate : d.Carrier) (m : MultiBandN d)
      → IsReady d m
      → Succeeds (initialize d slope freqs n rate m) (IsReady d)
        ⊎ (initialize d slope freqs n rate m ≡ invalid_argument)
  unfolding initialize
  initialize_ends slope freqs n rate m h = elim (Bool-cases (ltb n 1)) [
    | inl too_few ↦ inr (rw too_few)
    | inr enough ↦ elim (Bool-cases (ltb 6 n)) [
      | inl too_many ↦ inr (rw (enough, too_many))
      | inr few ↦ inl (
          initialize-IsReady d slope freqs rate n (ground arith) m (ground arith) h.freqs
            h.left.sized h.right.sized)
    ]
  ]

  set_params_multi_ends :
      (slope : Slope) (freqs : List d.Carrier) (n : ℕ) (rate : d.Carrier) (m : MultiBandN d)
      → IsReady d m
      → Succeeds (set_params_multi d slope freqs n rate m) (IsReady d)
        ⊎ (set_params_multi d slope freqs n rate m ≡ invalid_argument)
  unfolding set_params_multi
  set_params_multi_ends slope freqs n rate m h = elim (ℕ_discrete n m.num_freqs) [
    | yes same ↦
        rw
          (
            same,
            set_params_multi-initialize d slope freqs rate m h.bands h.some_freqs h.not_too_many,
          )
          (initialize_ends slope freqs m.num_freqs rate m h)
    | no other ↦ inr (throws other)
  ]
    where
      throws : n ≢ m.num_freqs → set_params_multi d slope freqs n rate m ≡ invalid_argument
      throws ne = let e : (n == m.num_freqs) ≡ false = ground arith in rw e

  call-IsReady : (c : Call) (m : MultiBandN d) → IsReady d m → Returns (call c m) (IsReady d)
  unfolding call
  call-IsReady (initialize_call slope freqs n rate) m h =
      or_as_before-IsReady m _ h (initialize_ends slope freqs n rate m h)
  call-IsReady (params_call slope freqs n rate) m h =
      or_as_before-IsReady m _ h (set_params_multi_ends slope freqs n rate m h)
  call-IsReady reset_call m h = reset_multi-IsReady d m h
  call-IsReady (sample_call in_l in_r bands_l bands_r) m h =
      Returns-bind (λ r. IsReady d r.0) (IsReady d)
        (process_sample_multi d in_l in_r bands_l bands_r m) _
        (process_sample_multi-IsReady in_l in_r bands_l bands_r m h) (λ r q. q)
  call-IsReady (block_call garbage in_l in_r n bands_l bands_r) m h =
      Returns-bind (λ r. IsReady d r.0) (IsReady d)
        (process_block d garbage in_l in_r n (m, bands_l, bands_r)) _
        (process_block-IsReady garbage in_l in_r n (m, bands_l, bands_r) h) (λ r q. q)

  run-IsReady :
      (calls : List Call) (m : MultiBandN d) → IsReady d m → Returns (run calls m) (IsReady d)
  unfolding run
  run-IsReady [] m h = h
  run-IsReady (c ∷ calls) m h =
      Returns-bind (IsReady d) (IsReady d) (call c m) (run calls) (call-IsReady c m h)
        (run-IsReady calls)

  -- A crossover that is made with 1 to 6 frequencies never reads or writes out of its arrays of filters and of
  -- frequencies, nor out of the vectors of a filter that it uses, whatever calls of initialize, setParams, reset,
  -- processSample and processBlock follow, also ones that throw: no call faults, after each the arrays have elements at all
  -- six indices, and each filter in use has as many states and coefficients as stages,
  -- at least one.
  pub run-IsReady_from_new :
      (slope : Slope) (freqs : List d.Carrier) (n : ℕ) (rate : d.Carrier) (calls : List Call)
      → 1 ≤ n
      → n ≤ 6
      → Succeeds
          (initialize d slope freqs n rate (new_multiband d))
          (λ m. Returns (run calls m) (IsReady d))
  unfolding new_multiband
  run-IsReady_from_new slope freqs n rate calls low high =
      Succeeds-weaken (IsReady d) (λ m. Returns (run calls m) (IsReady d))
        (initialize d slope freqs n rate (new_multiband d)) (run-IsReady calls)
        (initialize-IsReady d slope freqs rate n high (new_multiband d) low refl
          (new_channel-IsSized d) (new_channel-IsSized d))
