-- ===== src/Audio/FftProcessor/Feed.antt =====
-- audio/FFTProcessor.h with audio/AudioSampleFifo.h: a call of `process` on a fifo of two channels.
use phu_audio_lib.Base.{
  ℕ, ◌-◌, ◌≤◌, ◌<◌, ◌≡◌, sym, ap, ◌∙◌, subst, pos, min, ◌==◌, ==_iff, if_cases, Bool, List, [], ◌∷◌,
  length, length-map, length-drop, drop, get_or, blit, blit-all, arith,
}
use phu_audio_lib.Double.{Double}
use phu_audio_lib.Analog.Elements.{nought}
use phu_audio_lib.Audio.Fifo.{AbstractFifo, FifoLaws}
use phu_audio_lib.Audio.Fifo.Laws.{read_at}
use phu_audio_lib.Audio.Fifo.Samples.{SampleFifo, each_channel, pull, get_num_available}
use phu_audio_lib.Audio.Fifo.Samples.Latest.{pull_latest}
use phu_audio_lib.Audio.FftProcessor.{FftProcessor, take_in, process}
use phu_audio_lib.Audio.FftProcessor.Sliding.{
  Transform, Block, mixed, IsValid, Slides, take_in-Slides,
}

module _ (d : Double) (fifo : AbstractFifo) (ready : fifo.State → List ℕ)
    (laws : FifoLaws fifo ready) where
  abbrev block_of : List (List d.Carrier) → ℕ → Block d
  block_of read n = record { left = get_or read 0 []; right = get_or read 1 []; size = n }

  -- The newest `n` samples of a channel of the fifo.
  abbrev pub newest : ℕ → fifo.State → List d.Carrier → List d.Carrier
  newest n s buffer = drop (fifo.num_ready s - n) (read_at (nought d) buffer (ready s))

  length-newest :
      (n : ℕ) (s : fifo.State) (buffer : List d.Carrier)
      → n ≤ fifo.num_ready s
      → length (newest n s buffer) ≡ n
  length-newest n s buffer h =
      let all = length-map (ready s) (λ i. get_or buffer i (nought d)) in
      omega (
        arith,
        all,
        laws.num_ready_lem s,
        length-drop (fifo.num_ready s - n) (read_at (nought d) buffer (ready s)),
      )

  -- A call with samples waiting, of valid buffers, slides the ring by the newest samples of both
  -- channels, mixed: all that wait, but at most as many as the transform takes. It leaves the fifo
  -- empty.
  pub process-Slides :
      (transform : Transform d) (garbage : ℕ → List d.Carrier) (s : fifo.State)
      (left right : List d.Carrier) (p : FftProcessor d)
      → ((n : ℕ) → length (garbage n) ≡ n)
      → length left ≡ fifo.total_size
      → length right ≡ fifo.total_size
      → IsValid d p
      → 0 < fifo.num_ready s
      → let n = min (fifo.num_ready s) p.fft_size in
        let f : SampleFifo fifo d.Carrier = record { indices = s; buffer = left ∷ right ∷ [] } in
        let after = process d fifo transform garbage f p in
        Slides d p
          (mixed d (record { left = newest n s left; right = newest n s right; size = n }))
          after.1
        × (fifo.num_ready after.0.indices ≡ 0)
  unfolding process each_channel get_num_available
  process-Slides transform garbage s left right p whole sized sized' valid waiting =
      let n = min (fifo.num_ready s) p.fft_size in
      let f : SampleFifo fifo d.Carrier = record { indices = s; buffer = left ∷ right ∷ [] } in
      let temp = garbage n ∷ garbage n ∷ [] in
      let pulled = pull fifo d.Carrier temp (pos n) f in
      let (read, count, empty) =
        pull_latest fifo ready laws (nought d) temp n f (omega (arith, valid.inside))
          (sized, (sized', tt)) in
      let copied = λ (buffer : List d.Carrier).
        blit-all (garbage n) (newest n s buffer)
          (length-newest n s buffer (omega arith) ∙ sym (whole n)) in
      let number : pulled.2 ≡ n = count ∙ (omega arith) in
      let Done : SampleFifo fifo d.Carrier × FftProcessor d × Bool → Type 0 = λ after.
        Slides d p (mixed d (record { left = newest n s left; right = newest n s right; size = n }))
          after.1
        × (fifo.num_ready after.0.indices ≡ 0) in
      let both : pulled.1 ≡ newest n s left ∷ newest n s right ∷ [] =
        read
        ∙ ap (λ xs. xs ∷ blit (garbage n) 0 (newest n s right) ∷ []) (copied left)
        ∙ ap (λ xs. newest n s left ∷ xs ∷ []) (copied right) in
      let same =
        ap (λ channels. mixed d (block_of channels pulled.2)) both
        ∙ ap (λ k. mixed d (block_of (newest n s left ∷ newest n s right ∷ []) k)) number in
      let slid =
        subst
          (λ xs.
            Slides d p xs
              (take_in d transform (get_or pulled.1 0 []) (get_or pulled.1 1 []) pulled.2 p).0)
          same (take_in-Slides d transform (block_of pulled.1 pulled.2) p valid) in
      if_cases Done (fifo.num_ready s == 0) _ _
        (λ idle. absurd (omega (arith, (==_iff (fifo.num_ready s) 0).0 idle)))
        (λ waits.
          if_cases Done (pulled.2 == 0) _ _
            (λ idle. absurd (omega (arith, number, valid.inside, (==_iff pulled.2 0).0 idle)))
            (λ moved. (slid, empty)))
