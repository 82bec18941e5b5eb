-- ===== src/Audio/Fifo/Samples/Latest.antt =====
-- audio/AudioSampleFifo.h: what the channels hold, and what a pull hands over.
use phu_audio_lib.Base.{
  ℕ, ◌-◌, ◌≤◌, ◌≡◌, refl, sym, ap, ◌∙◌, arith, ltb, ◌==◌, pos, pos_part, min_ℤ, leb_ℤ, false,
  Bool-cases, inl, inr, List, [], ◌++◌, map, length, take, drop, blit, All, min, take-length,
  length-drop,
}
use phu_audio_lib.Audio.Fifo.{AbstractFifo, FifoLaws, block_size, places}
use phu_audio_lib.Audio.Fifo.Laws.{read_at, read_at-drop, length-places}
use phu_audio_lib.Audio.Fifo.Samples.{SampleFifo, each_channel, push, pull, discard, copy_out}
use phu_audio_lib.Audio.Fifo.Samples.Reads.{blit-nil}
use phu_audio_lib.Audio.Fifo.Samples.Blocks.{
  write_blocks, read_blocks, read_at-write_blocks, read_blocks-read_at,
}
use phu_audio_lib.Audio.Fifo.Samples.Channels.{
  each-id, map-each, each-map, two_loops, positive_sub, part_sub, nil_of_length, none_left,
  drop-nil,
}

module _ (fifo : AbstractFifo) (ready : fifo.State → List ℕ) (laws : FifoLaws fifo ready)
    {A : Type 0} (silence : A) where
  -- The samples of each channel that were pushed and not yet pulled or dropped, the oldest first.
  abbrev pub contents : SampleFifo fifo A → List (List A)
  contents f = map (λ buf. read_at silence buf (ready f.indices)) f.buffer

  abbrev pub IsSized : SampleFifo fifo A → Type 0
  IsSized f = All (λ buf. length buf ≡ fifo.total_size) f.buffer

  push-buffer :
      (channel_data : List (List A)) (n : ℕ) (f : SampleFifo fifo A)
      → (push fifo A channel_data n f).buffer
        ≡ each_channel (write_blocks (fifo.prepare_to_write f.indices n)) f.buffer channel_data
  unfolding push write_blocks
  push-buffer channel_data n f =
      let b = fifo.prepare_to_write f.indices n in
      two_loops (ltb 0 b.block_size1) (ltb 0 b.block_size2)
        (λ (buf samples : List A). blit buf b.start_index1 (take b.block_size1 samples))
        (λ (buf samples : List A).
          blit buf b.start_index2 (take b.block_size2 (drop b.block_size1 samples)))
        f.buffer channel_data
        (λ e buf samples. rw (none_left b.block_size1 e) (blit-nil buf b.start_index1))
        (λ e buf samples. rw (none_left b.block_size2 e) (blit-nil buf b.start_index2))

  -- A push of `n` samples for each channel appends to each channel the first of them that fit into the
  -- `kFifoSize - 1` places, and drops the others; what was not yet read stays.
  pub contents-push :
      (channel_data : List (List A)) (n : ℕ) (f : SampleFifo fifo A)
      → IsSized f
      → length channel_data ≡ length f.buffer
      → All (λ samples. n ≤ length samples) channel_data
      → contents (push fifo A channel_data n f)
        ≡ each_channel
            (λ old samples.
              old ++ take (min n (fifo.total_size - 1 - fifo.num_ready f.indices)) samples)
            (contents f)
            channel_data
  contents-push channel_data n f sized same enough =
      let s = f.indices in
      let b = fifo.prepare_to_write s n in
      let fits : block_size b ≡ min n (fifo.total_size - 1 - fifo.num_ready s) =
        laws.write_size s n
        ∙ ap (λ k. min n (fifo.total_size - 1 - k)) (sym (laws.num_ready_lem s)) in
      let behind : ready (push fifo A channel_data n f).indices ≡ ready s ++ places b =
        unfold push in laws.write_ready s n in
      ap (λ js. map (λ buf. read_at silence buf js) (push fifo A channel_data n f).buffer) behind
      ∙ ap (map (λ buf. read_at silence buf (ready s ++ places b))) (push-buffer channel_data n f)
      ∙ map-each (λ buf. length buf ≡ fifo.total_size) (λ samples. n ≤ length samples)
          (write_blocks b)
          (λ old samples. old ++ take (min n (fifo.total_size - 1 - fifo.num_ready s)) samples)
          (λ buf. read_at silence buf (ready s)) (λ buf. read_at silence buf (ready s ++ places b))
          f.buffer channel_data
          (λ buf samples e long.
            read_at-write_blocks silence b buf samples (ready s) (omega (arith, fits))
              (omega (arith, laws.write_inside1 s n, e)) (laws.write_inside2 s n)
              (laws.write_free s n)
            ∙ ap (λ k. read_at silence buf (ready s) ++ take k samples) fits)
          same sized enough

  -- Behind the drop of a pull at most the newest `n` samples are left.
  discard-ready :
      (n : ℕ) (s : fifo.State)
      → ready (discard fifo A (pos n) s) ≡ drop (length (ready s) - n) (ready s)
  unfolding discard
  discard-ready n s = elim (Bool-cases (ltb n (fifo.num_ready s))) [
    | inl older ↦
        rw
          (
            positive_sub (fifo.num_ready s) n,
            older,
            part_sub (fifo.num_ready s) n,
            laws.num_ready_lem s,
          )
          (laws.read_ready s (length (ready s) - n))
    | inr fits ↦
        let nothing : 0 ≡ length (ready s) - n = ground (arith, laws.num_ready_lem s) in
        rw (positive_sub (fifo.num_ready s) n, fits) (ap (λ k. drop k (ready s)) nothing)
  ]

  copy_out-blocks :
      (s : fifo.State) (n : ℕ) (buffer destination : List (List A))
      → copy_out fifo A s n buffer destination
        ≡ each_channel (read_blocks (fifo.prepare_to_read s n)) destination buffer
  unfolding copy_out read_blocks
  copy_out-blocks s n buffer destination =
      let b = fifo.prepare_to_read s n in
      two_loops (ltb 0 b.block_size1) (ltb 0 b.block_size2)
        (λ (dst buf : List A). blit dst 0 (take b.block_size1 (drop b.start_index1 buf)))
        (λ (dst buf : List A).
          blit dst b.block_size1 (take b.block_size2 (drop b.start_index2 buf)))
        destination buffer (λ e dst buf. rw (none_left b.block_size1 e) (blit-nil dst 0))
        (λ e dst buf. rw (none_left b.block_size2 e) (blit-nil dst b.block_size1))

  -- What a read of places `js` copies into each channel of the destination.
  copy_out-contents :
      (s : fifo.State) (n skip : ℕ) (is : List ℕ) (buffer destination : List (List A))
      → All (λ buf. length buf ≡ fifo.total_size) buffer
      → places (fifo.prepare_to_read s n) ≡ drop skip is
      → copy_out fifo A s n buffer destination
        ≡ each_channel
            (λ dst old. blit dst 0 (drop skip old))
            destination
            (map (λ buf. read_at silence buf is) buffer)
  copy_out-contents s n skip is buffer destination sized read =
      let b = fifo.prepare_to_read s n in
      copy_out-blocks s n buffer destination
      ∙ each-map (λ buf. length buf ≡ fifo.total_size) (read_blocks b)
          (λ dst old. blit dst 0 (drop skip old)) (λ buf. read_at silence buf is) destination buffer
          (λ dst buf e.
            read_blocks-read_at silence b dst buf (omega (arith, laws.read_inside1 s n, e))
              (omega (arith, laws.read_inside2 s n, e))
            ∙ ap (λ js. blit dst 0 (read_at silence buf js)) read
            ∙ ap (blit dst 0) (read_at-drop silence buf skip is))
          sized

  -- A pull of `n` samples, `n` at least 1, copies the newest `n` samples of each channel, or all where there
  -- are fewer, to the beginning of its destination, returns their number and leaves the fifo empty; the
  -- rest of the destination stays.
  pub pull_latest :
      (destination : List (List A)) (n : ℕ) (f : SampleFifo fifo A)
      → 1 ≤ n
      → IsSized f
      → ((pull fifo A destination (pos n) f).1
          ≡ each_channel
              (λ dst old. blit dst 0 (drop (fifo.num_ready f.indices - n) old))
              destination
              (contents f))
        × ((pull fifo A destination (pos n) f).2 ≡ min n (fifo.num_ready f.indices))
        × (fifo.num_ready (pull fifo A destination (pos n) f).0.indices ≡ 0)
  unfolding pull
  pull_latest destination n f positive sized =
      let s = f.indices in
      let available = length (ready s) in
      let counted = laws.num_ready_lem s in
      let dropped = discard fifo A (pos n) s in
      let newest = discard-ready n s in
      let left : fifo.num_ready dropped ≡ available - (available - n) =
        laws.num_ready_lem dropped ∙ ap length newest ∙ length-drop (available - n) (ready s) in
      elim (Bool-cases (fifo.num_ready s == 0)) [
        | inl empty ↦
            let nothing : ready s ≡ [] = nil_of_length (ready s) (ground arith) in
            let skip = fifo.num_ready s - n in
            let kept =
              each-map (λ buf. length buf ≡ fifo.total_size) (λ dst buf. dst)
                (λ dst old. blit dst 0 (drop skip old)) (λ buf. read_at silence buf (ready s))
                destination f.buffer
                (λ dst buf e. sym (
                  ap (λ js. blit dst 0 (drop skip (read_at silence buf js))) nothing
                  ∙ ap (blit dst 0) (drop-nil skip)
                  ∙ blit-nil dst 0))
                sized in
            rw empty (
              sym (each-id (λ dst buf. dst) destination f.buffer (λ dst buf. refl)) ∙ kept,
              ground arith,
              ground arith,
            )
        | inr filled ↦
            let r = fifo.num_ready dropped in
            let more : leb_ℤ (min_ℤ (pos n) (pos r)) (pos 0) ≡ false = ground arith in
            let amount : pos_part (min_ℤ (pos n) (pos r)) ≡ r = ground arith in
            let whole : places (fifo.prepare_to_read dropped r) ≡ ready dropped =
              laws.read_places dropped r
              ∙ ap (λ k. take k (ready dropped)) (laws.num_ready_lem dropped)
              ∙ take-length (ready dropped) in
            let size = sym (length-places (fifo.prepare_to_read dropped r)) ∙ ap length whole in
            rw (filled, more, amount)
              (
                copy_out-contents dropped r (fifo.num_ready s - n) (ready s) f.buffer destination
                    sized (whole ∙ newest ∙ ap (λ k. drop (k - n) (ready s)) (sym counted)),
                omega (arith, size, laws.num_ready_lem dropped, left, counted),
                laws.num_ready_lem _
                    ∙ ap length (laws.read_ready dropped r)
                    ∙ length-drop r (ready dropped)
                    ∙ omega (arith, laws.num_ready_lem dropped),
              )
      ]
