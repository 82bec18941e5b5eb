-- ===== src/Audio/Fifo/Samples.antt =====
-- audio/AudioSampleFifo.h. `kFifoSize` is the size of the fifo; a buffer of that size belongs to each
-- channel. The number of samples of a push is not negative, and each pointer has that many.
pub mod Reads
pub mod Blocks
pub mod Channels
pub mod Latest
use phu_audio_lib.Base.{
  ℕ, zero, suc, ◌+◌, ◌==◌, ltb, ℤ, pos, pos_part, min_ℤ, ltb_ℤ, leb_ℤ, ◌-ℤ◌, List, [], ◌∷◌, take,
  drop, blit, replicate, if◌then◌else◌,
}
use phu_audio_lib.Audio.Fifo.{AbstractFifo, block_size}

-- The loops over the channels.
unfoldable pub each_channel {ℓ κ} :
    {A : Type ℓ} {B : Type κ} → (A → B → A) → List A → List B → List A
each_channel f [] ys = []
each_channel f (x ∷ xs) [] = x ∷ xs
each_channel f (x ∷ xs) (y ∷ ys) = f x y ∷ each_channel f xs ys

module _ (fifo : AbstractFifo) (A : Type 0) where
  pub record SampleFifo : Type 0 where
    pub indices : fifo.State
    pub buffer : List (List A)

  unfoldable pub new_sample_fifo : ℕ → A → SampleFifo
  new_sample_fifo num_channels silence = record {
    indices = fifo.initial;
    buffer = replicate num_channels (replicate fifo.total_size silence);
  }

  unfoldable pub push : List (List A) → ℕ → SampleFifo → SampleFifo
  unfolding each_channel
  push channel_data num_samples f =
      let scope = fifo.prepare_to_write f.indices num_samples in
      let first =
        if ltb 0 scope.block_size1
        then each_channel
            (λ (buf samples : List A). blit buf scope.start_index1 (take scope.block_size1 samples))
            f.buffer channel_data
        else f.buffer in
      let second =
        if ltb 0 scope.block_size2
        then each_channel
            (λ (buf samples : List A).
              blit buf scope.start_index2 (take scope.block_size2 (drop scope.block_size1 samples)))
            first channel_data
        else first in
      record { indices = fifo.finished_write f.indices (block_size scope); buffer = second }

  -- The indices behind the samples that are too old.
  unfoldable pub discard : ℤ → fifo.State → fifo.State
  discard num_samples s =
      let to_drop = pos (fifo.num_ready s) -ℤ num_samples in
      if ltb_ℤ (pos 0) to_drop
      then fifo.finished_read s (block_size (fifo.prepare_to_read s (pos_part to_drop)))
      else s

  -- The copies to the destination of a read of `n` samples.
  unfoldable pub copy_out : fifo.State → ℕ → List (List A) → List (List A) → List (List A)
  unfolding each_channel
  copy_out s n buffer destination =
      let scope = fifo.prepare_to_read s n in
      let first =
        if ltb 0 scope.block_size1
        then each_channel
            (λ (dst buf : List A).
              blit dst 0 (take scope.block_size1 (drop scope.start_index1 buf)))
            destination buffer
        else destination in
      if ltb 0 scope.block_size2
      then each_channel
          (λ (dst buf : List A).
            blit dst scope.block_size1 (take scope.block_size2 (drop scope.start_index2 buf)))
          first buffer
      else first

  unfoldable pub pull : List (List A) → ℤ → SampleFifo → SampleFifo × List (List A) × ℕ
  unfolding discard copy_out
  pull destination num_samples f =
      let dropped = discard num_samples f.indices in
      let to_read = min_ℤ num_samples (pos (fifo.num_ready dropped)) in
      let n = pos_part to_read in
      let size = block_size (fifo.prepare_to_read dropped n) in
      if fifo.num_ready f.indices == 0
      then (f, destination, 0)
      else if leb_ℤ to_read (pos 0)
      then (record f { indices = dropped }, destination, 0)
      else (
        record f { indices = fifo.finished_read dropped size },
        copy_out dropped n f.buffer destination,
        size,
      )

  unfoldable pub get_num_available : SampleFifo → ℕ
  get_num_available f = fifo.num_ready f.indices

  unfoldable pub reset : SampleFifo → SampleFifo
  reset f = record f { indices = fifo.reset f.indices }
