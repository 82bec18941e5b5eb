-- ===== src/Audio/Fifo/Samples/Blocks.antt =====
-- audio/AudioSampleFifo.h: the two copies of a block into a ring buffer, and out of it.
use phu_audio_lib.Base.{
  ℕ, ◌+◌, ◌≤◌, ◌≡◌, ◌≢◌, refl, sym, ap, ◌∙◌, arith, List, ◌++◌, length, take, drop, blit, All,
  length-take, length-drop, length-blit,
}
use phu_audio_lib.Audio.Fifo.{Blocks, block_size, span, places}
use phu_audio_lib.Audio.Fifo.Laws.{read_at, read_at-append}
use phu_audio_lib.Audio.Fifo.Samples.Reads.{
  read_at-blit_outside, read_at-blit-span, All-left, All-right, All-mono, spans_apart, read_at-span,
  take-add, blit-append,
}

-- Both copies of a push, into one channel.
unfoldable pub write_blocks {ℓ} : {A : Type ℓ} → Blocks → List A → List A → List A
write_blocks b buf samples =
    blit (blit buf b.start_index1 (take b.block_size1 samples)) b.start_index2
      (take b.block_size2 (drop b.block_size1 samples))

-- Both copies of a pull, out of one channel.
unfoldable pub read_blocks {ℓ} : {A : Type ℓ} → Blocks → List A → List A → List A
read_blocks b dst buf =
    blit (blit dst 0 (take b.block_size1 (drop b.start_index1 buf))) b.block_size1
      (take b.block_size2 (drop b.start_index2 buf))

module _ {ℓ} {A : Type ℓ} (d : A) where
  written_twice :
      (buf : List A) (i k : ℕ) (p1 p2 : List A) (is : List ℕ)
      → i + length p1 ≤ length buf
      → k + length p2 ≤ i
      → All (λ r. All (λ j. r ≢ j) (span i (length p1))) is
      → All (λ r. All (λ j. r ≢ j) (span k (length p2))) is
      → read_at d (blit (blit buf i p1) k p2) (is ++ (span i (length p1) ++ span k (length p2)))
        ≡ read_at d buf is ++ (p1 ++ p2)
  written_twice buf i k p1 p2 is in1 in2 apart1 apart2 =
      let first = blit buf i p1 in
      rw
        (
          read_at-append d (blit first k p2) is (span i (length p1) ++ span k (length p2)),
          read_at-append d (blit first k p2) (span i (length p1)) (span k (length p2)),
          read_at-blit_outside d first k p2 is apart2,
          read_at-blit_outside d buf i p1 is apart1,
          read_at-blit_outside d first k p2 (span i (length p1))
              (spans_apart i (length p1) k (length p2) in2),
          read_at-blit-span d buf i p1 in1,
          read_at-blit-span d first k p2 (omega (arith, length-blit buf i p1)),
        )
        refl

  two_blits :
      (buf : List A) (i k m n : ℕ) (p1 p2 : List A) (is : List ℕ)
      → length p1 ≡ m
      → length p2 ≡ n
      → i + m ≤ length buf
      → k + n ≤ i
      → All (λ r. All (λ j. r ≢ j) (span i m)) is
      → All (λ r. All (λ j. r ≢ j) (span k n)) is
      → read_at d (blit (blit buf i p1) k p2) (is ++ (span i m ++ span k n))
        ≡ read_at d buf is ++ (p1 ++ p2)
  two_blits buf i k m n p1 p2 is e1 e2 in1 in2 apart1 apart2 =
      rw (sym e1, sym e2)
        (written_twice buf i k p1 p2 is (omega (arith, e1)) (omega (arith, e2)) (rw e1 apart1)
          (rw e2 apart2))

module _ {ℓ} {A : Type ℓ} (d : A) (b : Blocks) where
  -- The samples stand at the places of the blocks, and the places that are none of these are as before.
  pub read_at-write_blocks :
      (buf samples : List A) (is : List ℕ)
      → block_size b ≤ length samples
      → b.start_index1 + b.block_size1 ≤ length buf
      → b.start_index2 + b.block_size2 ≤ b.start_index1
      → All (λ i. All (λ j. i ≢ j) (places b)) is
      → read_at d (write_blocks b buf samples) (is ++ places b)
        ≡ read_at d buf is ++ take (block_size b) samples
  unfolding write_blocks
  read_at-write_blocks buf samples is enough in1 in2 apart =
      let p1 = take b.block_size1 samples in
      let p2 = take b.block_size2 (drop b.block_size1 samples) in
      let n1 : length p1 ≡ b.block_size1 = length-take b.block_size1 samples ∙ omega arith in
      let n2 : length p2 ≡ b.block_size2 =
        length-take b.block_size2 (drop b.block_size1 samples)
        ∙ omega (arith, length-drop b.block_size1 samples) in
      let left = λ (i : ℕ) (h : All (λ j. i ≢ j) (places b)).
        All-left (λ j. i ≢ j) (span b.start_index1 b.block_size1)
          (span b.start_index2 b.block_size2) h in
      let right = λ (i : ℕ) (h : All (λ j. i ≢ j) (places b)).
        All-right (λ j. i ≢ j) (span b.start_index1 b.block_size1)
          (span b.start_index2 b.block_size2) h in
      two_blits d buf b.start_index1 b.start_index2 b.block_size1 b.block_size2 p1 p2 is n1 n2 in1
        in2
        (All-mono (λ i. All (λ j. i ≢ j) (places b))
          (λ i. All (λ j. i ≢ j) (span b.start_index1 b.block_size1)) is left apart)
        (All-mono (λ i. All (λ j. i ≢ j) (places b))
          (λ i. All (λ j. i ≢ j) (span b.start_index2 b.block_size2)) is right apart)
      ∙ ap (λ ys. read_at d buf is ++ ys) (take-add b.block_size1 b.block_size2 samples)

  pub read_blocks-read_at :
      (dst buf : List A)
      → b.start_index1 + b.block_size1 ≤ length buf
      → b.start_index2 + b.block_size2 ≤ length buf
      → read_blocks b dst buf ≡ blit dst 0 (read_at d buf (places b))
  unfolding read_blocks
  read_blocks-read_at dst buf in1 in2 =
      let p1 = take b.block_size1 (drop b.start_index1 buf) in
      let p2 = take b.block_size2 (drop b.start_index2 buf) in
      let n1 : b.block_size1 ≡ 0 + length p1 = omega (
        arith,
        length-take b.block_size1 (drop b.start_index1 buf),
        length-drop b.start_index1 buf,
      ) in
      blit-append dst 0 p1 b.block_size1 p2 n1
      ∙ ap (blit dst 0) (
          sym (
            read_at-append d buf (span b.start_index1 b.block_size1)
              (span b.start_index2 b.block_size2)
            ∙ rw
                (
                  read_at-span d buf b.start_index1 b.block_size1 in1,
                  read_at-span d buf b.start_index2 b.block_size2 in2,
                )
                refl))
