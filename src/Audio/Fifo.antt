-- ===== src/Audio/Fifo.antt =====
-- The index bookkeeping that audio/PacketFifo.h and audio/AudioSampleFifo.h take from JUCE:
-- `juce::AbstractFifo` is no code of the repository, but a parameter.
pub mod Laws
pub mod Packets
pub mod Samples
mod Tests
use phu_audio_lib.Base.{
  ℕ, zero, suc, ◌+◌, ◌-◌, ◌≤◌, ◌<◌, ◌≡◌, ◌≢◌, ◌⊎◌, List, [], ◌∷◌, ◌++◌, length, take, drop, min,
  All,
}

-- The two blocks of a `ScopedRead` or a `ScopedWrite`.
pub record Blocks : Type 0 where
  pub start_index1 : ℕ
  pub block_size1 : ℕ
  pub start_index2 : ℕ
  pub block_size2 : ℕ

abbrev pub block_size : Blocks → ℕ
block_size b = b.block_size1 + b.block_size2

abbrev pub span : ℕ → ℕ → List ℕ
span start zero = []
span start (suc n) = start ∷ span (suc start) n

-- The places of both blocks, in order.
abbrev pub places : Blocks → List ℕ
places b = span b.start_index1 b.block_size1 ++ span b.start_index2 b.block_size2

-- The operations. `read` and `write` make a scope, and its end is `finished_read` or `finished_write`
-- of the number of its places.
pub record AbstractFifo : Type 1 where
  pub State : Type 0
  pub total_size : ℕ
  pub initial : State
  pub num_ready : State → ℕ
  pub reset : State → State
  pub prepare_to_write : State → ℕ → Blocks
  pub finished_write : State → ℕ → State
  pub prepare_to_read : State → ℕ → Blocks
  pub finished_read : State → ℕ → State

-- What JUCE documents of them. `ready` stands for the places that were written and not yet read, the
-- oldest first: one place less than the size can be taken, a write is offered free places in the buffer,
-- the second block in front of the first, and a read is offered the oldest of those that are ready.
pub record FifoLaws (fifo : AbstractFifo) (ready : fifo.State → List ℕ) : Type 0 where
  pub initial_ready : ready fifo.initial ≡ []
  pub reset_ready : (s : fifo.State) → ready (fifo.reset s) ≡ []
  pub num_ready_lem : (s : fifo.State) → fifo.num_ready s ≡ length (ready s)
  pub ready_bound : (s : fifo.State) → length (ready s) < fifo.total_size
  pub ready_inside : (s : fifo.State) → All (λ i. i < fifo.total_size) (ready s)
  pub write_size :
      (s : fifo.State) (n : ℕ)
      → block_size (fifo.prepare_to_write s n) ≡ min n (fifo.total_size - 1 - length (ready s))
  pub write_inside1 :
      (s : fifo.State) (n : ℕ)
      → (fifo.prepare_to_write s n).start_index1 + (fifo.prepare_to_write s n).block_size1
        ≤ fifo.total_size
  pub write_inside2 :
      (s : fifo.State) (n : ℕ)
      → (fifo.prepare_to_write s n).start_index2 + (fifo.prepare_to_write s n).block_size2
        ≤ (fifo.prepare_to_write s n).start_index1
  pub write_free :
      (s : fifo.State) (n : ℕ)
      → All (λ i. All (λ j. i ≢ j) (places (fifo.prepare_to_write s n))) (ready s)
  pub write_ready :
      (s : fifo.State) (n : ℕ)
      → ready (fifo.finished_write s (block_size (fifo.prepare_to_write s n)))
        ≡ ready s ++ places (fifo.prepare_to_write s n)
  pub read_inside1 :
      (s : fifo.State) (n : ℕ)
      → (fifo.prepare_to_read s n).start_index1 + (fifo.prepare_to_read s n).block_size1
        ≤ fifo.total_size
  pub read_inside2 :
      (s : fifo.State) (n : ℕ)
      → (fifo.prepare_to_read s n).start_index2 + (fifo.prepare_to_read s n).block_size2
        ≤ fifo.total_size
  pub read_places : (s : fifo.State) (n : ℕ) → places (fifo.prepare_to_read s n) ≡ take n (ready s)
  pub read_ready :
      (s : fifo.State) (n : ℕ)
      → ready (fifo.finished_read s (block_size (fifo.prepare_to_read s n))) ≡ drop n (ready s)
