-- ===== src/Audio/Fifo/Tests.antt =====
-- The fifos over indices of the smallest size: two places, of which one can be taken.
use phu_audio_lib.Base.{
  ℕ, ℤ, zero, suc, ◌+◌, ◌-◌, ◌≤◌, ◌<◌, ◌≡◌, ◌≢◌, refl, sym, ap, arith, pos, true, false, List, [],
  ◌∷◌, ◌++◌, replicate, length-replicate, length, take, drop, min, All,
}
use phu_audio_lib.Double.Integers.{integers}
use phu_audio_lib.Audio.FftProcessor.{FftProcessor, process}
use phu_audio_lib.Audio.FftProcessor.Feed.{newest, process-Slides}
use phu_audio_lib.Audio.FftProcessor.Sliding.{Transform, mixed, Slides}
use phu_audio_lib.Audio.Fifo.{AbstractFifo, Blocks, FifoLaws, block_size, places}
use phu_audio_lib.Audio.Fifo.Packets.{new_fifo}
use phu_audio_lib.Audio.Fifo.Packets.Refine.{Call, Answer, run, spec_run, run_as_queue}
use phu_audio_lib.Audio.Fifo.Samples.{SampleFifo, each_channel, push}
use phu_audio_lib.Audio.Fifo.Samples.Reads.{take-nil}
use phu_audio_lib.Audio.Fifo.Samples.Channels.{drop-nil}
use phu_audio_lib.Audio.Fifo.Samples.Latest.{contents, contents-push}

data Place : Type 0 where
  empty0 : Place
  empty1 : Place
  full0 : Place
  full1 : Place

abbrev no_blocks : Blocks
no_blocks = record { start_index1 = 0; block_size1 = 0; start_index2 = 0; block_size2 = 0 }

abbrev one_block : ℕ → Blocks
one_block i = record { start_index1 = i; block_size1 = 1; start_index2 = 0; block_size2 = 0 }

abbrev offered : Place → ℕ → Blocks
offered s zero = no_blocks
offered empty0 (suc n) = one_block 0
offered empty1 (suc n) = one_block 1
offered full0 (suc n) = no_blocks
offered full1 (suc n) = no_blocks

abbrev written : Place → ℕ → Place
written s zero = s
written empty0 (suc n) = full0
written empty1 (suc n) = full1
written full0 (suc n) = full0
written full1 (suc n) = full1

abbrev readable : Place → ℕ → Blocks
readable s zero = no_blocks
readable empty0 (suc n) = no_blocks
readable empty1 (suc n) = no_blocks
readable full0 (suc n) = one_block 0
readable full1 (suc n) = one_block 1

abbrev consumed : Place → ℕ → Place
consumed s zero = s
consumed empty0 (suc n) = empty0
consumed empty1 (suc n) = empty1
consumed full0 (suc n) = empty1
consumed full1 (suc n) = empty0

abbrev ready_places : Place → List ℕ
ready_places empty0 = []
ready_places empty1 = []
ready_places full0 = 0 ∷ []
ready_places full1 = 1 ∷ []

abbrev tiny : AbstractFifo
tiny = record {
  State = Place;
  total_size = 2;
  initial = empty0;
  num_ready = λ s. length (ready_places s);
  reset = λ s. empty0;
  prepare_to_write = offered;
  finished_write = written;
  prepare_to_read = readable;
  finished_read = consumed;
}

ready-inside : (s : Place) → All (λ i. i < 2) (ready_places s)
ready-inside empty0 = tt
ready-inside s = omega arith

ready-lt : (s : Place) → length (ready_places s) < 2
ready-lt empty0 = omega arith
ready-lt s = omega arith

offered-size :
    (s : Place) (n : ℕ) → block_size (offered s n) ≡ min n (2 - 1 - length (ready_places s))
offered-size s zero = omega arith
offered-size empty0 (suc n) = omega arith
offered-size s (suc n) = omega arith

offered-inside :
    (s : Place) (n : ℕ)
    → ((offered s n).start_index1 + (offered s n).block_size1 ≤ 2)
      × ((offered s n).start_index2 + (offered s n).block_size2 ≤ (offered s n).start_index1)
offered-inside s zero = omega arith
offered-inside empty0 (suc n) = omega arith
offered-inside s (suc n) = omega arith

offered-free :
    (s : Place) (n : ℕ) → All (λ i. All (λ j. i ≢ j) (places (offered s n))) (ready_places s)
offered-free empty0 zero = tt
offered-free empty0 (suc n) = tt
offered-free empty1 n = tt
offered-free full0 zero = (tt, tt)
offered-free full0 (suc n) = (tt, tt)
offered-free full1 zero = (tt, tt)
offered-free full1 (suc n) = (tt, tt)

written-ready :
    (s : Place) (n : ℕ)
    → ready_places (written s (block_size (offered s n))) ≡ ready_places s ++ places (offered s n)
written-ready empty0 zero = refl
written-ready s zero = refl
written-ready empty0 (suc n) = refl
written-ready s (suc n) = refl

readable-inside :
    (s : Place) (n : ℕ)
    → ((readable s n).start_index1 + (readable s n).block_size1 ≤ 2)
      × ((readable s n).start_index2 + (readable s n).block_size2 ≤ 2)
readable-inside s zero = omega arith
readable-inside empty0 (suc n) = omega arith
readable-inside s (suc n) = omega arith

readable-places : (s : Place) (n : ℕ) → places (readable s n) ≡ take n (ready_places s)
readable-places s zero = refl
readable-places empty0 (suc n) = refl
readable-places empty1 (suc n) = refl
readable-places full0 (suc n) = ap (λ js. 0 ∷ js) (sym (take-nil n))
readable-places full1 (suc n) = ap (λ js. 1 ∷ js) (sym (take-nil n))

consumed-ready :
    (s : Place) (n : ℕ)
    → ready_places (consumed s (block_size (readable s n))) ≡ drop n (ready_places s)
consumed-ready empty0 zero = refl
consumed-ready s zero = refl
consumed-ready empty0 (suc n) = refl
consumed-ready empty1 (suc n) = refl
consumed-ready full0 (suc n) = sym (drop-nil n)
consumed-ready full1 (suc n) = sym (drop-nil n)

tiny-FifoLaws : FifoLaws tiny ready_places
tiny-FifoLaws = record {
  initial_ready = refl;
  reset_ready = λ s. refl;
  num_ready_lem = λ s. refl;
  ready_bound = ready-lt;
  ready_inside = ready-inside;
  write_size = offered-size;
  write_inside1 = λ s n. (offered-inside s n).0;
  write_inside2 = λ s n. (offered-inside s n).1;
  write_free = offered-free;
  write_ready = written-ready;
  read_inside1 = λ s n. (readable-inside s n).0;
  read_inside2 = λ s n. (readable-inside s n).1;
  read_places = readable-places;
  read_ready = consumed-ready;
}

abbrev calls : List (Call ℕ)
calls = Call.push_call 5 ∷ Call.push_call 6 ∷ Call.pull_call 0 ∷ Call.pull_call 9 ∷ []

-- The second push finds the fifo full, the second pull finds it empty.
answers :
    spec_run ℕ 1 calls []
    ≡ Answer.pushed true ∷ Answer.pushed false ∷ Answer.pulled 5 true ∷ Answer.pulled 9 false ∷ []
answers = refl

run_as_queue_example :
    run tiny ready_places tiny-FifoLaws 0 calls (new_fifo tiny ℕ 7) ≡ spec_run ℕ (2 - 1) calls []
run_as_queue_example = run_as_queue tiny ready_places tiny-FifoLaws 0 7 calls

abbrev stereo : SampleFifo tiny ℕ
stereo = record { indices = empty1; buffer = (0 ∷ 0 ∷ []) ∷ (0 ∷ 0 ∷ []) ∷ [] }

abbrev block : List (List ℕ)
block = (3 ∷ 4 ∷ []) ∷ (5 ∷ 6 ∷ []) ∷ []

contents-push_example :
    contents tiny ready_places tiny-FifoLaws 0 (push tiny ℕ block 2 stereo)
    ≡ each_channel
        (λ old samples. old ++ take (min 2 (2 - 1 - 0)) samples)
        (contents tiny ready_places tiny-FifoLaws 0 stereo)
        block
contents-push_example =
    contents-push tiny ready_places tiny-FifoLaws 0 block 2 stereo (refl, (refl, tt)) refl
      (omega arith, (omega arith, tt))

abbrev loaded : SampleFifo tiny ℕ
loaded = record { indices = full1; buffer = (0 ∷ 3 ∷ []) ∷ (0 ∷ 5 ∷ []) ∷ [] }

-- A processor of four samples, which are silent.
abbrev analyser : FftProcessor integers
analyser = record {
  current_order = 2;
  fft_size = 4;
  attack = pos 0;
  decay = pos 0;
  strength = pos 0;
  window = [];
  magnitudes = [];
  smoothed = [];
  ring = replicate 4 (pos 0);
  write_pos = 3;
  filled = false;
  accumulated = 0;
}

abbrev no_transform : Transform integers
no_transform order xs = xs

abbrev silent : ℕ → List ℤ
silent n = replicate n (pos 0)

abbrev left_channel : List ℤ
left_channel = pos 0 ∷ pos 3 ∷ []

abbrev right_channel : List ℤ
right_channel = pos 0 ∷ pos 5 ∷ []

abbrev waiting : SampleFifo tiny ℤ
waiting = record { indices = full1; buffer = left_channel ∷ right_channel ∷ [] }

process-Slides_example :
    Slides integers analyser
      (mixed integers (record {
        left = newest integers tiny ready_places tiny-FifoLaws 1 full1 left_channel;
        right = newest integers tiny ready_places tiny-FifoLaws 1 full1 right_channel;
        size = 1;
      }))
      (process integers tiny no_transform silent waiting analyser).1
    × (length (ready_places (process integers tiny no_transform silent waiting analyser).0.indices)
        ≡ 0)
process-Slides_example =
    process-Slides integers tiny ready_places tiny-FifoLaws no_transform silent full1 left_channel
      right_channel analyser (λ n. length-replicate n (pos 0)) refl refl
      (record { full = refl; inside = omega arith }) (omega arith)
