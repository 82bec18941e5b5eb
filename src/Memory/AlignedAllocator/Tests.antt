-- ===== src/Memory/AlignedAllocator/Tests.antt =====
-- memory/AlignedAllocator.h for elements of 4 bytes, and an allocator that gives the size as pointer.
use phu_audio_lib.Base.{ℕ, ◌-◌, ◌*◌, ◌^◌, ◌≤◌, ◌<◌, ◌≡◌, ◌⊎◌, refl, Option, none, some, arith}
use phu_audio_lib.Memory.AlignedAllocator.{rounded, allocate}
use phu_audio_lib.Memory.AlignedAllocator.Sizes.{IsRounded, allocate-IsRounded, allocate-overflow}

abbrev granted : ℕ → ℕ → Option ℕ
granted alignment bytes = some bytes

rounds_up : (rounded 4 32 9 ≡ 64) × (rounded 4 32 0 ≡ 0)
unfolding rounded
rounds_up = (refl, refl)

allocate-IsRounded_example :
    (bytes : ℕ) × IsRounded 4 32 9 bytes × (allocate granted 4 32 9 ≡ granted 32 bytes)
allocate-IsRounded_example =
    allocate-IsRounded 4 32 9 (omega arith) granted (omega arith) (omega arith) (omega arith)

-- One element less than 2 ^ 62: its padding does not fit in 64 bits.
too_large :
    ((2 ^ 64 ≤ (2 ^ 62 - 1) * 4) × (allocate granted 4 32 (2 ^ 62 - 1) ≡ none))
    ⊎ (((2 ^ 62 - 1) * 4 < 2 ^ 64) × (allocate granted 4 32 (2 ^ 62 - 1) ≡ granted 32 0))
too_large = allocate-overflow 4 32 (2 ^ 62 - 1) (omega arith) granted (omega arith) (omega arith)
