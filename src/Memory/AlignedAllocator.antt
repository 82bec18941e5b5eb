-- ===== src/Memory/AlignedAllocator.antt =====
-- memory/AlignedAllocator.h. `size_type` is of 64 bits. `posix_memalign`, or `_aligned_malloc`, is a
-- parameter: of the alignment and the number of bytes it gives a pointer, or none.
pub mod Sizes
mod Tests
use phu_audio_lib.Base.{ℕ, ◌+◌, ◌-◌, ◌*◌, ◌/◌, ◌%◌, ◌^◌, ltb, Option, none, some, if◌then◌else◌}

abbrev pub word : ℕ
word = 2 ^ 64

-- `((n * sizeof(T) + Alignment - 1) / Alignment) * Alignment`.
unfoldable pub rounded : ℕ → ℕ → ℕ → ℕ
rounded size_of alignment n =
    let padded = ((n * size_of) % word + alignment) % word in
    let less_one = (padded + word - 1) % word in (less_one / alignment * alignment) % word

module _ {Pointer : Type 0} (memalign : ℕ → ℕ → Option Pointer) where
  -- `none` is `std::bad_alloc`.
  unfoldable pub allocate : ℕ → ℕ → ℕ → Option Pointer
  unfolding rounded
  allocate size_of alignment n =
      if ltb ((word - 1) / size_of) n
      then none
      else memalign alignment (rounded size_of alignment n)
