-- ===== src/Memory/AlignedAllocator/Sizes.antt =====
-- memory/AlignedAllocator.h: the number of bytes that is asked for.
use native.Mathlib.Nat.{
  le-div_iff_mul-le, div-lt_iff_lt-mul, div-mul-le_self, lt-div-mul-add, mod-eq_of_lt, div-eq_of_lt,
  mul-mod_left,
}
use native.Mathlib.Decide.{dec_lt}
use phu_audio_lib.Base.{
  ℕ, ◌+◌, ◌-◌, ◌*◌, ◌/◌, ◌%◌, ◌^◌, ◌≤◌, ◌<◌, ◌≡◌, ◌⊎◌, inl, inr, ltb, true, false, Option, none,
  arith,
}
use phu_audio_lib.Memory.AlignedAllocator.{word, rounded, allocate}

-- As many bytes as the elements take, in whole blocks of the alignment, and less than a block more.
pub record IsRounded (size_of alignment n bytes : ℕ) : Type 0 where
  pub enough : n * size_of ≤ bytes
  pub tight : bytes < n * size_of + alignment
  pub whole : bytes % alignment ≡ 0

-- The sum of the code, where it does not wrap around and where it does.
less_one :
    (total alignment : ℕ)
    → total < 2 ^ 64
    → 0 < alignment
    → alignment ≤ 2 ^ 64
    → total + (alignment - 1) < 2 ^ 64
    → (((total % word + alignment) % word) + word - 1) % word ≡ total + (alignment - 1)
less_one total alignment h p a fits = omega arith

less_one_wrapped :
    (total alignment : ℕ)
    → total < 2 ^ 64
    → alignment ≤ 2 ^ 64
    → 2 ^ 64 ≤ total + (alignment - 1)
    → (((total % word + alignment) % word) + word - 1) % word ≡ total + (alignment - 1) - 2 ^ 64
less_one_wrapped total alignment h a over = omega arith

module _ (size_of alignment n : ℕ) (small : alignment ≤ 2 ^ 64) where
  rounded-IsRounded :
      0 < alignment
      → n * size_of + (alignment - 1) < 2 ^ 64
      → IsRounded size_of alignment n (rounded size_of alignment n)
  unfolding rounded
  rounded-IsRounded some_bytes fits =
      let sum = n * size_of + (alignment - 1) in
      let blocks = sum / alignment * alignment in
      let le : blocks ≤ sum = div-mul-le_self sum alignment in
      let lt : sum < blocks + alignment = lt-div-mul-add some_bytes in
      let kept : blocks % word ≡ blocks = mod-eq_of_lt (omega (arith, le)) in
      rw (less_one (n * size_of) alignment (omega arith) some_bytes small fits, kept)
        (record {
          enough = omega (arith, lt);
          tight = omega (arith, le);
          whole = mul-mod_left (sum / alignment) alignment;
        })

  rounded_wrapped :
      n * size_of < 2 ^ 64
      → 2 ^ 64 ≤ n * size_of + (alignment - 1)
      → rounded size_of alignment n ≡ 0
  unfolding rounded
  rounded_wrapped total over =
      let none_left : (n * size_of + (alignment - 1) - 2 ^ 64) / alignment ≡ 0 =
        div-eq_of_lt (omega arith) in
      rw (less_one_wrapped (n * size_of) alignment total small over, none_left) (omega arith)

  module _ {Pointer : Type 0} (memalign : ℕ → ℕ → Option Pointer) where
    -- Where the bytes of the elements, rounded up, are fewer than 2 ^ 64, the allocation asks for the
    -- least number of whole blocks of the alignment that holds the elements.
    pub allocate-IsRounded :
        0 < size_of
        → 0 < alignment
        → n * size_of + (alignment - 1) < 2 ^ 64
        → (bytes : ℕ) × IsRounded size_of alignment n bytes
          × (allocate memalign size_of alignment n ≡ memalign alignment bytes)
    unfolding allocate
    allocate-IsRounded size_pos some_bytes fits =
        let within : n ≤ (word - 1) / size_of = (le-div_iff_mul-le size_pos).1 (omega arith) in
        let accepted : ltb ((word - 1) / size_of) n ≡ false = ground arith in
        (rounded size_of alignment n, rounded-IsRounded some_bytes fits, rw accepted)

    -- Elements of 2 ^ 64 bytes or more are refused. Where the bytes of the elements are fewer, but not
    -- with the padding, no error is reported and 0 bytes are asked for.
    pub allocate-overflow :
        0 < size_of
        → 2 ^ 64 ≤ n * size_of + (alignment - 1)
        → ((2 ^ 64 ≤ n * size_of) × (allocate memalign size_of alignment n ≡ none))
          ⊎ ((n * size_of < 2 ^ 64)
              × (allocate memalign size_of alignment n ≡ memalign alignment 0))
    unfolding allocate
    allocate-overflow size_pos over = elim (dec_lt (n * size_of) (2 ^ 64)) [
      | yes total ↦
          let within : n ≤ (word - 1) / size_of = (le-div_iff_mul-le size_pos).1 (omega arith) in
          let accepted : ltb ((word - 1) / size_of) n ≡ false = ground arith in
          inr (total, rw (accepted, rounded_wrapped total over))
      | no large ↦
          let beyond : (word - 1) / size_of < n = (div-lt_iff_lt-mul size_pos).1 (omega arith) in
          let refused : ltb ((word - 1) / size_of) n ≡ true = ground arith in
          inl (omega arith, rw refused)
    ]
