-- ===== src/Audio/Bucket/Find.antt =====
-- BucketSet::findBucket and the marking of single indices.
use mathlib.Core.Option
use native.Mathlib.Nat.{
  add-zero, zero-add, mul_assoc, lt_of_mul-lt-mul_right, mul-div_left, div-lt_iff_lt-mul,
}
use phu_audio_lib.Base.{
  ℕ, zero, suc, ◌+◌, ◌-◌, ◌*◌, ◌/◌, ◌%◌, ◌^◌, ◌≤◌, ◌<◌, ◌≡◌, refl, ap, ◌==◌, if◌then◌else◌, ◌≤ℤ◌,
  ◌<ℤ◌, pos, true, some, List, [], ◌∷◌, length, get_elem?, arith,
}
use phu_audio_lib.Audio.Bucket.{
  Bucket, BucketSet, build, find_bucket, mark_at, mark_dirty_index, set_dirty_flag,
}
use phu_audio_lib.Audio.Bucket.Partition.{mul_div-pos, Spans, div_bound, div_step, length-build}

-- What the initialisers leave: `n` indices in `c` buckets.
pub record IsBuilt {W : Type 0} (n c : ℕ) (s : BucketSet W) : Type 0 where
  pub size : s.buffer_size ≡ pos n
  pub some_bucket : 0 < c
  pub fits : c ≤ n
  pub in_int : n < 2 ^ 31
  pub made : s.buckets ≡ build c 0 (pos n) (pos c)

pub quotient_bound : (i c n : ℕ) → i < n → i * c / n ≤ c - 1
quotient_bound i c n h = grind arith

quotient_small : (i c n : ℕ) → i < n → c ≤ n → n < 2 ^ 31 → i * c / n < 2 ^ 31
quotient_small i c n h k m = grind (arith, quotient_bound)

module _ {W : Type 0} {n c : ℕ} {s : BucketSet W} (built : IsBuilt n c s) where
  pub length-buckets : length s.buckets ≡ c
  length-buckets = rw built.made (length-build c 0 (pos n) (pos c))

  -- In range neither clamp of `findBucket` acts.
  pub find_bucket-in_range : (i : ℕ) → i < n → find_bucket (pos i) s ≡ pos (i * c / n)
  unfolding find_bucket
  find_bucket-in_range i h =
      let q =
        mul_div-pos i c n (omega (arith, built.fits, built.some_bucket))
          (quotient_small i c n h built.fits built.in_int) in
      rw (built.size, length-buckets, q)
        (grind (arith, quotient_bound, built.some_bucket, built.fits))

-- The bucket that round `j` of `build` makes.
get_elem?-build :
    (k i j n c : ℕ)
    → j < k
    → i + k ≡ c
    → 0 < c
    → c ≤ n
    → n < 2 ^ 31
    → (b : Bucket) × (get_elem? (build k i (pos n) (pos c)) j ≡ some b)
      × Spans ((i + j) * n / c) ((i + j + 1) * n / c) b
unfolding build
get_elem?-build zero i j n c l e p f m = absurd (omega arith)
get_elem?-build (suc k) i zero n c l e p f m =
    let keep = λ (j : ℕ) (h : j ≤ c). mul_div-pos j n c p (grind (arith, div_bound j n c p h)) in
    (
      _,
      refl,
      (
        rw (keep i (omega arith)) (ap pos (rw add-zero)),
        rw (keep (i + 1) (omega arith)) (ap pos (rw add-zero)),
      ),
    )
get_elem?-build (suc k) i (suc j) n c l e p f m =
    let (b, got, spans) = get_elem?-build k (i + 1) j n c (omega arith) (omega arith) p f m in
    let shift : i + 1 + j ≡ i + suc j = omega arith in (b, got, rw (← shift) spans)

pub get_elem?-mark_at :
    (bs : List Bucket) (i j : ℕ)
    → get_elem? (mark_at i bs) j
      ≡ (if i == j then Option.map set_dirty_flag (get_elem? bs j) else get_elem? bs j)
unfolding mark_at
get_elem?-mark_at [] i j = ground arith
get_elem?-mark_at (b ∷ bs) zero zero = refl
get_elem?-mark_at (b ∷ bs) zero (suc j) = ground arith
get_elem?-mark_at (b ∷ bs) (suc i) zero = ground arith
get_elem?-mark_at (b ∷ bs) (suc i) (suc j) = ground (arith, get_elem?-mark_at bs i j)

below : (i c n : ℕ) → i < n → i * c / n * n / c ≤ i
below i c n h = grind arith

above : (i c n : ℕ) → i < n → 0 < c → i ≤ (i * c / n + 1) * n / c
above i c n h p = grind arith

above_even : (i c n k : ℕ) → i < n → 0 < c → n ≡ k * c → i < (i * c / n + 1) * n / c
above_even i c n k h p e =
    rw (e, ← mul_assoc (i * c / (k * c) + 1) k c, mul-div_left ((i * c / (k * c) + 1) * k) p)
      (lt_of_mul-lt-mul_right c (grind arith))

start_in_range : (j n c : ℕ) → 0 < j → j < c → c ≤ n → j * n / c < n
start_in_range j n c h k f = grind arith

falls_short : (j n c : ℕ) → 0 < j * n % c → 0 < n → j * n / c * c / n < j
falls_short j n c d p = (div-lt_iff_lt-mul p).1 (grind arith)

module _ {W : Type 0} {n c : ℕ} {s : BucketSet W} (built : IsBuilt n c s) where
  get_elem?-buckets :
      (j : ℕ)
      → j < c
      → (b : Bucket) × (get_elem? s.buckets j ≡ some b) × Spans (j * n / c) ((j + 1) * n / c) b
  get_elem?-buckets j h = rw built.made (
      rw (zero-add j) at
        (get_elem?-build c 0 j n c h (omega arith) built.some_bucket built.fits built.in_int))

  mark_dirty_index-mark_at :
      (i : ℕ) → i < n → (mark_dirty_index (pos i) s).buckets ≡ mark_at (i * c / n) s.buckets
  unfolding mark_dirty_index
  mark_dirty_index-mark_at i h = ground (
    arith,
    find_bucket-in_range built i h,
    length-buckets built,
    quotient_bound i c n h,
    built.some_bucket,
  )

  -- For an index in range, `markDirtyIndex` sets the flag of one bucket, and leaves all others
  -- alone. The index lies in that bucket or is the first index behind it.
  pub mark_dirty_index_lem :
      (i j : ℕ)
      → i < n
      → (b : Bucket) × (get_elem? s.buckets (i * c / n) ≡ some b)
        × (b.start_idx ≤ℤ pos i)
        × (pos i ≤ℤ b.end_idx)
        × (get_elem? (mark_dirty_index (pos i) s).buckets j
            ≡ (if i * c / n == j then some (set_dirty_flag b) else get_elem? s.buckets j))
  mark_dirty_index_lem i j h =
      let (b, got, spans) =
        get_elem?-buckets (i * c / n) (omega (arith, quotient_bound i c n h, built.some_bucket)) in
      (
        b,
        got,
        rw spans.0 (omega (arith, below i c n h)),
        rw spans.1 (omega (arith, above i c n h built.some_bucket)),
        rw (mark_dirty_index-mark_at i h)
            (ground (arith, get_elem?-mark_at s.buckets (i * c / n) j)),
      )

  -- Where the buckets are all of the same size, the bucket that `markDirtyIndex` marks contains the index.
  pub mark_dirty_index-contains :
      (i k : ℕ)
      → i < n
      → n ≡ k * c
      → (b : Bucket) × (get_elem? (mark_dirty_index (pos i) s).buckets (i * c / n) ≡ some b)
        × (b.dirty ≡ true)
        × (b.start_idx ≤ℤ pos i)
        × (pos i <ℤ b.end_idx)
  mark_dirty_index-contains i k h e =
      let (b, got, lo, hi, marks) = mark_dirty_index_lem i (i * c / n) h in
      let (b', got', spans) =
        get_elem?-buckets (i * c / n) (omega (arith, quotient_bound i c n h, built.some_bucket)) in
      (
        set_dirty_flag b',
        ground arith,
        refl,
        rw spans.0 (omega (arith, below i c n h)),
        rw spans.1 (omega (arith, above_even i c n k h built.some_bucket e)),
      )

  -- Where the start of bucket `j` is not a multiple of the exact bucket size N/B, `markDirtyIndex` at the first index of
  -- bucket `j` leaves the flag of bucket `j` as it was, although the bucket contains the index.
  pub mark_dirty_index-misses :
      (j : ℕ)
      → 0 < j
      → j < c
      → 0 < j * n % c
      → (b : Bucket) × (get_elem? s.buckets j ≡ some b)
        × (b.start_idx ≡ pos (j * n / c))
        × (pos (j * n / c) <ℤ b.end_idx)
        × (get_elem? (mark_dirty_index (pos (j * n / c)) s).buckets j ≡ some b)
  mark_dirty_index-misses j h k d =
      let (b, got, spans) = get_elem?-buckets j k in
      let inside = start_in_range j n c h k built.fits in
      let (b', got', lo, hi, marks) = mark_dirty_index_lem (j * n / c) j inside in
      (
        b,
        got,
        spans.0,
        rw spans.1 (omega (arith, div_step j n c built.some_bucket built.fits)),
        ground (arith, falls_short j n c d (omega arith)),
      )
