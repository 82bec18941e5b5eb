-- ===== src/Audio/Bucket.antt =====
-- audio/BucketSet.h: a partition of the indices [0, N) into buckets with dirty flags.
-- `m_sizeFn` reads a size from elsewhere in the program: it is a function of the state `W` of that
-- program, and an operation that calls it takes the state at the time of the call.
pub mod Partition
pub mod Find
pub mod Dirty
mod Tests
use phu_audio_lib.Base.{
  ℕ, zero, suc, ◌+◌, ◌-◌, ℤ, pos, pos_part, ◌*ℤ◌, ltb_ℤ, leb_ℤ, min_ℤ, quot, to_int32, ◌==◌, ltb,
  Bool, true, false, not, ◌||◌, ◌&&◌, Option, none, some, List, [], ◌∷◌, length, if◌then◌else◌,
}
use phu_audio_lib.Audio.InsertResult.{Range, valid, RingBufferInsertResult}

pub record Bucket : Type 0 where
  pub start_idx : ℤ
  pub end_idx : ℤ
  pub dirty : Bool

pub record BucketSet (W : Type 0) : Type 0 where
  pub size_fn : Option (W → ℤ)
  pub buffer_size : ℤ
  pub bucket_count_target : ℤ
  pub buckets : List Bucket

-- The product is of type `long long`, which two ints cannot exceed; the cast back to `int` wraps.
pub mul_div : ℤ → ℤ → ℤ → ℤ
unfolding ◌*ℤ◌
mul_div a b c = if leb_ℤ c (pos 0) && leb_ℤ (pos 0) c then pos 0 else to_int32 (quot (a *ℤ b) c)

-- The loop of `rebuild`, from `i` on with `k` rounds left.
pub build : ℕ → ℕ → ℤ → ℤ → List Bucket
build zero i size count = []
build (suc k) i size count =
    record {
      start_idx = mul_div (pos i) size count;
      end_idx = mul_div (pos (i + 1)) size count;
      dirty = true;
    }
    ∷ build k (i + 1) size count

pub rebuild : ℤ → ℤ → List Bucket
rebuild n b =
    let count = min_ℤ b n in
    if leb_ℤ n (pos 0) || leb_ℤ b (pos 0) then [] else build (pos_part count) 0 n count

module _ {W : Type 0} where
  pub initialize_by_size : ℤ → ℤ → BucketSet W → BucketSet W
  initialize_by_size size count s = record s {
    size_fn = none;
    buffer_size = size;
    bucket_count_target = count;
    buckets = rebuild size count;
  }

  -- `sizeFn ? sizeFn() : d`
  abbrev size_or : Option (W → ℤ) → W → ℤ → ℤ
  size_or none w d = d
  size_or (some f) w d = f w

  pub initialize_by_size_fn : Option (W → ℤ) → ℤ → W → BucketSet W → BucketSet W
  initialize_by_size_fn f count w s = record s {
    size_fn = f;
    buffer_size = size_or f w (pos 0);
    bucket_count_target = count;
    buckets = rebuild (size_or f w (pos 0)) count;
  }

  pub recompute : W → BucketSet W → BucketSet W
  recompute w s = record s {
    buffer_size = size_or s.size_fn w s.buffer_size;
    buckets = rebuild (size_or s.size_fn w s.buffer_size) s.bucket_count_target;
  }

abbrev pub set_dirty_flag : Bucket → Bucket
set_dirty_flag b = record b { dirty = true }

-- The loop of `markDirty` over the buckets.
pub mark_overlapping : ℤ → ℤ → List Bucket → List Bucket
mark_overlapping from to [] = []
mark_overlapping from to (b ∷ bs) =
    (if ltb_ℤ b.start_idx to && ltb_ℤ from b.end_idx then set_dirty_flag b else b)
    ∷ mark_overlapping from to bs

-- `m_buckets[i].dirty = true`; a write out of range changes nothing here.
pub mark_at : ℕ → List Bucket → List Bucket
mark_at i [] = []
mark_at zero (b ∷ bs) = set_dirty_flag b ∷ bs
mark_at (suc i) (b ∷ bs) = b ∷ mark_at i bs

-- `for (; i < i + k; ++i) m_buckets[i].dirty = true`
pub mark_span : ℕ → ℕ → List Bucket → List Bucket
mark_span zero i bs = bs
mark_span (suc k) i bs = mark_span k (i + 1) (mark_at i bs)

-- The loops of `markDirtyRange`, between the bucket indices `i1` and `i2`.
pub mark_between : ℕ → ℕ → List Bucket → List Bucket
mark_between i1 i2 bs =
    let last = length bs - 1 in
    if ltb i2 i1
    then mark_span (i2 + 1) 0 (mark_span (last + 1 - i1) i1 bs)
    else mark_span (i2 + 1 - i1) i1 bs

module _ {W : Type 0} where
  pub mark_dirty : ℤ → ℤ → BucketSet W → BucketSet W
  mark_dirty from to s = record s { buckets = mark_overlapping from to s.buckets }

  pub find_bucket : ℤ → BucketSet W → ℤ
  unfolding mul_div
  find_bucket idx s =
      let count = pos (length s.buckets) in
      let last = pos (length s.buckets - 1) in
      let bi = mul_div idx count s.buffer_size in
      let at_least_0 = if ltb_ℤ bi (pos 0) then pos 0 else bi in
      if leb_ℤ s.buffer_size (pos 0) || (length s.buckets == 0)
      then pos 0
      else if ltb_ℤ last at_least_0
      then last
      else at_least_0

  -- The second test of the code repeats what `find_bucket` ensures.
  pub mark_dirty_index : ℤ → BucketSet W → BucketSet W
  mark_dirty_index write_idx s =
      let i = find_bucket write_idx s in
      if length s.buckets == 0
      then s
      else if ltb_ℤ i (pos 0) || leb_ℤ (pos (length s.buckets)) i
      then s
      else record s { buckets = mark_at (pos_part i) s.buckets }

  pub mark_dirty_range : ℤ → ℤ → BucketSet W → BucketSet W
  mark_dirty_range start_idx end_idx s =
      let i1 = find_bucket start_idx s in
      let i2 = find_bucket end_idx s in
      if length s.buckets == 0
      then s
      else record s { buckets = mark_between (pos_part i1) (pos_part i2) s.buckets }

  pub set_dirty : Range → BucketSet W → BucketSet W
  set_dirty r s = if valid r then mark_dirty r.start r.end s else s

  pub set_dirty_result : RingBufferInsertResult → BucketSet W → BucketSet W
  set_dirty_result r s = if r.ok then set_dirty r.range2 (set_dirty r.range1 s) else s

-- `DirtyIterator::skipClean`: an iterator is what is left of the vector behind it.
pub skip_clean : List Bucket → List Bucket
skip_clean [] = []
skip_clean (b ∷ bs) = if not b.dirty then skip_clean bs else b ∷ bs

-- `operator++`
pub advance : List Bucket → List Bucket
unfolding skip_clean
advance [] = []
advance (b ∷ bs) = skip_clean bs

-- A range-for from `dirtyBegin()` to `dirtyEnd()`, with fuel for the rounds left.
pub visit : ℕ → List Bucket → List Bucket
visit zero it = []
visit (suc k) [] = []
visit (suc k) (b ∷ bs) = b ∷ visit k (advance (b ∷ bs))

module _ {W : Type 0} where
  pub dirty_buckets : BucketSet W → List Bucket
  unfolding visit
  dirty_buckets s = visit (length s.buckets) (skip_clean s.buckets)
