-- ===== src/Audio/Bucket/Dirty.antt =====
-- The dirty flags: BucketSet::markDirty, markDirtyRange, setDirty and the dirty iterator.
use mathlib.Core.Option
use phu_audio_lib.Base.{
  ℕ, zero, suc, ◌+◌, ◌-◌, ◌*◌, ◌/◌, ◌≤◌, ◌<◌, ◌≡◌, ◌≢◌, ◌⊎◌, refl, ap, ltb, leb, ◌&&◌, ◌||◌,
  if◌then◌else◌, inl, inr, ◌≤ℤ◌, ◌<ℤ◌, ℤ, pos, Bool, true, false, some, List, [], ◌∷◌, length,
  get_elem?, arith,
}
use phu_audio_lib.Audio.InsertResult.{Range, valid, RingBufferInsertResult}
use phu_audio_lib.Audio.Bucket.{
  Bucket, BucketSet, mark_at, mark_overlapping, mark_dirty, mark_span, mark_between,
  mark_dirty_range, set_dirty, set_dirty_result, set_dirty_flag, skip_clean, advance, visit,
  dirty_buckets,
}
use phu_audio_lib.Audio.Bucket.Find.{
  IsBuilt, length-buckets, find_bucket-in_range, get_elem?-mark_at, quotient_bound,
}

-- The index `x` is one of the bucket's.
abbrev pub Contains : ℤ → Bucket → Type 0
Contains x b = (b.start_idx ≤ℤ x) × (x <ℤ b.end_idx)

-- Bucket `j` exists in the set and holds the index `x`.
abbrev pub Holds : List Bucket → ℕ → ℤ → Type 0
Holds bs j x = (b : Bucket) × (get_elem? bs j ≡ some b) × Contains x b

mark_overlapping-inside :
    (from to x : ℤ) (bs : List Bucket) (j : ℕ) (b : Bucket)
    → get_elem? bs j ≡ some b
    → Contains x b
    → from ≤ℤ x
    → x <ℤ to
    → get_elem? (mark_overlapping from to bs) j ≡ some (set_dirty_flag b)
unfolding mark_overlapping
mark_overlapping-inside from to x [] j b e h l u = cc
mark_overlapping-inside from to x (a ∷ bs) zero b e h l u = ground arith
mark_overlapping-inside from to x (a ∷ bs) (suc j) b e h l u =
    mark_overlapping-inside from to x bs j b e h l u

mark_overlapping-outside :
    (from to : ℤ) (bs : List Bucket) (j : ℕ) (b : Bucket)
    → get_elem? bs j ≡ some b
    → (b.end_idx ≤ℤ from) ⊎ (to ≤ℤ b.start_idx)
    → get_elem? (mark_overlapping from to bs) j ≡ some b
unfolding mark_overlapping
mark_overlapping-outside from to [] j b e h = cc
mark_overlapping-outside from to (a ∷ bs) zero b e h = ground arith
mark_overlapping-outside from to (a ∷ bs) (suc j) b e h =
    mark_overlapping-outside from to bs j b e h

-- A flag once set stays set.
mark_overlapping-keeps :
    (from to : ℤ) (bs : List Bucket) (j : ℕ) (b : Bucket)
    → get_elem? bs j ≡ some (set_dirty_flag b)
    → get_elem? (mark_overlapping from to bs) j ≡ some (set_dirty_flag b)
unfolding mark_overlapping
mark_overlapping-keeps from to [] j b e = cc
mark_overlapping-keeps from to (a ∷ bs) zero b e = ground arith
mark_overlapping-keeps from to (a ∷ bs) (suc j) b e = mark_overlapping-keeps from to bs j b e

module _ {W : Type 0} (s : BucketSet W) (from to : ℤ) (j : ℕ) (b : Bucket)
    (e : get_elem? s.buckets j ≡ some b) where
  -- `markDirty` over [from, to) sets the flag of every bucket that contains an index of the range.
  pub mark_dirty-inside :
      (x : ℤ)
      → Contains x b
      → from ≤ℤ x
      → x <ℤ to
      → get_elem? (mark_dirty from to s).buckets j ≡ some (set_dirty_flag b)
  unfolding mark_dirty
  mark_dirty-inside x h l u = mark_overlapping-inside from to x s.buckets j b e h l u

  -- It leaves a bucket that lies before or behind the range as it was.
  pub mark_dirty-outside :
      (b.end_idx ≤ℤ from) ⊎ (to ≤ℤ b.start_idx)
      → get_elem? (mark_dirty from to s).buckets j ≡ some b
  unfolding mark_dirty
  mark_dirty-outside h = mark_overlapping-outside from to s.buckets j b e h

-- The index `x` is in the range.
abbrev pub InRange : ℤ → Range → Type 0
InRange x r = (r.start ≤ℤ x) × (x <ℤ r.end)

set_dirty-inside :
    {W : Type 0} (s : BucketSet W) (r : Range) (x : ℤ) (j : ℕ) (b : Bucket)
    → get_elem? s.buckets j ≡ some b
    → Contains x b
    → InRange x r
    → get_elem? (set_dirty r s).buckets j ≡ some (set_dirty_flag b)
unfolding set_dirty valid mark_dirty
set_dirty-inside s r x j b e h i =
    ground (arith, mark_overlapping-inside r.start r.end x s.buckets j b)

set_dirty-keeps :
    {W : Type 0} (s : BucketSet W) (r : Range) (j : ℕ) (b : Bucket)
    → get_elem? s.buckets j ≡ some (set_dirty_flag b)
    → get_elem? (set_dirty r s).buckets j ≡ some (set_dirty_flag b)
unfolding set_dirty mark_dirty
set_dirty-keeps s r j b e = ground (arith, mark_overlapping-keeps r.start r.end s.buckets j b)

mark_overlapping-cases :
    (from to : ℤ) (bs : List Bucket) (j : ℕ) (b : Bucket)
    → get_elem? bs j ≡ some b
    → (get_elem? (mark_overlapping from to bs) j ≡ some b)
      ⊎ (get_elem? (mark_overlapping from to bs) j ≡ some (set_dirty_flag b))
unfolding mark_overlapping
mark_overlapping-cases from to [] j b e = cc
mark_overlapping-cases from to (a ∷ bs) zero b e = ground arith
mark_overlapping-cases from to (a ∷ bs) (suc j) b e = mark_overlapping-cases from to bs j b e

set_dirty-cases :
    {W : Type 0} (s : BucketSet W) (r : Range) (j : ℕ) (b : Bucket)
    → get_elem? s.buckets j ≡ some b
    → (get_elem? (set_dirty r s).buckets j ≡ some b)
      ⊎ (get_elem? (set_dirty r s).buckets j ≡ some (set_dirty_flag b))
unfolding set_dirty mark_dirty
set_dirty-cases s r j b e = ground (arith, mark_overlapping-cases r.start r.end s.buckets j b e)

-- After a successful insert every bucket that holds an index of one of the two reported ranges is
-- dirty.
pub set_dirty_result-inside :
    {W : Type 0} (s : BucketSet W) (r : RingBufferInsertResult) (x : ℤ) (j : ℕ) (b : Bucket)
    → r.ok ≡ true
    → get_elem? s.buckets j ≡ some b
    → Contains x b
    → InRange x r.range1 ⊎ InRange x r.range2
    → get_elem? (set_dirty_result r s).buckets j ≡ some (set_dirty_flag b)
unfolding set_dirty_result
set_dirty_result-inside s r x j b ok e h (inl i) =
    rw ok (
      set_dirty-keeps (set_dirty r.range1 s) r.range2 j b (set_dirty-inside s r.range1 x j b e h i))
set_dirty_result-inside s r x j b ok e h (inr i) = rw ok (elim (set_dirty-cases s r.range1 j b e) [
  | inl same ↦ set_dirty-inside (set_dirty r.range1 s) r.range2 x j b same h i
  | inr set ↦ set_dirty-keeps (set_dirty r.range1 s) r.range2 j b set
])

-- After a refused insert nothing has changed.
pub set_dirty_result-refused :
    {W : Type 0} (s : BucketSet W) (r : RingBufferInsertResult)
    → r.ok ≡ false
    → set_dirty_result r s ≡ s
unfolding set_dirty_result
set_dirty_result-refused s r e = rw e

get_elem?-mark_span :
    (k i : ℕ) (bs : List Bucket) (j : ℕ)
    → get_elem? (mark_span k i bs) j ≡ (
        if leb i j && ltb j (i + k)
        then Option.map set_dirty_flag (get_elem? bs j)
        else get_elem? bs j)
unfolding mark_span
get_elem?-mark_span zero i bs j = ground arith
get_elem?-mark_span (suc k) i bs j =
    ground (arith, get_elem?-mark_span k (i + 1) (mark_at i bs) j, get_elem?-mark_at bs i j)

length-mark_at : (i : ℕ) (bs : List Bucket) → length (mark_at i bs) ≡ length bs
unfolding mark_at
length-mark_at i [] = refl
length-mark_at zero (b ∷ bs) = refl
length-mark_at (suc i) (b ∷ bs) = ap suc (length-mark_at i bs)

-- The buckets from `i1` on to `i2`, going round at `c`.
abbrev pub between : ℕ → ℕ → ℕ → Bool
between i1 i2 j = if leb i1 i2 then leb i1 j && leb j i2 else leb i1 j || leb j i2

get_elem?-mark_between :
    (i1 i2 : ℕ) (bs : List Bucket) (j : ℕ)
    → j < length bs
    → i2 < length bs
    → get_elem? (mark_between i1 i2 bs) j
      ≡ (if between i1 i2 j then Option.map set_dirty_flag (get_elem? bs j) else get_elem? bs j)
unfolding mark_between
get_elem?-mark_between i1 i2 bs j h k = ground (
  arith,
  get_elem?-mark_span (i2 + 1 - i1) i1 bs j,
  get_elem?-mark_span (i2 + 1) 0 (mark_span (length bs - 1 + 1 - i1) i1 bs) j,
  get_elem?-mark_span (length bs - 1 + 1 - i1) i1 bs j,
)

module _ {W : Type 0} {n c : ℕ} {s : BucketSet W} (built : IsBuilt n c s) (a b j : ℕ) (ha : a < n)
    (hb : b < n) where
  mark_dirty_range-mark_between :
      (mark_dirty_range (pos a) (pos b) s).buckets ≡ mark_between (a * c / n) (b * c / n) s.buckets
  unfolding mark_dirty_range
  mark_dirty_range-mark_between = ground (
    arith,
    find_bucket-in_range built a ha,
    find_bucket-in_range built b hb,
    length-buckets built,
    built.some_bucket,
  )

  -- `markDirtyRange` between two indices in range sets the flags of the buckets from that of the first index on,
  -- going round at the end, to that of the second, and of no others.
  pub mark_dirty_range_lem :
      j < c
      → get_elem? (mark_dirty_range (pos a) (pos b) s).buckets j ≡ (
          if between (a * c / n) (b * c / n) j
          then Option.map set_dirty_flag (get_elem? s.buckets j)
          else get_elem? s.buckets j)
  mark_dirty_range_lem h = rw mark_dirty_range-mark_between (
      get_elem?-mark_between (a * c / n) (b * c / n) s.buckets j (rw (length-buckets built) h)
        (rw (length-buckets built) (omega (arith, quotient_bound b c n hb, built.some_bucket))))

  -- A range that goes round the end and comes back into its first bucket touches every bucket, but `markDirtyRange`
  -- leaves all others as they were.
  pub mark_dirty_range-misses :
      b < a
      → a * c / n ≡ b * c / n
      → j < c
      → j ≢ a * c / n
      → get_elem? (mark_dirty_range (pos a) (pos b) s).buckets j ≡ get_elem? s.buckets j
  mark_dirty_range-misses w same h other = ground (arith, mark_dirty_range_lem h)

-- The dirty ones, in order.
abbrev pub dirty_only : List Bucket → List Bucket
dirty_only [] = []
dirty_only (b ∷ bs) = if b.dirty then b ∷ dirty_only bs else dirty_only bs

dirty_only-skip_clean : (bs : List Bucket) → dirty_only (skip_clean bs) ≡ dirty_only bs
unfolding skip_clean
dirty_only-skip_clean [] = refl
dirty_only-skip_clean (b ∷ bs) = ground (arith, dirty_only-skip_clean bs)

visit-skip_clean :
    (k : ℕ) (bs : List Bucket) → length bs ≤ k → visit k (skip_clean bs) ≡ dirty_only bs
unfolding visit skip_clean advance
visit-skip_clean zero [] h = refl
visit-skip_clean zero (b ∷ bs) h = absurd (omega arith)
visit-skip_clean (suc k) [] h = refl
visit-skip_clean (suc k) (b ∷ bs) h =
    ground (arith, visit-skip_clean k bs, visit-skip_clean (suc k) bs)

-- A loop from `dirtyBegin()` to `dirtyEnd()` visits the dirty buckets, each once and in order.
pub dirty_buckets_lem : {W : Type 0} (s : BucketSet W) → dirty_buckets s ≡ dirty_only s.buckets
unfolding dirty_buckets
dirty_buckets_lem s = visit-skip_clean (length s.buckets) s.buckets (omega arith)
