-- ===== src/Audio/Pipeline.antt =====
-- The metering pipeline: what a block insert into a PpqAddressedRingBuffer reports marks the buckets
-- of a BucketSet over the same indices (docs/audio.md).
mod Tests
use native.Mathlib.Decide.{dec_lt}
use native.Mathlib.Nat.{mod-eq_of_lt, mod-eq-sub-mod}
use phu_audio_lib.Base.{
  ℕ, ◌+◌, ◌-◌, ◌%◌, ◌^◌, ◌≤◌, ◌<◌, ◌≡◌, ◌⊎◌, inl, inr, ℤ, pos, true, some, List, length, get_elem?,
  arith,
}
use phu_audio_lib.Double.{Double}
use phu_audio_lib.Audio.InsertResult.{RingBufferInsertResult}
use phu_audio_lib.Audio.Bucket.{Bucket, BucketSet, set_dirty_result, set_dirty_flag}
use phu_audio_lib.Audio.Bucket.Dirty.{Contains, set_dirty_result-inside}
use phu_audio_lib.Audio.PpqRing.{PpqRing, insert}
use phu_audio_lib.Audio.PpqRing.Bounds.{IsValid}
use phu_audio_lib.Audio.PpqRing.Insert.{start_place, start-eq, Written, insert-ranges}

wrapped-Written :
    (st n w k : ℕ) → st < w → n ≤ w → k < n → Written st n w ((st + k) % w) × ((st + k) % w < w)
wrapped-Written st n w k h f l = elim (dec_lt (st + k) w) [
  | yes flat ↦ grind (arith, mod-eq_of_lt flat)
  | no past ↦ grind (
    arith,
    mod-eq-sub-mod {n = st + k} {m = w} (omega arith),
    mod-eq_of_lt {n = st + k - w} {m = w} (omega arith),
  )
]

-- The working size of a ring is at most 2 ^ 30. Once the result of a block insert is handed to the bucket set, every bucket that holds the place of one of the new
-- samples is dirty, whether or not the block went round the end of the ring.
pub insert-set_dirty :
    {d : Double} {T W : Type 0} (r : PpqRing d T)
    → IsValid r
    → (w : ℕ) → r.working_size ≡ pos w
    → w ≤ 2 ^ 30
    → (ppq : d.Carrier) (samples : List T) → length samples ≤ w
    → (s : BucketSet W) (j k : ℕ) (b : Bucket) → k < length samples
    → get_elem? s.buckets j ≡ some b
    → Contains (pos ((start_place ppq r + k) % w)) b
    → get_elem?
        (set_dirty_result (insert ppq (some samples) (pos (length samples)) r).1 s).buckets
        j
      ≡ some (set_dirty_flag b)
insert-set_dirty r v w size small ppq samples fits s j k b h e c =
    let at = start-eq r v w size ppq (omega arith) in
    let (inside, below) = wrapped-Written (start_place ppq r) (length samples) w k at.1 fits h in
    let (ok, cover) =
      insert-ranges r v w size ppq small samples (omega arith) fits ((start_place ppq r + k) % w)
        below in
    set_dirty_result-inside s _ (pos ((start_place ppq r + k) % w)) j b ok e c (cover.1 inside)
