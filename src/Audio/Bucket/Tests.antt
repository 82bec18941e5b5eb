-- ===== src/Audio/Bucket/Tests.antt =====
-- Runs of BucketSet, and its theorems at concrete sets.
use phu_audio_lib.Base.{
  ℕ, ◌≡◌, inr, refl, pos, true, false, none, some, [], ◌∷◌, map, length, get_elem?, arith,
}
use phu_audio_lib.Audio.InsertResult.{RingBufferInsertResult, no_insert}
use phu_audio_lib.Audio.Bucket.{
  Bucket, BucketSet, mul_div, build, rebuild, initialize_by_size, mark_dirty, mark_dirty_index,
  set_dirty_result, set_dirty_flag, mark_at, find_bucket,
}
use phu_audio_lib.Audio.Bucket.Partition.{Tiles, AllDirty, rebuild-Tiles}
use phu_audio_lib.Audio.Bucket.Find.{IsBuilt}
use phu_audio_lib.Audio.Bucket.Dirty.{
  mark_dirty-inside, set_dirty_result-inside, set_dirty_result-refused,
}

abbrev fresh : BucketSet ℕ
fresh = record { size_fn = none; buffer_size = pos 0; bucket_count_target = pos 0; buckets = [] }

abbrev clean : ℕ → ℕ → Bucket
clean lo hi = record { start_idx = pos lo; end_idx = pos hi; dirty = false }

-- Ten indices in three buckets, all clean.
abbrev thirds : BucketSet ℕ
thirds = record fresh { buffer_size = pos 10; buckets = clean 0 3 ∷ clean 3 6 ∷ clean 6 10 ∷ [] }

abbrev dirty_thirds : BucketSet ℕ
dirty_thirds = record thirds { buckets = map set_dirty_flag thirds.buckets }

initialize_thirds :
    initialize_by_size (pos 10) (pos 3) fresh ≡ record dirty_thirds { bucket_count_target = pos 3 }
unfolding initialize_by_size rebuild build mul_div
initialize_thirds = refl

dirty_thirds-IsBuilt : IsBuilt 10 3 dirty_thirds
unfolding build mul_div
dirty_thirds-IsBuilt = record {
  size = refl;
  some_bucket = omega arith;
  fits = omega arith;
  in_int = omega arith;
  made = refl;
}

-- Index 3 is the first of the second bucket, and the first bucket is the one that is marked.
third_start :
    mark_dirty_index (pos 3) thirds
    ≡ record thirds { buckets = set_dirty_flag (clean 0 3) ∷ clean 3 6 ∷ clean 6 10 ∷ [] }
unfolding mark_dirty_index find_bucket mark_at
third_start = refl

rebuild-Tiles_example :
    Tiles 0 10 (rebuild (pos 10) (pos 3))
    × (length (rebuild (pos 10) (pos 3)) ≡ 3)
    × AllDirty (rebuild (pos 10) (pos 3))
rebuild-Tiles_example = rebuild-Tiles 10 3 (omega arith) (omega arith) (omega arith)

abbrev halves : BucketSet ℕ
halves = record fresh {
  buffer_size = pos 8;
  buckets = map set_dirty_flag (clean 0 4 ∷ clean 4 8 ∷ []);
}

halves-IsBuilt : IsBuilt 8 2 halves
unfolding build mul_div
halves-IsBuilt = record {
  size = refl;
  some_bucket = omega arith;
  fits = omega arith;
  in_int = omega arith;
  made = refl;
}

mark_dirty-inside_example :
    get_elem? (mark_dirty (pos 5) (pos 7) thirds).buckets 1 ≡ some (set_dirty_flag (clean 3 6))
mark_dirty-inside_example =
    mark_dirty-inside thirds (pos 5) (pos 7) 1 (clean 3 6) refl (pos 5) (omega arith) (omega arith)
      (omega arith)

-- The last place and the first.
abbrev round_the_end : RingBufferInsertResult
round_the_end = record {
  range1 = record { start = pos 9; end = pos 10 };
  range2 = record { start = pos 0; end = pos 1 };
  ok = true;
}

set_dirty_result-inside_example :
    get_elem? (set_dirty_result round_the_end thirds).buckets 0 ≡ some (set_dirty_flag (clean 0 3))
set_dirty_result-inside_example =
    set_dirty_result-inside thirds round_the_end (pos 0) 0 (clean 0 3) refl refl (omega arith)
      (inr (omega arith))

set_dirty_result-refused_example : set_dirty_result no_insert thirds ≡ thirds
set_dirty_result-refused_example = set_dirty_result-refused thirds no_insert refl
