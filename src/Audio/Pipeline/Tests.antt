-- ===== src/Audio/Pipeline/Tests.antt =====
-- The metering pipeline at a concrete ring and bucket set.
use phu_audio_lib.Base.{ℕ, ◌≡◌, refl, pos, false, none, some, [], ◌∷◌, get_elem?, arith, ◌*ℤ◌}
use phu_audio_lib.Double.Integers.{integers}
use phu_audio_lib.Audio.Bucket.{BucketSet, Bucket, set_dirty_flag, set_dirty_result}
use phu_audio_lib.Audio.PpqRing.{PpqRing, index_for_ppq, insert}
use phu_audio_lib.Audio.PpqRing.Bounds.{IsValid}
use phu_audio_lib.Audio.Pipeline.{insert-set_dirty}

abbrev ring : PpqRing integers ℕ
ring = record {
  buffer = 1 ∷ 2 ∷ 3 ∷ 4 ∷ 5 ∷ [];
  working_size = pos 5;
  display_beats = pos 5;
  ppq_to_index = pos 1;
}

ring-IsValid : IsValid ring
ring-IsValid = omega arith

abbrev clean : Bucket
clean = record { start_idx = pos 0; end_idx = pos 2; dirty = false }

abbrev buckets : BucketSet ℕ
buckets = record {
  size_fn = none;
  buffer_size = pos 5;
  bucket_count_target = pos 2;
  buckets = clean ∷ record { start_idx = pos 2; end_idx = pos 5; dirty = false } ∷ [];
}

-- The third sample of a block from place 3 on ends up at place 0.
insert-set_dirty_example :
    get_elem?
      (set_dirty_result
        (insert {d = integers} (pos 8) (some (10 ∷ 11 ∷ 12 ∷ [])) (pos 3) ring).1
        buckets).buckets
      0
    ≡ some (set_dirty_flag clean)
unfolding index_for_ppq ◌*ℤ◌
insert-set_dirty_example =
    insert-set_dirty ring ring-IsValid 5 refl (omega arith) (pos 8) (10 ∷ 11 ∷ 12 ∷ [])
      (omega arith) buckets 0 2 clean (omega arith) refl (omega arith)
