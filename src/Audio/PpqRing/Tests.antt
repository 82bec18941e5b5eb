-- ===== src/Audio/PpqRing/Tests.antt =====
-- Runs of PpqAddressedRingBuffer with integers for the doubles, and its theorems at concrete rings.
use phu_audio_lib.Base.{
  ℕ, ◌≡◌, ◌⊎◌, ◌↔◌, refl, pos, negsuc, true, some, List, [], ◌∷◌, get_elem?, arith, ◌*ℤ◌,
}
use phu_audio_lib.Double.Integers.{integers}
use phu_audio_lib.Audio.InsertResult.{no_insert}
use phu_audio_lib.Audio.Bucket.Dirty.{InRange}
use phu_audio_lib.Audio.PpqRing.{
  PpqRing, index_for_ppq, set_working_size, prepare, reserve_by_worst_case, insert, Call, set_size,
  writes, inserts, clears, run,
}
use phu_audio_lib.Audio.PpqRing.Bounds.{
  IsValid, set_working_size-IsValid, prepare-IsValid, reserve_by_worst_case-IsValid, run-IsValid,
}
use phu_audio_lib.Audio.PpqRing.Insert.{
  Written, insert-sample, insert-other, insert-ranges, insert-refused,
}

abbrev ring : PpqRing integers ℕ
ring = record {
  buffer = 1 ∷ 2 ∷ 3 ∷ 4 ∷ 5 ∷ [];
  working_size = pos 5;
  display_beats = pos 5;
  ppq_to_index = pos 1;
}

abbrev block : List ℕ
block = 10 ∷ 11 ∷ 12 ∷ []

-- A block from place 3 on goes round the end.
insert_round_the_end : insert (pos 8) (some block) (pos 3) ring ≡ (
  record ring { buffer = 12 ∷ 2 ∷ 3 ∷ 10 ∷ 11 ∷ [] },
  record {
    range1 = record { start = pos 3; end = pos 5 };
    range2 = record { start = pos 0; end = pos 1 };
    ok = true;
  },
)
unfolding insert index_for_ppq ◌*ℤ◌
insert_round_the_end = refl

ring-IsValid : IsValid ring
ring-IsValid = omega arith

set_working_size-IsValid_example :
    IsValid (set_working_size integers 0 (pos 60) (pos 2) (pos 2) ring).0
set_working_size-IsValid_example =
    set_working_size-IsValid 0 (pos 60) (pos 2) (pos 2) ring ring-IsValid

prepare-IsValid_example : IsValid (prepare integers 0 (pos 2) (pos 60) (pos 2) ring)
prepare-IsValid_example = prepare-IsValid 0 (pos 2) (pos 60) (pos 2) ring ring-IsValid

abbrev reserved : PpqRing integers ℕ
reserved = record ring { buffer = 1 ∷ 2 ∷ 3 ∷ 4 ∷ 5 ∷ 0 ∷ 0 ∷ [] }

reserve_by_worst_case-IsValid_example : IsValid reserved
unfolding reserve_by_worst_case ◌*ℤ◌
reserve_by_worst_case-IsValid_example =
    reserve_by_worst_case-IsValid 0 (pos 60) (pos 7) (pos 1) ring reserved ring-IsValid
      (omega arith) refl

abbrev script : List (Call integers ℕ)
script =
    set_size (pos 60) (pos 2) (pos 2)
    ∷ inserts (pos 1) (some block) (pos 3)
    ∷ writes 9 (negsuc 0)
    ∷ clears
    ∷ []

run-IsValid_example : IsValid (run 0 script ring)
run-IsValid_example = run-IsValid 0 script ring ring-IsValid

insert-sample_example :
    get_elem? (insert {d = integers} (pos 8) (some block) (pos 3) ring).0.buffer 0 ≡ some 12
unfolding index_for_ppq ◌*ℤ◌
insert-sample_example =
    insert-sample ring ring-IsValid 5 refl (pos 8) (omega arith) block (omega arith) (omega arith) 2
      (omega arith)

insert-other_example :
    get_elem? (insert {d = integers} (pos 8) (some block) (pos 3) ring).0.buffer 1 ≡ some 2
unfolding index_for_ppq ◌*ℤ◌
insert-other_example =
    insert-other ring ring-IsValid 5 refl (pos 8) (omega arith) block (omega arith) (omega arith) 1
      (omega arith) (omega arith)

block_ranges :
    let res = (insert {d = integers} (pos 8) (some block) (pos 3) ring).1 in
    (res.ok ≡ true) × ((InRange (pos 4) res.range1 ⊎ InRange (pos 4) res.range2) ↔ Written 3 3 5 4)
unfolding index_for_ppq ◌*ℤ◌
block_ranges =
    insert-ranges ring ring-IsValid 5 refl (pos 8) (omega arith) block (omega arith) (omega arith) 4
      (omega arith)

insert-refused_example : insert {d = integers} (pos 8) (some block) (pos 6) ring ≡ (ring, no_insert)
insert-refused_example = insert-refused ring (pos 8) (some block) (pos 6) (omega arith)
