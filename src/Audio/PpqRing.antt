-- ===== src/Audio/PpqRing.antt =====
-- audio/PpqAddressedRingBuffer.h: a ring of samples addressed by musical time.
-- The conversion of a double to an `int` is a parameter (`to_int` of `Double`), also where C++ leaves
-- it undefined. `T{}` is the parameter `zero_value`. The sum of two `int`s in `insert` wraps at 32 bits, as
-- it does in two's complement (C++ leaves it undefined); a copy past the end of the buffer is cut there.
pub mod Bounds
pub mod Insert
mod Tests
use phu_audio_lib.Base.{
  ℕ, ◌+◌, ◌*◌, ◌-◌, ◌^◌, ℤ, pos, negsuc, pos_part, ◌+ℤ◌, ◌-ℤ◌, ltb_ℤ, leb_ℤ, eqb_ℤ, min_ℤ, max_ℤ,
  rem, to_int32, ◌==◌, Bool, true, false, not, ◌||◌, Option, none, some, List, [], ◌∷◌, length, set,
  take, drop, replicate, fill, blit, ◌++◌, if◌then◌else◌,
}
use phu_audio_lib.Double.{Double}
use phu_audio_lib.Audio.InsertResult.{Range, no_range, RingBufferInsertResult, no_insert}

pub record PpqRing (d : Double) (T : Type 0) : Type 0 where
  pub buffer : List T
  pub working_size : ℤ
  pub display_beats : d.Carrier
  pub ppq_to_index : d.Carrier

abbrev pub max_capacity_samples : ℤ
max_capacity_samples = pos (10 * 1024 * 1024)

-- `vector::resize(n, v)`.
abbrev pub resize {ℓ} : {A : Type ℓ} → ℕ → A → List A → List A
resize n v xs = take n xs ++ replicate (n - length xs) v

module _ (d : Double) {T : Type 0} (zero_value : T) where
  open d use {Carrier, lt, le, mul, div, ceil, fmod, add, of_int, to_int, is_finite}

  abbrev pub positive : Carrier → Bool
  positive x = not (le x (of_int (pos 0)))

  -- `cap` of `reserveByWorstCase`.
  abbrev pub reserved_capacity : Carrier → Carrier → Carrier → ℤ
  reserved_capacity min_bpm max_sample_rate max_beats =
      let computed = ceil (div (mul (mul max_beats (of_int (pos 60))) max_sample_rate) min_bpm) in
      let max_int = of_int (pos (2 ^ 31 - 1)) in
      let clamped =
        if is_finite computed then if lt max_int computed then max_int else computed else max_int in
      min_ℤ (to_int clamped) max_capacity_samples

  -- A negative count, which `static_cast<size_t>` makes larger than any vector, throws: `none`.
  pub resize_to : ℤ → PpqRing d T → Option (PpqRing d T)
  resize_to (pos n) r = some (record r { buffer = resize n zero_value r.buffer })
  resize_to (negsuc n) r = none

  pub reserve_by_worst_case : Carrier → Carrier → Carrier → PpqRing d T → Option (PpqRing d T)
  unfolding resize_to
  reserve_by_worst_case min_bpm max_sample_rate max_beats r =
      if not (positive min_bpm) || not (positive max_sample_rate) || not (positive max_beats)
      then some r
      else resize_to (reserved_capacity min_bpm max_sample_rate max_beats) r

  abbrev pub capacity : PpqRing d T → ℤ
  capacity r = pos (length r.buffer)

  -- `desired` and `capped` of the code.
  abbrev pub desired_size : Carrier → Carrier → Carrier → ℤ
  desired_size bpm sample_rate beats =
      to_int (ceil (div (mul (mul beats (of_int (pos 60))) sample_rate) bpm))

  abbrev pub capped_size : ℤ → PpqRing d T → ℤ
  capped_size desired r = if ltb_ℤ (pos 0) (capacity r) then min_ℤ desired (capacity r) else desired

  -- The new ring, and whether the working size has changed.
  pub set_working_size : Carrier → Carrier → Carrier → PpqRing d T → PpqRing d T × Bool
  set_working_size bpm sample_rate beats r =
      let capped = capped_size (desired_size bpm sample_rate beats) r in
      let size = max_ℤ (pos 0) capped in
      if not (positive bpm) || not (positive sample_rate) || not (positive beats)
      then (r, false)
      else (
        record {
          buffer = if length r.buffer == 0 then replicate (pos_part size) zero_value else r.buffer;
          working_size = size;
          display_beats = beats;
          ppq_to_index = if ltb_ℤ (pos 0) size then div (of_int size) beats else of_int (pos 0);
        },
        not (eqb_ℤ capped r.working_size),
      )

  pub clear : PpqRing d T → PpqRing d T
  clear r =
      if ltb_ℤ (pos 0) r.working_size
      then record r { buffer = fill (pos_part r.working_size) zero_value r.buffer }
      else r

  pub prepare : Carrier → Carrier → Carrier → PpqRing d T → PpqRing d T
  unfolding clear set_working_size
  prepare beats bpm sample_rate r =
      let (r', size_changed) = set_working_size bpm sample_rate beats r in
      if size_changed then clear r' else r'

-- The last two lines of `indexForPpq`, at the value that `static_cast<int>` gives.
pub wrap_index : ℤ → ℤ → ℤ
unfolding ◌+ℤ◌
wrap_index size raw = let idx = rem raw size in if ltb_ℤ idx (pos 0) then idx +ℤ size else idx

module _ {d : Double} {T : Type 0} where
  unfoldable pub index_for_ppq : d.Carrier → PpqRing d T → ℤ
  unfolding wrap_index
  index_for_ppq ppq r =
      let zero_d = d.of_int (pos 0) in
      let ppq_mod = d.fmod ppq r.display_beats in
      let ppq_mod' = if d.lt ppq_mod zero_d then d.add ppq_mod r.display_beats else ppq_mod in
      if leb_ℤ r.working_size (pos 0) || d.le r.ppq_to_index zero_d || d.le r.display_beats zero_d
      then pos 0
      else wrap_index r.working_size (d.to_int (d.mul ppq_mod' r.ppq_to_index))

  pub write : T → d.Carrier → PpqRing d T → PpqRing d T × Range
  write sample ppq r =
      let idx = index_for_ppq ppq r in
      if leb_ℤ r.working_size (pos 0) then (r, no_range) else (
        record r { buffer = set r.buffer (pos_part idx) sample },
        record { start = idx; end = idx +ℤ pos 1 },
      )

  pub write_at : ℤ → T → PpqRing d T → PpqRing d T
  unfolding ◌-ℤ◌
  write_at idx value r =
      let idx1 = if ltb_ℤ idx (pos 0) then pos 0 else idx in
      let idx2 = if leb_ℤ r.working_size idx1 then r.working_size -ℤ pos 1 else idx1 in
      if leb_ℤ r.working_size (pos 0)
      then r
      else record r { buffer = set r.buffer (pos_part idx2) value }

  -- The copying part of `insert`, past the guard. The sum passes `int` only where the working size is
  -- above 2 ^ 30; the first copy then goes past the end of the buffer, where the model cuts it.
  pub insert_at : ℤ → List T → ℤ → PpqRing d T → PpqRing d T × RingBufferInsertResult
  unfolding ◌+ℤ◌ ◌-ℤ◌
  insert_at start samples count r =
      let end_idx = to_int32 (start +ℤ count) in
      let first_part = r.working_size -ℤ start in
      let second_part = count -ℤ first_part in
      if leb_ℤ end_idx r.working_size
      then (
        record r { buffer = blit r.buffer (pos_part start) (take (pos_part count) samples) },
        record { range1 = record { start = start; end = end_idx }; range2 = no_range; ok = true },
      )
      else (
        record r {
          buffer =
              blit (blit r.buffer (pos_part start) (take (pos_part first_part) samples)) 0
                (take (pos_part second_part) (drop (pos_part first_part) samples));
        },
        record {
          range1 = record { start = start; end = r.working_size };
          range2 = record { start = pos 0; end = second_part };
          ok = true;
        },
      )

  -- A null pointer is `none`; a pointer is the list of the samples behind it.
  pub insert : d.Carrier → Option (List T) → ℤ → PpqRing d T → PpqRing d T × RingBufferInsertResult
  unfolding insert_at
  insert ppq none count r = (r, no_insert)
  insert ppq (some samples) count r =
      let start = index_for_ppq ppq r in
      if leb_ℤ r.working_size (pos 0) || leb_ℤ count (pos 0) || ltb_ℤ r.working_size count
      then (r, no_insert)
      else insert_at start samples count r

-- The calls of a client, and what a run of them makes of a ring.
pub data Call (d : Double) (T : Type 0) : Type 0 where
  set_size prepares : d.Carrier → d.Carrier → d.Carrier → Call d T
  clears : Call d T
  writes : T → d.Carrier → Call d T
  writes_at : ℤ → T → Call d T
  inserts : d.Carrier → Option (List T) → ℤ → Call d T

module _ {d : Double} {T : Type 0} (zero_value : T) where
  pub step : Call d T → PpqRing d T → PpqRing d T
  step (set_size bpm sample_rate beats) r =
      (set_working_size d zero_value bpm sample_rate beats r).0
  step (prepares beats bpm sample_rate) r = prepare d zero_value beats bpm sample_rate r
  step clears r = clear d zero_value r
  step (writes sample ppq) r = (write sample ppq r).0
  step (writes_at idx value) r = write_at idx value r
  step (inserts ppq samples count) r = (insert ppq samples count r).0

  pub run : List (Call d T) → PpqRing d T → PpqRing d T
  unfolding step
  run [] r = r
  run (c ∷ cs) r = run cs (step c r)
