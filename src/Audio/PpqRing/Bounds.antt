-- ===== src/Audio/PpqRing/Bounds.antt =====
-- PpqAddressedRingBuffer: the working size stays within the buffer, and indices within the working
-- size.
use phu_audio_lib.Base.{
  ℕ, ◌-◌, ◌≡◌, refl, Bool-cases, inl, inr, ℤ, pos, negsuc, pos_part, ◌≤ℤ◌, ◌<ℤ◌, true, Option, none,
  some, List, [], ◌∷◌, replicate, length-append, length-take, length, length-set, length-fill,
  length-blit, length-replicate, take, arith,
}
use phu_audio_lib.Double.{Double}
use phu_audio_lib.Audio.PpqRing.{
  PpqRing, wrap_index, index_for_ppq, set_working_size, desired_size, capped_size,
  reserve_by_worst_case, clear, prepare, write, write_at, insert_at, insert, resize, resize_to,
  reserved_capacity, positive, Call, set_size, prepares, clears, writes, writes_at, inserts, step,
  run,
}

-- The working size is not negative and not larger than the buffer.
pub record IsValid {d : Double} {T : Type 0} (r : PpqRing d T) : Type 0 where
  pub nonneg : pos 0 ≤ℤ r.working_size
  pub fits : r.working_size ≤ℤ pos (length r.buffer)

length-resize {ℓ} : {A : Type ℓ} (n : ℕ) (x : A) (xs : List A) → length (resize n x xs) ≡ n
length-resize n x xs = omega (
  arith,
  length-append (take n xs) (replicate (n - length xs) x),
  length-take n xs,
  length-replicate (n - length xs) x,
)

pub wrap_index_bounds :
    (size raw : ℤ) → pos 0 <ℤ size → (pos 0 ≤ℤ wrap_index size raw) × (wrap_index size raw <ℤ size)
unfolding wrap_index
wrap_index_bounds (pos n) (pos a) h = ground arith
wrap_index_bounds (pos n) (negsuc a) h = ground arith
wrap_index_bounds (negsuc n) raw h = absurd (omega arith)

module _ {d : Double} {T : Type 0} where
  -- Whatever the floating-point operations return, NaNs and values out of the range of `int` included, the index is
  -- in [0, workingSize) if the working size is positive.
  pub index_for_ppq_bounds :
      (r : PpqRing d T) (ppq : d.Carrier)
      → pos 0 <ℤ r.working_size
      → (pos 0 ≤ℤ index_for_ppq ppq r) × (index_for_ppq ppq r <ℤ r.working_size)
  unfolding index_for_ppq
  index_for_ppq_bounds r ppq h = ground (arith, wrap_index_bounds r.working_size)

  -- `setWorkingSize` keeps the working size within the buffer, on every branch.
  pub set_working_size-IsValid :
      (zero_value : T) (bpm sample_rate beats : d.Carrier) (r : PpqRing d T)
      → IsValid r
      → IsValid (set_working_size d zero_value bpm sample_rate beats r).0
  unfolding set_working_size
  set_working_size-IsValid zero_value bpm sample_rate beats r v = ground (
    arith,
    length-replicate
        (pos_part (capped_size d zero_value (desired_size d zero_value bpm sample_rate beats) r))
        zero_value,
  )

  clear-IsValid : (zero_value : T) (r : PpqRing d T) → IsValid r → IsValid (clear d zero_value r)
  unfolding clear
  clear-IsValid zero_value r v =
      ground (arith, length-fill (pos_part r.working_size) zero_value r.buffer)

  -- So does `prepare`.
  pub prepare-IsValid :
      (zero_value : T) (beats bpm sample_rate : d.Carrier) (r : PpqRing d T)
      → IsValid r
      → IsValid (prepare d zero_value beats bpm sample_rate r)
  unfolding prepare
  prepare-IsValid zero_value beats bpm sample_rate r v =
      elim (Bool-cases (set_working_size d zero_value bpm sample_rate beats r).1) [
        | inl e ↦ rw e (
            clear-IsValid zero_value _
              (set_working_size-IsValid zero_value bpm sample_rate beats r v))
        | inr e ↦ rw e (set_working_size-IsValid zero_value bpm sample_rate beats r v)
      ]

  write-IsValid :
      (sample : T) (ppq : d.Carrier) (r : PpqRing d T) → IsValid r → IsValid (write sample ppq r).0
  unfolding write
  write-IsValid sample ppq r v =
      ground (arith, length-set r.buffer (pos_part (index_for_ppq ppq r)) sample)

  write_at-IsValid :
      (idx : ℤ) (value : T) (r : PpqRing d T) → IsValid r → IsValid (write_at idx value r)
  unfolding write_at
  write_at-IsValid idx value r v = grind (arith, length-set)

  insert_at-IsValid :
      (start : ℤ) (samples : List T) (count : ℤ) (r : PpqRing d T)
      → IsValid r
      → IsValid (insert_at start samples count r).0
  unfolding insert_at
  insert_at-IsValid start samples count r v = grind (arith, length-blit)

  insert-IsValid :
      (ppq : d.Carrier) (samples : Option (List T)) (count : ℤ) (r : PpqRing d T)
      → IsValid r
      → IsValid (insert ppq samples count r).0
  unfolding insert
  insert-IsValid ppq none count r v = v
  insert-IsValid ppq (some samples) count r v =
      ground (arith, insert_at-IsValid (index_for_ppq ppq r) samples count r v)

  resize_to-IsValid :
      (zero_value : T) (cap : ℤ) (r r' : PpqRing d T)
      → IsValid r
      → r.working_size ≤ℤ cap
      → resize_to d zero_value cap r ≡ some r'
      → IsValid r'
  unfolding resize_to
  resize_to-IsValid zero_value (pos n) r r' v h e =
      ground (arith, length-resize n zero_value r.buffer)
  resize_to-IsValid zero_value (negsuc n) r r' v h e = cc

  -- `reserveByWorstCase` keeps a valid ring valid if what it reserves is not less than the working size.
  pub reserve_by_worst_case-IsValid :
      (zero_value : T) (min_bpm max_sample_rate max_beats : d.Carrier) (r r' : PpqRing d T)
      → IsValid r
      → r.working_size ≤ℤ reserved_capacity d zero_value min_bpm max_sample_rate max_beats
      → reserve_by_worst_case d zero_value min_bpm max_sample_rate max_beats r ≡ some r'
      → IsValid r'
  unfolding reserve_by_worst_case
  reserve_by_worst_case-IsValid zero_value min_bpm max_sample_rate max_beats r r' v h e = ground (
    arith,
    resize_to-IsValid zero_value (reserved_capacity d zero_value min_bpm max_sample_rate max_beats)
        r r',
  )

  -- If it reserves fewer samples than the working size, the buffer shrinks under the working size, which is kept: the last
  -- place of the working range is then no place of the buffer.
  pub reserve_by_worst_case-shrinks :
      (zero_value : T) (min_bpm max_sample_rate max_beats : d.Carrier) (r : PpqRing d T) (n : ℕ)
      → positive d zero_value min_bpm ≡ true
      → positive d zero_value max_sample_rate ≡ true
      → positive d zero_value max_beats ≡ true
      → reserved_capacity d zero_value min_bpm max_sample_rate max_beats ≡ pos n
      → pos n <ℤ r.working_size
      → (r' : PpqRing d T) × (reserve_by_worst_case d zero_value min_bpm max_sample_rate max_beats r
          ≡ some r')
        × (r'.working_size ≡ r.working_size)
        × (length r'.buffer ≡ n)
        × ¬ IsValid r'
  unfolding reserve_by_worst_case resize_to
  reserve_by_worst_case-shrinks zero_value min_bpm max_sample_rate max_beats r n p q s e h = (
    record r { buffer = resize n zero_value r.buffer },
    rw (p, q, s, e),
    refl,
    length-resize n zero_value r.buffer,
    λ v. ground (arith, v.fits, length-resize n zero_value r.buffer),
  )

  step-IsValid :
      (zero_value : T) (c : Call d T) (r : PpqRing d T) → IsValid r → IsValid (step zero_value c r)
  unfolding step
  step-IsValid z (set_size bpm sample_rate beats) r v =
      set_working_size-IsValid z bpm sample_rate beats r v
  step-IsValid z (prepares beats bpm sample_rate) r v = prepare-IsValid z beats bpm sample_rate r v
  step-IsValid z clears r v = clear-IsValid z r v
  step-IsValid z (writes sample ppq) r v = write-IsValid sample ppq r v
  step-IsValid z (writes_at idx value) r v = write_at-IsValid idx value r v
  step-IsValid z (inserts ppq samples count) r v = insert-IsValid ppq samples count r v

  -- No sequence of calls of `setWorkingSize`, `prepare`, `clear`, `write`, `writeAt` and `insert`, with any arguments, takes the
  -- working size of a valid ring out of its buffer.
  pub run-IsValid :
      (zero_value : T) (cs : List (Call d T)) (r : PpqRing d T)
      → IsValid r
      → IsValid (run zero_value cs r)
  unfolding run
  run-IsValid z [] r v = v
  run-IsValid z (c ∷ cs) r v = run-IsValid z cs (step z c r) (step-IsValid z c r v)
