-- ===== src/Audio/PpqRing/Insert.antt =====
-- PpqAddressedRingBuffer::insert: what a block insert writes, and the ranges that it reports.
use native.Mathlib.Nat.{mod-eq_of_lt, mod-eq-sub-mod}
use phu_audio_lib.Base.{
  ℕ, ◌+◌, ◌-◌, ◌%◌, ◌^◌, ◌≤◌, ◌<◌, ◌≡◌, ◌⊎◌, ◌↔◌, refl, ◌∙◌, ℤ, pos, pos_part, ◌+ℤ◌, ◌-ℤ◌, ◌≤ℤ◌,
  ◌<ℤ◌, true, Option, none, some, List, length, get_elem?, take, drop, blit, take-length,
  get_elem?-take, get_elem?-drop, length-take, length-drop, length-blit, get_elem?-blit_inside,
  get_elem?-blit_below, get_elem?-blit_above, arith,
}
use native.Mathlib.Decide.{dec_le, dec_lt}
use phu_audio_lib.Double.{Double}
use phu_audio_lib.Audio.InsertResult.{no_insert, no_range}
use phu_audio_lib.Audio.Bucket.Dirty.{InRange}
use phu_audio_lib.Audio.PpqRing.{PpqRing, index_for_ppq, insert}
use phu_audio_lib.Audio.PpqRing.Bounds.{IsValid, index_for_ppq_bounds}

-- Copying `n` samples round the end of a ring of `w` places: the two copies of `insertAt`.
wrapped_copy {ℓ} : {A : Type ℓ} → List A → ℕ → ℕ → List A → List A
wrapped_copy buf w st src =
    blit (blit buf st (take (w - st) src)) 0 (take (length src - (w - st)) (drop (w - st) src))

module _ {ℓ} {A : Type ℓ} (buf : List A) (w st : ℕ) (src : List A) (hs : st < w)
    (hw : w ≤ length buf) (hn : length src ≤ w) (past : w < st + length src) where
  first_length : length (take (w - st) src) ≡ w - st
  first_length = omega (arith, length-take (w - st) src)

  second_length : length (take (length src - (w - st)) (drop (w - st) src)) ≡ length src - (w - st)
  second_length =
      omega
        (arith, length-take (length src - (w - st)) (drop (w - st) src), length-drop (w - st) src)

  wrapped_copy-first :
      (k : ℕ) → k < w - st → get_elem? (wrapped_copy buf w st src) (st + k) ≡ get_elem? src k
  unfolding wrapped_copy
  wrapped_copy-first k h =
      get_elem?-blit_above _ 0 _ (st + k) (omega (arith, second_length))
      ∙ get_elem?-blit_inside buf st (take (w - st) src) (st + k) k refl
          (omega (arith, first_length)) (omega (arith, first_length))
      ∙ get_elem?-take (w - st) src k h

  wrapped_copy-second :
      (k j : ℕ)
      → w - st ≤ k
      → k < length src
      → j + w ≡ st + k
      → get_elem? (wrapped_copy buf w st src) j ≡ get_elem? src k
  unfolding wrapped_copy
  wrapped_copy-second k j h l e =
      get_elem?-blit_inside (blit buf st (take (w - st) src)) 0 _ j j (omega arith)
        (omega (arith, second_length))
        (omega (arith, second_length, length-blit buf st (take (w - st) src)))
      ∙ get_elem?-take (length src - (w - st)) (drop (w - st) src) j (omega arith)
      ∙ get_elem?-drop (w - st) src k j (omega arith)

  wrapped_copy-other :
      (j : ℕ)
      → st + length src ≤ j + w
      → j < st
      → get_elem? (wrapped_copy buf w st src) j ≡ get_elem? buf j
  unfolding wrapped_copy
  wrapped_copy-other j h l =
      get_elem?-blit_above _ 0 _ j (omega (arith, second_length))
      ∙ get_elem?-blit_below buf st (take (w - st) src) j l

-- The places from `st` on, `n` of them, going round at `w`.
abbrev pub Written : ℕ → ℕ → ℕ → ℕ → Type 0
Written st n w j = ((st ≤ j) × (j < st + n)) ⊎ (j + w < st + n)

-- The place of the first sample of an insert.
abbrev pub start_place : {d : Double} {T : Type 0} → d.Carrier → PpqRing d T → ℕ
start_place ppq r = pos_part (index_for_ppq ppq r)

module _ {d : Double} {T : Type 0} (r : PpqRing d T) (v : IsValid r) (w : ℕ)
    (size : r.working_size ≡ pos w) (ppq : d.Carrier) where
  pub start-eq : 0 < w → (index_for_ppq ppq r ≡ pos (start_place ppq r)) × ((start_place ppq r) < w)
  start-eq h = ground (arith, index_for_ppq_bounds r ppq)

  fits-buffer : w ≤ length r.buffer
  fits-buffer = ground (arith, v.fits)

  -- The bound on the working size keeps the end of the block an `int`.
  module _ (small : w ≤ 2 ^ 30) (samples : List T) (nonempty : 0 < length samples)
      (fits : length samples ≤ w) where
    insert-straight :
        (start_place ppq r) + length samples ≤ w
        → insert ppq (some samples) (pos (length samples)) r ≡ (
          record r { buffer = blit r.buffer (start_place ppq r) samples },
          record {
            range1 = record {
              start = pos (start_place ppq r);
              end = pos ((start_place ppq r) + length samples);
            };
            range2 = no_range;
            ok = true;
          },
        )
    unfolding insert ◌+ℤ◌ ◌-ℤ◌
    insert-straight h = ground (arith, start-eq, take-length samples)

    insert-wrapped :
        w < (start_place ppq r) + length samples
        → insert ppq (some samples) (pos (length samples)) r ≡ (
          record r { buffer = wrapped_copy r.buffer w (start_place ppq r) samples },
          record {
            range1 = record { start = pos (start_place ppq r); end = pos w };
            range2 = record {
              start = pos 0;
              end = pos (length samples - (w - (start_place ppq r)));
            };
            ok = true;
          },
        )
    unfolding insert ◌+ℤ◌ ◌-ℤ◌ wrapped_copy
    insert-wrapped h = ground (arith, start-eq)

    -- For a block that fits a ring of working size at most 2 ^ 30, sample k ends up at place ((start_place ppq r) + k) mod W.
    pub insert-sample :
        (k : ℕ)
        → k < length samples
        → get_elem?
            (insert ppq (some samples) (pos (length samples)) r).0.buffer
            (((start_place ppq r) + k) % w)
          ≡ get_elem? samples k
    insert-sample k h = elim (dec_le ((start_place ppq r) + length samples) w) [
      | yes flat ↦ rw (insert-straight flat) (
          get_elem?-blit_inside r.buffer (start_place ppq r) samples (((start_place ppq r) + k) % w)
            k (omega (arith, mod-eq_of_lt {n = (start_place ppq r) + k} {m = w} (omega arith))) h
            (omega (arith, fits-buffer)))
      | no past ↦ rw (insert-wrapped (omega arith)) (elim (dec_lt k (w - (start_place ppq r))) [
        | yes first ↦ rw (mod-eq_of_lt {n = (start_place ppq r) + k} {m = w} (omega arith)) (
            wrapped_copy-first r.buffer w (start_place ppq r) samples (start-eq (omega arith)).1
              fits-buffer fits (omega arith) k first)
        | no second ↦
            wrapped_copy-second r.buffer w (start_place ppq r) samples (start-eq (omega arith)).1
              fits-buffer fits (omega arith) k (((start_place ppq r) + k) % w) (omega arith) h
              (omega (
                arith,
                start-eq (omega arith),
                mod-eq-sub-mod {n = (start_place ppq r) + k} {m = w}
                    (omega (arith, start-eq (omega arith))),
                mod-eq_of_lt {n = (start_place ppq r) + k - w} {m = w}
                    (omega (arith, start-eq (omega arith))),
              ))
      ])
    ]

    -- Every other place of the working range, at most 2 ^ 30 in size, keeps its sample.
    pub insert-other :
        (j : ℕ)
        → j < w
        → ¬ Written (start_place ppq r) (length samples) w j
        → get_elem? (insert ppq (some samples) (pos (length samples)) r).0.buffer j
          ≡ get_elem? r.buffer j
    insert-other j h out = elim (dec_le ((start_place ppq r) + length samples) w) [
      | yes flat ↦ rw (insert-straight flat) (elim (dec_lt j (start_place ppq r)) [
        | yes before ↦ get_elem?-blit_below r.buffer (start_place ppq r) samples j before
        | no after ↦ get_elem?-blit_above r.buffer (start_place ppq r) samples j (grind arith)
      ])
      | no past ↦ rw (insert-wrapped (omega arith)) (
          wrapped_copy-other r.buffer w (start_place ppq r) samples (start-eq (omega arith)).1
            fits-buffer fits (omega arith) j (grind arith) (grind arith))
    ]

    -- It reports success, and its two ranges hold exactly the places that it has written.
    pub insert-ranges :
        (j : ℕ)
        → j < w
        → let res = (insert ppq (some samples) (pos (length samples)) r).1 in
          (res.ok ≡ true)
          × ((InRange (pos j) res.range1 ⊎ InRange (pos j) res.range2)
              ↔ Written (start_place ppq r) (length samples) w j)
    insert-ranges j h = elim (dec_le ((start_place ppq r) + length samples) w) [
      | yes flat ↦ rw (insert-straight flat) (refl, (λ e. ground arith, λ e. ground arith))
      | no past ↦ rw (insert-wrapped (omega arith)) (
        refl,
        (λ e. ground (arith, start-eq (omega arith)), λ e. ground (arith, start-eq (omega arith))),
      )
    ]

-- An insert with a null pointer, a count that is not positive or larger than the working size, or
-- into a ring of no working size, changes nothing and reports neither success nor a range.
pub insert-refused :
    {d : Double} {T : Type 0} (r : PpqRing d T) (ppq : d.Carrier) (samples : Option (List T))
    (count : ℤ)
    → (samples ≡ none) ⊎ (r.working_size ≤ℤ pos 0) ⊎ (count ≤ℤ pos 0) ⊎ (r.working_size <ℤ count)
    → insert ppq samples count r ≡ (r, no_insert)
unfolding insert
insert-refused r ppq none count h = refl
insert-refused r ppq (some samples) count h = ground arith
