-- ===== src/Audio/BeatSyncBuffer/Bins.antt =====
-- The bins of a BeatSyncBuffer.
use phu_audio_lib.Base.{
  ℕ, ◌<◌, ◌≡◌, ◌≤ℤ◌, ◌<ℤ◌, refl, ap, sym, ◌∙◌, ℤ, pos, negsuc, pos_part, ◌-ℤ◌, leb_ℤ, ◌==◌, false,
  length, get_or, set, length-set, get_or-set, if◌then◌else◌, arith,
}
use mathlib.Core.Path.{subst}
use phu_audio_lib.Double.{Double}
use phu_audio_lib.Audio.BeatSyncBuffer.{BeatSyncBuffer, get_bin, clamp_index, bin_of, write}

-- The member `m_numBins` is the number of the bins.
abbrev pub IsValid : {T : Type 0} → BeatSyncBuffer T → Type 0
IsValid b = b.num_bins ≡ pos (length b.bins)

clamp_index-inside :
    (num_bins idx : ℤ)
    → pos 0 <ℤ num_bins
    → (pos 0 ≤ℤ clamp_index num_bins idx) × (clamp_index num_bins idx <ℤ num_bins)
unfolding clamp_index ◌-ℤ◌
clamp_index-inside (pos n) (pos i) h = (ground arith, ground arith)
clamp_index-inside (pos n) (negsuc i) h = (ground arith, ground arith)
clamp_index-inside (negsuc n) idx h = absurd (omega arith)

pos_part-below : (i : ℤ) (n : ℕ) → pos 0 ≤ℤ i → i <ℤ pos n → pos_part i < n
pos_part-below (pos i) n h g = omega arith
pos_part-below (negsuc i) n h g = absurd (omega arith)

module _ {T : Type 0} where
  write_some :
      (d : Double) (normalized_pos : d.Carrier) (value : T) (b : BeatSyncBuffer T)
      → IsValid b
      → 0 < length b.bins
      → write d normalized_pos value b
        ≡ record b { bins = set b.bins (pos_part (bin_of d normalized_pos b)) value }
  unfolding write
  write_some d normalized_pos value b v h =
      let some_bins : leb_ℤ b.num_bins (pos 0) ≡ false = rw v (ground arith) in rw some_bins refl

  get_bin-inside :
      (b : BeatSyncBuffer T) (j : ℕ)
      → b.num_bins ≡ pos (length b.bins)
      → j < length b.bins
      → get_bin (pos j) b ≡ get_or b.bins j b.clear_value
  unfolding get_bin
  get_bin-inside b j v h =
      let inside : leb_ℤ b.num_bins (pos j) ≡ false = rw v (ground arith) in
      rw inside (ground arith)

  -- A write of a valid buffer that has bins changes exactly the bin of the position, which lies inside
  -- whatever the floating-point operations return, and the buffer stays valid.
  pub get_bin-write :
      (d : Double) (normalized_pos : d.Carrier) (value : T) (b : BeatSyncBuffer T) (j : ℕ)
      → IsValid b
      → 0 < length b.bins
      → j < length b.bins
      → IsValid (write d normalized_pos value b)
        × (pos 0 ≤ℤ bin_of d normalized_pos b)
        × (bin_of d normalized_pos b <ℤ b.num_bins)
        × (get_bin (pos j) (write d normalized_pos value b)
            ≡ (if j == pos_part (bin_of d normalized_pos b) then value else get_bin (pos j) b))
  unfolding bin_of
  get_bin-write d normalized_pos value b j v some_bins h =
      let i = bin_of d normalized_pos b in
      let (above, below) =
        clamp_index-inside b.num_bins (d.to_int (d.mul normalized_pos (d.of_int b.num_bins)))
          (rw v (omega arith)) in
      let inside : pos_part i < length b.bins =
        pos_part-below i (length b.bins) above (subst (λ m. i <ℤ m) v below) in
      let c = record b { bins = set b.bins (pos_part i) value } in
      let same = length-set b.bins (pos_part i) value in
      let valid : IsValid c = v ∙ ap pos (sym same) in
      (
        subst IsValid (sym (write_some d normalized_pos value b v some_bins)) valid,
        above,
        below,
        ap (get_bin (pos j)) (write_some d normalized_pos value b v some_bins)
            ∙ get_bin-inside c j valid (omega (arith, same))
            ∙ get_or-set b.bins (pos_part i) j value b.clear_value inside
            ∙ ap (λ x. if j == pos_part i then value else x) (sym (get_bin-inside b j v h)),
      )
