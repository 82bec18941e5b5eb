-- ===== src/Audio/BeatSyncBuffer.antt =====
-- audio/BeatSyncBuffer.h: bins that are addressed by a position in [0, 1). As in `Audio.PpqRing`, the
-- conversion of a double to an `int` is `to_int` of `Double`.
pub mod Bins
mod Tests
use phu_audio_lib.Base.{
  ℕ, ◌-◌, ◌^◌, ◌%◌, ℤ, pos, negsuc, pos_part, ◌-ℤ◌, ltb_ℤ, leb_ℤ, ◌||◌, List, [], ◌∷◌, length,
  get_or, set, replicate, fill, if◌then◌else◌,
}
use phu_audio_lib.Double.{Double}

pub record BeatSyncBuffer (T : Type 0) : Type 0 where
  pub bins : List T
  pub num_bins : ℤ
  pub clear_value : T

unfoldable pub new_buffer : {T : Type 0} → T → BeatSyncBuffer T
new_buffer clear_value = record { bins = []; num_bins = pos 0; clear_value = clear_value }

module _ {T : Type 0} where
  -- The cast of a negative number to `size_t` asks for more memory than there is: `assign` throws, and the buffer is
  -- as it was.
  pub prepare : ℤ → BeatSyncBuffer T → BeatSyncBuffer T
  prepare (pos n) b = record b { bins = replicate n b.clear_value; num_bins = pos n }
  prepare (negsuc n) b = b

  pub clear : BeatSyncBuffer T → BeatSyncBuffer T
  clear b = record b { bins = fill (length b.bins) b.clear_value b.bins }

  pub set_clear_value : T → BeatSyncBuffer T → BeatSyncBuffer T
  set_clear_value value b = record b { clear_value = value }

  pub get_bin : ℤ → BeatSyncBuffer T → T
  get_bin index b =
      if ltb_ℤ index (pos 0) || leb_ℤ b.num_bins index
      then b.clear_value
      else get_or b.bins (pos_part index) b.clear_value

-- The two tests of `write` on the index.
pub clamp_index : ℤ → ℤ → ℤ
unfolding ◌-ℤ◌
clamp_index num_bins idx =
    let idx1 = if ltb_ℤ idx (pos 0) then pos 0 else idx in
    if leb_ℤ num_bins idx1 then num_bins -ℤ pos 1 else idx1

module _ (d : Double) {T : Type 0} where
  pub bin_of : d.Carrier → BeatSyncBuffer T → ℤ
  unfolding clamp_index
  bin_of normalized_pos b =
      clamp_index b.num_bins (d.to_int (d.mul normalized_pos (d.of_int b.num_bins)))

  pub write : d.Carrier → T → BeatSyncBuffer T → BeatSyncBuffer T
  unfolding bin_of
  write normalized_pos value b =
      if leb_ℤ b.num_bins (pos 0)
      then b
      else record b { bins = set b.bins (pos_part (bin_of normalized_pos b)) value }
