-- ===== src/Audio/BeatSyncBuffer/Tests.antt =====
-- A buffer of four bins, with integers in place of doubles.
use phu_audio_lib.Base.{ℕ, ◌≡◌, refl, pos, [], ◌∷◌}
use phu_audio_lib.Audio.BeatSyncBuffer.{BeatSyncBuffer, new_buffer, prepare, clear, set_clear_value}

abbrev four_bins : BeatSyncBuffer ℕ
four_bins = record { bins = 7 ∷ 7 ∷ 7 ∷ 7 ∷ []; num_bins = pos 4; clear_value = 7 }

prepares_four : prepare (pos 4) (new_buffer 7) ≡ four_bins
unfolding prepare new_buffer
prepares_four = refl

clears_to_new_value :
    clear (set_clear_value 9 four_bins)
    ≡ record { bins = 9 ∷ 9 ∷ 9 ∷ 9 ∷ []; num_bins = pos 4; clear_value = 9 }
unfolding clear set_clear_value
clears_to_new_value = refl
