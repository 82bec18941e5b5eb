-- ===== src/Audio/NoteToFreq/Tests.antt =====
-- Names of notes.
use phu_audio_lib.Base.{◌≡◌, refl, pos, ◌+ℤ◌, ◌-ℤ◌, ◌*ℤ◌, some, [], ◌∷◌, arith}
use phu_audio_lib.Audio.NoteToFreq.{
  to_upper, is_letter, accidentals, octave_loop, octave_digits, signed, parse_octave, in_range,
  midi_of, note_name_to_midi, midi_to_note_name,
}
use phu_audio_lib.Audio.NoteToFreq.Names.{note_name_to_midi-midi_to_note_name}

note_name_to_midi-midi_to_note_name_example :
    note_name_to_midi (midi_to_note_name (pos 69)) ≡ some (pos 69)
note_name_to_midi-midi_to_note_name_example = note_name_to_midi-midi_to_note_name 69 (omega arith)

-- E sharp is F.
e_sharp : note_name_to_midi (b'e' ∷ b'#' ∷ b'1' ∷ []) ≡ some (pos 29)
unfolding note_name_to_midi to_upper is_letter accidentals parse_octave midi_of octave_loop
    octave_digits signed in_range ◌+ℤ◌ ◌-ℤ◌ ◌*ℤ◌
e_sharp = refl
