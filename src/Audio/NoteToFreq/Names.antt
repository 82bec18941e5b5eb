-- ===== src/Audio/NoteToFreq/Names.antt =====
-- Names of notes and their MIDI numbers.
use phu_audio_lib.Base.{
  ℕ, zero, suc, ◌-◌, ◌<◌, ◌≡◌, refl, ℤ, pos, negsuc, ◌+ℤ◌, ◌-ℤ◌, ◌*ℤ◌, ◌==◌, Bool, true, false,
  Option, none, some, List, [], ◌∷◌, get_or, if◌then◌else◌, Bool-cases, inl, inr, arith,
}
use phu_audio_lib.Audio.NoteToFreq.{
  to_upper, is_letter, semitones, accidentals, octave_loop, octave_digits, signed, parse_octave,
  in_range, midi_of, note_name_to_midi, digits, to_string, midi_to_note_name,
}

-- Whether a result is the number `n`.
abbrev is_number : ℕ → Option ℤ → Bool
is_number n none = false
is_number n (some (pos m)) = m == n
is_number n (some (negsuc m)) = false

is_number-some : (n : ℕ) (o : Option ℤ) → is_number n o ≡ true → o ≡ some (pos n)
is_number-some n none e = ground arith
is_number-some n (some (pos m)) e = let same : m ≡ n = ground arith in rw same refl
is_number-some n (some (negsuc m)) e = ground arith

abbrev all_below : ℕ → (ℕ → Bool) → Bool
all_below zero p = true
all_below (suc n) p = let rest = all_below n p in if p n then rest else false

all_below-at : (n k : ℕ) (p : ℕ → Bool) → all_below n p ≡ true → k < n → p k ≡ true
all_below-at zero k p e h = absurd (omega arith)
all_below-at (suc n) k p e h = elim (Bool-cases (p n)) [
  | inl yes_n ↦ elim (Bool-cases (k == n)) [
    | inl same ↦ let e' : k ≡ n = ground arith in rw e' yes_n
    | inr other ↦ all_below-at n k p (ground arith) (ground arith)
  ]
  | inr no_n ↦ ground arith
]

all_round_trips :
    all_below 128 (λ n. is_number n (note_name_to_midi (midi_to_note_name (pos n)))) ≡ true
unfolding note_name_to_midi midi_to_note_name to_upper is_letter accidentals parse_octave midi_of
    octave_loop octave_digits signed in_range digits to_string ◌+ℤ◌ ◌-ℤ◌ ◌*ℤ◌
all_round_trips = refl

-- The name of every MIDI number from 0 to 127 is parsed back to that number.
pub note_name_to_midi-midi_to_note_name :
    (n : ℕ) → n < 128 → note_name_to_midi (midi_to_note_name (pos n)) ≡ some (pos n)
note_name_to_midi-midi_to_note_name n h =
    is_number-some n (note_name_to_midi (midi_to_note_name (pos n))) (
      all_below-at 128 n (λ n. is_number n (note_name_to_midi (midi_to_note_name (pos n))))
        all_round_trips h)

in_range-bounds : (a midi : ℤ) → in_range a ≡ some midi → (n : ℕ) × (midi ≡ pos n) × (n < 128)
unfolding in_range
in_range-bounds (pos n) midi e = (n, ground arith, ground arith)
in_range-bounds (negsuc n) midi e = absurd (ground arith)

midi_of-bounds :
    (base : ℕ) (accidental : ℤ) (o : Option ℤ) (midi : ℤ)
    → midi_of base accidental o ≡ some midi
    → (n : ℕ) × (midi ≡ pos n) × (n < 128)
unfolding midi_of
midi_of-bounds base accidental none midi e = absurd (ground arith)
midi_of-bounds base accidental (some octave) midi e =
    in_range-bounds (pos 12 *ℤ (octave +ℤ pos 1) +ℤ pos base +ℤ accidental) midi e

-- Whatever string is parsed, a result is a MIDI number from 0 to 127.
pub note_name_to_midi_bounds :
    (name : List ℕ) (midi : ℤ)
    → note_name_to_midi name ≡ some midi
    → (n : ℕ) × (midi ≡ pos n) × (n < 128)
unfolding note_name_to_midi
note_name_to_midi_bounds [] midi e = absurd (ground arith)
note_name_to_midi_bounds (c ∷ cs) midi e = elim (Bool-cases (is_letter (to_upper c))) [
  | inl letter ↦
      midi_of-bounds (get_or semitones (to_upper c - b'A') 0) (accidentals cs).0
        (parse_octave (accidentals cs).1) midi (ground arith)
  | inr other ↦ absurd (ground arith)
]
