-- ===== src/Audio/NoteToFreq.antt =====
-- audio/NoteToFreq.h: note names, MIDI numbers and frequencies. A string is the list of its bytes; `toupper` is
-- that of the C locale. The octave is an `int`, whose overflow C++ leaves undefined; here it is exact.
pub mod Names
mod Tests
use phu_audio_lib.Base.{
  ℕ, zero, suc, ◌+◌, ◌-◌, ◌*◌, ◌/◌, ◌%◌, ℤ, pos, negsuc, negate, ◌+ℤ◌, ◌-ℤ◌, ◌*ℤ◌, quot, rem,
  pos_part, ltb_ℤ, ltb, leb, ◌==◌, Bool, true, false, Option, none, some, List, [], ◌∷◌, ◌++◌, ◌&&◌,
  ◌||◌, not, get_or, if◌then◌else◌,
}
use phu_audio_lib.Double.{Double}

to_upper : ℕ → ℕ
to_upper c = if leb b'a' c && leb c b'z' then c - 32 else c

is_letter : ℕ → Bool
is_letter c = leb b'A' c && leb c b'G'

abbrev semitones : List ℕ
semitones = 9 ∷ 11 ∷ 0 ∷ 2 ∷ 4 ∷ 5 ∷ 7 ∷ []

-- The loop over the accidentals: their sum, and what is left of the name.
pub accidentals : List ℕ → ℤ × List ℕ
unfolding ◌+ℤ◌ ◌-ℤ◌
accidentals [] = (pos 0, [])
accidentals (c ∷ cs) =
    let rest = accidentals cs in
    if c == b'#'
    then (rest.0 +ℤ pos 1, rest.1)
    else if c == b'b' || c == b'B'
    then (rest.0 -ℤ pos 1, rest.1)
    else (pos 0, c ∷ cs)

-- The loop over the digits, with the octave so far.
octave_loop : ℕ → List ℕ → Option ℕ
octave_loop octave [] = some octave
octave_loop octave (c ∷ cs) =
    let rest = octave_loop (octave * 10 + (c - b'0')) cs in
    if leb b'0' c && leb c b'9' then rest else none

-- The digits, of which there must be one.
octave_digits : List ℕ → Option ℕ
unfolding octave_loop
octave_digits [] = none
octave_digits (c ∷ cs) = octave_loop 0 (c ∷ cs)

signed : Bool → Option ℕ → Option ℤ
signed negative none = none
signed negative (some n) = some (if negative then negate n else pos n)

pub parse_octave : List ℕ → Option ℤ
unfolding octave_digits signed
parse_octave [] = none
parse_octave (c ∷ cs) =
    if c == b'-' then signed true (octave_digits cs) else signed false (octave_digits (c ∷ cs))

in_range : ℤ → Option ℤ
in_range midi = if ltb_ℤ midi (pos 0) || ltb_ℤ (pos 127) midi then none else some midi

midi_of : ℕ → ℤ → Option ℤ → Option ℤ
unfolding in_range ◌+ℤ◌ ◌*ℤ◌
midi_of base accidental none = none
midi_of base accidental (some octave) =
    in_range (pos 12 *ℤ (octave +ℤ pos 1) +ℤ pos base +ℤ accidental)

pub note_name_to_midi : List ℕ → Option ℤ
unfolding to_upper is_letter accidentals parse_octave midi_of
note_name_to_midi [] = none
note_name_to_midi (c ∷ cs) =
    let letter = to_upper c in
    let (accidental, rest) = accidentals cs in
    if is_letter letter
    then midi_of (get_or semitones (letter - b'A') 0) accidental (parse_octave rest)
    else none

abbrev note_names : List (List ℕ)
note_names =
    (b'C' ∷ [])
    ∷ (b'C' ∷ b'#' ∷ [])
    ∷ (b'D' ∷ [])
    ∷ (b'D' ∷ b'#' ∷ [])
    ∷ (b'E' ∷ [])
    ∷ (b'F' ∷ [])
    ∷ (b'F' ∷ b'#' ∷ [])
    ∷ (b'G' ∷ [])
    ∷ (b'G' ∷ b'#' ∷ [])
    ∷ (b'A' ∷ [])
    ∷ (b'A' ∷ b'#' ∷ [])
    ∷ (b'B' ∷ [])
    ∷ []

-- `std::to_string` of an `int`, which has at most ten digits.
digits : ℕ → ℕ → List ℕ
digits zero n = []
digits (suc fuel) n =
    let rest = digits fuel (n / 10) in
    if ltb n 10 then (b'0' + n) ∷ [] else rest ++ (b'0' + n % 10) ∷ []

to_string : ℤ → List ℕ
unfolding digits
to_string (pos n) = digits 10 n
to_string (negsuc n) = b'-' ∷ digits 10 (suc n)

pub midi_to_note_name : ℤ → List ℕ
unfolding to_string ◌-ℤ◌
midi_to_note_name midi_note =
    let octave = quot midi_note (pos 12) -ℤ pos 1 in
    let semitone = rem midi_note (pos 12) in
    if ltb_ℤ midi_note (pos 0) || ltb_ℤ (pos 127) midi_note
    then []
    else get_or note_names (pos_part semitone) [] ++ to_string octave

pub looks_like_note_name : List ℕ → Bool
unfolding is_letter to_upper
looks_like_note_name [] = false
looks_like_note_name (c ∷ cs) = is_letter (to_upper c)

-- `std::pow`, `std::log2` and `std::round`.
module _ (d : Double) (pow : d.Carrier → d.Carrier → d.Carrier)
    (log2 round : d.Carrier → d.Carrier) where
  pub midi_to_frequency : ℤ → d.Carrier
  unfolding ◌-ℤ◌
  midi_to_frequency midi_note =
      d.mul (d.lit (pos 440) 1)
        (pow (d.lit (pos 2) 1) (d.div (d.of_int (midi_note -ℤ pos 69)) (d.lit (pos 12) 1)))

  frequency_of : Option ℤ → Option d.Carrier
  unfolding midi_to_frequency
  frequency_of none = none
  frequency_of (some midi) = some (midi_to_frequency midi)

  -- The test for an empty name is that of `noteNameToMidi`.
  pub to_frequency : List ℕ → Option d.Carrier
  unfolding frequency_of
  to_frequency [] = none
  to_frequency (c ∷ cs) = frequency_of (note_name_to_midi (c ∷ cs))

  -- `midiToNoteName` makes the same test of the range as this function.
  pub frequency_to_note_name : d.Carrier → List ℕ
  frequency_to_note_name freq_hz =
      let midi_float =
        d.add (d.lit (pos 69) 1)
          (d.mul (d.lit (pos 12) 1) (log2 (d.div freq_hz (d.lit (pos 440) 1)))) in
      let midi = d.to_int (round midi_float) in
      if d.le freq_hz (d.lit (pos 0) 1)
      then []
      else if ltb_ℤ midi (pos 0) || ltb_ℤ (pos 127) midi
      then []
      else midi_to_note_name midi
