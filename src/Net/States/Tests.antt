-- ===== src/Net/States/Tests.antt =====
-- Maps of remote states and text fields at concrete values.
use phu_audio_lib.Base.{ℕ, ◌≡◌, Bool, none, [], ◌∷◌, map, ltb, arith}
use phu_audio_lib.Net.States.{StateMap, find, get_remote_states}
use phu_audio_lib.Net.States.Laws.{Rising, get_remote_states_lem}
use phu_audio_lib.Net.Text.{string_of, safe_strncpy, string_of-safe_strncpy}

abbrev three_states : StateMap ℕ
three_states = (2, 100) ∷ (5, 900) ∷ (9, 300) ∷ []

abbrev is_old : ℕ → Bool
is_old seen = ltb seen 200

two_are_left :
    let (out, left) = get_remote_states is_old three_states in
    (find 2 left ≡ none) × (out ≡ map (λ e. e.1) left) × Rising 0 left
unfolding find
two_are_left =
    get_remote_states_lem is_old three_states 2 (omega arith, (omega arith, (omega arith, tt)))

cut_to_two :
    string_of (safe_strncpy (9 ∷ 9 ∷ 9 ∷ 9 ∷ []) (b'a' ∷ b'b' ∷ b'c' ∷ []) 3) ≡ b'a' ∷ b'b' ∷ []
cut_to_two =
    string_of-safe_strncpy (9 ∷ 9 ∷ 9 ∷ 9 ∷ []) (b'a' ∷ b'b' ∷ b'c' ∷ []) 3 (omega arith)
      (omega arith) (λ e. omega (arith, e), (λ e. omega (arith, e), (λ e. omega (arith, e), tt)))
