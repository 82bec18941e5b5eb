-- ===== src/Events/SyncGlobals/Tests.antt =====
-- A host that starts to play, with integers in place of doubles.
use phu_audio_lib.Base.{◌≡◌, refl, pos, true, some, none, [], ◌∷◌}
use phu_audio_lib.Double.Integers.{integers}
use phu_audio_lib.Events.SyncGlobals.{PositionInfo, add_event_listener, remove_event_listener}

abbrev plays : PositionInfo integers
plays = record { bpm = some (pos 120); ppq_position = none; is_playing = true }

registers_once : add_event_listener (some 4) (add_event_listener (some 4) []) ≡ 4 ∷ []
unfolding add_event_listener
registers_once = refl

removes_first : remove_event_listener 4 (3 ∷ 4 ∷ 5 ∷ []) ≡ (3 ∷ 5 ∷ [], true)
unfolding remove_event_listener
removes_first = refl
