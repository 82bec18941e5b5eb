-- ===== src/Debug/LogQueue/Tests.antt =====
-- The log queue at concrete messages.
use phu_audio_lib.Base.{ℕ, ◌≡◌, pos, true, none, some, List, [], ◌∷◌, ◌++◌, map, length, arith}
use phu_audio_lib.Debug.LogQueue.{
  DebugLogEventQueue, empty_queue, EditorLogger, try_push, pop_batch,
}
use phu_audio_lib.Debug.LogQueue.Contents.{
  IsValid, empty_queue-IsValid, contents, text, taken, try_push-IsValid, contents-try_push,
  contents-pop_batch, pushes, pops, run_calls, run_calls-IsValid,
}
use phu_audio_lib.Debug.LogQueue.Races.{race, race-loses}

abbrev hello : List ℕ
hello = b'h' ∷ b'i' ∷ []

abbrev bye : List ℕ
bye = b'b' ∷ b'y' ∷ b'e' ∷ []

abbrev logger : EditorLogger
logger = record { queue = empty_queue; sink = none; dropped_messages = 7 }

contents-try_push_example :
    ((try_push (some hello) 2 empty_queue).1 ≡ true)
    × (contents (try_push (some hello) 2 empty_queue).0 ≡ hello ∷ [])
contents-try_push_example =
    contents-try_push empty_queue-IsValid hello 2 (omega arith) (omega arith) (omega arith)

abbrev one_waiting : DebugLogEventQueue
one_waiting = (try_push (some hello) 2 empty_queue).0

one_waiting-IsValid : IsValid one_waiting
one_waiting-IsValid = try_push-IsValid empty_queue-IsValid hello 2 (omega arith)

contents-pop_batch_example :
    (map text (pop_batch 32 (pos 8) one_waiting).0 ++ contents (pop_batch 32 (pos 8) one_waiting).1
      ≡ contents one_waiting)
    × (length (pop_batch 32 (pos 8) one_waiting).0 ≡ taken one_waiting-IsValid 32 (pos 8))
contents-pop_batch_example = contents-pop_batch one_waiting-IsValid 32 (pos 8)

run_calls-IsValid_example :
    IsValid (run_calls (pushes hello ∷ pushes bye ∷ pops 32 (pos 1) ∷ []) empty_queue)
run_calls-IsValid_example =
    run_calls-IsValid (pushes hello ∷ pushes bye ∷ pops 32 (pos 1) ∷ []) empty_queue
      empty_queue-IsValid

race-loses_example :
    ((race hello bye empty_queue).1 ≡ true)
    × ((race hello bye empty_queue).2 ≡ true)
    × (contents (race hello bye empty_queue).0 ≡ bye ∷ [])
race-loses_example = race-loses empty_queue-IsValid hello bye (omega arith)
