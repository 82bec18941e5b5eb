-- ===== src/Debug/LogQueue/Races.antt =====
-- The queue with several producers, and what EditorLogger counts as dropped.
use phu_audio_lib.Base.{
  ℕ, zero, suc, ◌+◌, ◌-◌, ◌%◌, ◌^◌, ◌<◌, min, ◌≡◌, refl, ap, ◌∙◌, true, Bool, List, [], ◌∷◌, ◌++◌,
  map, length, take, set, set-set, arith,
}
use phu_audio_lib.Debug.LogQueue.{
  LogEntry, empty_entry, DebugLogEventQueue, EditorLogger, num_slots, clamped_length, fill_entry,
  push_at, try_push, log_message,
}
use phu_audio_lib.Debug.LogQueue.Window.{distance, window, get_or-set_self}
use phu_audio_lib.Debug.LogQueue.Contents.{
  IsValid, contents, length-contents, text, text-fill_entry, map-snoc, slot, next-ne, push_at-ok,
  window-pushed, contents-try_push,
}

-- Two producers that load the write head one after the other, and then each carry out the rest of
-- `tryPush`: the queue that they leave, and what they return.
pub race : List ℕ → List ℕ → DebugLogEventQueue → DebugLogEventQueue × Bool × Bool
unfolding push_at
race msg1 msg2 q =
    let loaded1 = q.write_head in
    let loaded2 = q.write_head in
    let (q1, done1) = push_at loaded1 msg1 (length msg1) q in
    let (q2, done2) = push_at loaded2 msg2 (length msg2) q1 in (q2, done1, done2)

take-min {ℓ} : {A : Type ℓ} (n : ℕ) (xs : List A) → take (min (length xs) n) xs ≡ take n xs
take-min zero xs = let e : min (length xs) 0 ≡ 0 = omega arith in rw e
take-min (suc n) [] = let e : min 0 (suc n) ≡ 0 = omega arith in rw e
take-min (suc n) (x ∷ xs) =
    let e : min (suc (length xs)) (suc n) ≡ suc (min (length xs) n) = omega arith in
    rw (e, take-min n xs)

module _ {q : DebugLogEventQueue} (v : IsValid q) (msg1 msg2 : List ℕ) where
  second_push :
      (e1 : LogEntry)
      → distance q.read_head q.write_head < num_slots - 1
      → push_at q.write_head msg2 (length msg2) (record q {
        slots = set q.slots q.write_head e1;
        write_head = (q.write_head + 1) % num_slots;
      })
        ≡ (
          record q {
            slots = set q.slots q.write_head (fill_entry msg2 (clamped_length (length msg2)) e1);
            write_head = (q.write_head + 1) % num_slots;
          },
          true,
        )
  unfolding push_at
  second_push e1 few = ground (
    arith,
    next-ne v msg2 (length msg2) (omega arith) few,
    get_or-set_self q.slots q.write_head e1 empty_entry (omega (arith, v.all_slots, v.write_in)),
    set-set q.slots q.write_head e1 (fill_entry msg2 (clamped_length (length msg2)) e1),
  )

  -- Where two producers load the same write head of a valid queue with a free slot, both report success, but
  -- the first message is nowhere in the queue.
  pub race-loses :
      length (contents q) < num_slots - 1
      → ((race msg1 msg2 q).1 ≡ true)
        × ((race msg1 msg2 q).2 ≡ true)
        × (contents (race msg1 msg2 q).0 ≡ contents q ++ take (min (length msg2) 255) msg2 ∷ [])
  unfolding race
  race-loses room =
      let few : distance q.read_head q.write_head < num_slots - 1 =
        omega (arith, length-contents q) in
      let e1 = fill_entry msg1 (clamped_length (length msg1)) (slot q) in
      let e2 = fill_entry msg2 (clamped_length (length msg2)) e1 in
      rw (push_at-ok v msg1 (length msg1) (omega arith) few, second_push e1 few)
        (
          refl,
          refl,
          ap (map text) (window-pushed v msg2 (length msg2) (omega arith) e2 few)
              ∙ map-snoc text (window q.slots q.read_head (distance q.read_head q.write_head)) e2
              ∙ ap (λ t. contents q ++ t ∷ [])
                  (text-fill_entry msg2 (clamped_length (length msg2)) e1 (omega arith)),
        )

-- `logMessage` hands a message of 1 to 65535 bytes to the queue. While fewer than 511 are waiting its first 255 bytes stand at
-- the end of the queue afterwards, and the counter of the dropped ones stays.
pub log_message-taken :
    (l : EditorLogger) (msg : List ℕ)
    → IsValid l.queue
    → 0 < length msg
    → length msg < 2 ^ 16
    → length (contents l.queue) < num_slots - 1
    → (contents (log_message msg l).queue ≡ contents l.queue ++ take 255 msg ∷ [])
      × ((log_message msg l).dropped_messages ≡ l.dropped_messages)
unfolding log_message
log_message-taken l msg v h f room =
    let same : length msg % 2 ^ 16 ≡ length msg = omega arith in
    let (done, now) = contents-try_push v msg (length msg) (omega arith) h room in
    rw (same, done) (now ∙ ap (λ t. contents l.queue ++ t ∷ []) (take-min 255 msg), refl)

-- A message whose number of bytes is a multiple of 65536, the empty one included, is counted as dropped
-- and not queued, however many slots are free.
pub log_message-multiple :
    (l : EditorLogger) (msg : List ℕ)
    → length msg % 2 ^ 16 ≡ 0
    → log_message msg l ≡ record l { dropped_messages = (l.dropped_messages + 1) % 2 ^ 32 }
unfolding log_message try_push
log_message-multiple l msg e = ground arith
