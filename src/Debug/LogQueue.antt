-- ===== src/Debug/LogQueue.antt =====
-- debug/DebugLogEventQueue.h and debug/EditorLogger.{h,cpp}. A method runs without interruption here;
-- `Races` takes `tryPush` apart at its first load, where another producer can come between.
pub mod Window
pub mod Contents
pub mod Races
mod Tests
use phu_audio_lib.Base.{
  ℕ, zero, suc, ◌+◌, ◌-◌, ◌%◌, ◌^◌, min, ℤ, pos, pos_part, min_ℤ, leb_ℤ, ◌==◌, Bool, true, false,
  Option, none, some, List, [], ◌∷◌, length, get_or, set, take, drop, ◌++◌, replicate,
  if◌then◌else◌,
}

abbrev pub num_slots : ℕ
num_slots = 512

abbrev pub max_message_length : ℕ
max_message_length = 256

abbrev pub batch_size : ℕ
batch_size = 32

-- `buffer` holds the bytes.
pub record LogEntry : Type 0 where
  pub buffer : List ℕ
  pub length : ℕ

abbrev pub empty_entry : LogEntry
empty_entry = record { buffer = replicate max_message_length 0; length = 0 }

-- The heads are indices, which are never negative.
pub record DebugLogEventQueue : Type 0 where
  pub slots : List LogEntry
  pub write_head : ℕ
  pub read_head : ℕ

abbrev pub empty_queue : DebugLogEventQueue
empty_queue = record { slots = replicate num_slots empty_entry; write_head = 0; read_head = 0 }

-- What `tryPush` writes to a slot: `memcpy` of the bytes, and the terminating zero behind them. Nothing is cut
-- at the end of the array: bytes written past it make the list longer than the array is.
abbrev pub fill_entry : List ℕ → ℕ → LogEntry → LogEntry
fill_entry utf8 actual e = record {
  buffer = take actual utf8 ++ 0 ∷ drop (actual + 1) e.buffer;
  length = actual;
}

abbrev pub clamped_length : ℕ → ℕ
clamped_length len = min len (max_message_length - 1)

-- `tryPush` behind the load of the write head, which has given `write_idx`.
pub push_at : ℕ → List ℕ → ℕ → DebugLogEventQueue → DebugLogEventQueue × Bool
push_at write_idx utf8 len q =
    let next_write = (write_idx + 1) % num_slots in
    let slot = get_or q.slots write_idx empty_entry in
    if next_write == q.read_head then (q, false) else (
      record q {
        slots = set q.slots write_idx (fill_entry utf8 (clamped_length len) slot);
        write_head = next_write;
      },
      true,
    )

-- A null pointer is `none`.
pub try_push : Option (List ℕ) → ℕ → DebugLogEventQueue → DebugLogEventQueue × Bool
unfolding push_at
try_push none len q = (q, false)
try_push (some utf8) len q = if len == 0 then (q, false) else push_at q.write_head utf8 len q

-- The loop of `popBatch`: the entries that it copies out, and the read index behind them.
pub pop_loop : ℕ → ℕ → ℕ → List LogEntry → List LogEntry × ℕ
pop_loop zero read_idx write_idx slots = ([], read_idx)
pop_loop (suc k) read_idx write_idx slots =
    let rest = pop_loop k ((read_idx + 1) % num_slots) write_idx slots in
    if read_idx == write_idx
    then ([], read_idx)
    else (get_or slots read_idx empty_entry ∷ rest.0, rest.1)

-- `popBatch` behind the two clampings of `maxItems`.
pub pop_up_to : ℤ → DebugLogEventQueue → List LogEntry × DebugLogEventQueue
unfolding pop_loop
pop_up_to limit q =
    let (popped, read_idx) = pop_loop (pos_part limit) q.read_head q.write_head q.slots in
    if leb_ℤ limit (pos 0)
    then ([], q)
    else if q.read_head == q.write_head
    then ([], q)
    else (popped, record q { read_head = read_idx })

-- `out_size` is the size of the output span. The entries returned are those copied into it.
pub pop_batch : ℕ → ℤ → DebugLogEventQueue → List LogEntry × DebugLogEventQueue
unfolding pop_up_to
pop_batch out_size max_items q =
    pop_up_to (min_ℤ (min_ℤ max_items (pos batch_size)) (pos out_size)) q

pub has_pending : DebugLogEventQueue → Bool
has_pending q = if q.read_head == q.write_head then false else true

-- The numerator of `getApproximateFillRatio`, whose denominator is `num_slots`.
pub used_slots : DebugLogEventQueue → ℕ
used_slots q = (q.write_head + num_slots - q.read_head) % num_slots

-- A sink is an object of the user interface, known by its address.
pub record EditorLogger : Type 0 where
  pub queue : DebugLogEventQueue
  pub sink : Option ℕ
  pub dropped_messages : ℕ

pub set_sink : Option ℕ → EditorLogger → EditorLogger
set_sink s l = record l { sink = s }

-- `strlen` gives the number of the bytes, the cast to `uint16_t` its remainder; the counter wraps.
pub log_message : List ℕ → EditorLogger → EditorLogger
unfolding try_push
log_message utf8 l =
    let (q, done) = try_push (some utf8) (length utf8 % 2 ^ 16) l.queue in
    record l {
      queue = q;
      dropped_messages = if done then l.dropped_messages else (l.dropped_messages + 1) % 2 ^ 32;
    }

pub get_queue_batch : ℕ → ℤ → EditorLogger → List LogEntry × EditorLogger
unfolding pop_batch
get_queue_batch out_size max_items l =
    let (popped, q) = pop_batch out_size max_items l.queue in (popped, record l { queue = q })

pub reset_dropped_message_count : EditorLogger → EditorLogger
reset_dropped_message_count l = record l { dropped_messages = 0 }
