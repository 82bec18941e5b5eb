-- ===== src/Debug/LogQueue/Contents.antt =====
-- The queue as a list of messages: `tryPush` appends, `popBatch` takes from the front.
use mathlib.Core.List.{map-append}
use phu_audio_lib.Base.{
  ℕ, zero, suc, ◌+◌, ◌-◌, ◌%◌, ◌≤◌, ◌<◌, min, ℤ, pos, negsuc, pos_part, min_ℤ, ◌≡◌, ◌≢◌, refl, sym,
  ap, ◌∙◌, ◌==◌, true, false, some, List, [], ◌∷◌, ◌++◌, map, length, length-set, length-append,
  length-take, length-drop, replicate, length-replicate, length-map, take, drop, set, get_elem?,
  get_or, arith,
}
use phu_audio_lib.Debug.LogQueue.{
  LogEntry, empty_entry, DebugLogEventQueue, empty_queue, num_slots, max_message_length, batch_size,
  clamped_length, fill_entry, push_at, try_push, pop_up_to, pop_batch,
}
use phu_audio_lib.Debug.LogQueue.Window.{
  window, window-set, length-window, distance, pop_loop_lem, window-distance,
}

-- An array of 256 bytes that nothing has been written past, with a length of at most 255 and a zero
-- behind the message.
pub record EntryIsValid (e : LogEntry) : Type 0 where
  pub size : length e.buffer ≡ max_message_length
  pub short : e.length < max_message_length
  pub ended : get_elem? e.buffer e.length ≡ some 0

abbrev pub AllRoom : List LogEntry → Type 0
AllRoom [] = Unit {0}
AllRoom (e ∷ es) = EntryIsValid e × AllRoom es

pub record IsValid (q : DebugLogEventQueue) : Type 0 where
  pub all_slots : length q.slots ≡ num_slots
  pub room : AllRoom q.slots
  pub write_in : q.write_head < num_slots
  pub read_in : q.read_head < num_slots

abbrev pub text : LogEntry → List ℕ
text e = take e.length e.buffer

-- The messages in the queue, oldest first.
abbrev pub contents : DebugLogEventQueue → List (List ℕ)
contents q = map text (window q.slots q.read_head (distance q.read_head q.write_head))

take-append_end {ℓ} : {A : Type ℓ} (n : ℕ) (xs ys : List A) → length xs ≡ n → take n (xs ++ ys) ≡ xs
take-append_end zero [] ys h = refl
take-append_end zero (x ∷ xs) ys h = absurd (omega (arith, h))
take-append_end (suc n) [] ys h = absurd (omega (arith, h))
take-append_end (suc n) (x ∷ xs) ys h = rw (take-append_end n xs ys (omega (arith, h)))

get_elem?-append_end {ℓ} :
    {A : Type ℓ} (n : ℕ) (xs : List A) (y : A) (ys : List A)
    → length xs ≡ n
    → get_elem? (xs ++ y ∷ ys) n ≡ some y
get_elem?-append_end zero [] y ys h = refl
get_elem?-append_end zero (x ∷ xs) y ys h = absurd (omega (arith, h))
get_elem?-append_end (suc n) [] y ys h = absurd (omega (arith, h))
get_elem?-append_end (suc n) (x ∷ xs) y ys h = get_elem?-append_end n xs y ys (omega (arith, h))

written-length : (utf8 : List ℕ) (n : ℕ) → n ≤ length utf8 → length (take n utf8) ≡ n
written-length utf8 n h = omega (arith, length-take n utf8)

pub text-fill_entry :
    (utf8 : List ℕ) (n : ℕ) (e : LogEntry)
    → n ≤ length utf8
    → text (fill_entry utf8 n e) ≡ take n utf8
text-fill_entry utf8 n e h = take-append_end n (take n utf8) _ (written-length utf8 n h)

-- A message with room for its zero is written within the array.
pub fill_entry-EntryIsValid :
    (utf8 : List ℕ) (n : ℕ) (e : LogEntry)
    → n ≤ length utf8
    → n < max_message_length
    → length e.buffer ≡ max_message_length
    → EntryIsValid (fill_entry utf8 n e)
fill_entry-EntryIsValid utf8 n e h f size = record {
  size = omega (
    arith,
    length-append (take n utf8) (0 ∷ drop (n + 1) e.buffer),
    written-length utf8 n h,
    length-drop (n + 1) e.buffer,
  );
  short = f;
  ended = get_elem?-append_end n (take n utf8) 0 _ (written-length utf8 n h);
}

empty_entry-EntryIsValid : EntryIsValid empty_entry
empty_entry-EntryIsValid = record { size = refl; short = omega arith; ended = refl }

slot-EntryIsValid :
    (es : List LogEntry) (i : ℕ) → AllRoom es → EntryIsValid (get_or es i empty_entry)
slot-EntryIsValid [] i r = empty_entry-EntryIsValid
slot-EntryIsValid (e ∷ es) zero r = r.0
slot-EntryIsValid (e ∷ es) (suc i) r = slot-EntryIsValid es i r.1

set-AllRoom :
    (es : List LogEntry) (i : ℕ) (e : LogEntry) → AllRoom es → EntryIsValid e → AllRoom (set es i e)
set-AllRoom [] i e r h = tt
set-AllRoom (x ∷ es) zero e r h = (h, r.1)
set-AllRoom (x ∷ es) (suc i) e r h = (r.0, set-AllRoom es i e r.1 h)

pub map-snoc {ℓ κ} :
    {A : Type ℓ} {B : Type κ} (f : A → B) (xs : List A) (x : A)
    → map f (xs ++ x ∷ []) ≡ map f xs ++ f x ∷ []
map-snoc f [] x = refl
map-snoc f (y ∷ xs) x = rw (map-snoc f xs x)

pub length-contents :
    (q : DebugLogEventQueue) → length (contents q) ≡ distance q.read_head q.write_head
length-contents q =
    length-map (window q.slots q.read_head (distance q.read_head q.write_head)) text
    ∙ length-window q.slots (distance q.read_head q.write_head) q.read_head

not_empty : (n : ℕ) → 0 < n → (n == 0) ≡ false
not_empty n h = ground arith

pop_up_to-window :
    {q : DebugLogEventQueue} (v : IsValid q) (limit : ℤ) (m : ℕ)
    → m ≡ min (pos_part limit) (distance q.read_head q.write_head)
    → pop_up_to limit q
      ≡ (window q.slots q.read_head m, record q { read_head = (q.read_head + m) % num_slots })
unfolding pop_up_to
pop_up_to-window {q} v (pos zero) zero e = ground (arith, v.read_in)
pop_up_to-window {q} v (pos zero) (suc m) e = absurd (omega arith)
pop_up_to-window {q} v (pos (suc n)) zero e = ground (arith, v.read_in, v.write_in)
pop_up_to-window {q} v (pos (suc n)) (suc m) e =
    ground
      (arith, pop_loop_lem (suc n) (suc m) q.read_head q.write_head q.slots v.read_in v.write_in)
pop_up_to-window {q} v (negsuc n) zero e = ground (arith, v.read_in)
pop_up_to-window {q} v (negsuc n) (suc m) e = absurd (omega arith)

limit_part :
    (out_size : ℕ) (max_items : ℤ)
    → pos_part (min_ℤ (min_ℤ max_items (pos batch_size)) (pos out_size))
      ≡ min (min (pos_part max_items) batch_size) out_size
limit_part out_size (pos n) = ground arith
limit_part out_size (negsuc n) = ground arith

-- The slot that the next message goes to.
abbrev pub slot : DebugLogEventQueue → LogEntry
slot q = get_or q.slots q.write_head empty_entry

module _ {q : DebugLogEventQueue} (v : IsValid q) (utf8 : List ℕ) (len : ℕ)
    (readable : len ≤ length utf8) where
  pub pushed-EntryIsValid : EntryIsValid (fill_entry utf8 (clamped_length len) (slot q))
  pushed-EntryIsValid =
      fill_entry-EntryIsValid utf8 (clamped_length len) (slot q) (omega arith) (omega arith)
        (slot-EntryIsValid q.slots q.write_head v.room).size

  pushed-text :
      text (fill_entry utf8 (clamped_length len) (slot q)) ≡ take (clamped_length len) utf8
  pushed-text = text-fill_entry utf8 (clamped_length len) (slot q) (omega arith)

  pub try_push-IsValid : IsValid (try_push (some utf8) len q).0
  unfolding try_push
  try_push-IsValid = ground (
    arith,
    length-set q.slots q.write_head (fill_entry utf8 (clamped_length len) (slot q)),
    set-AllRoom q.slots q.write_head (fill_entry utf8 (clamped_length len) (slot q)) v.room
        pushed-EntryIsValid,
  )

  pub next-ne :
      distance q.read_head q.write_head < num_slots - 1
      → (q.write_head + 1) % num_slots ≢ q.read_head
  next-ne h e = omega (arith, v.write_in, v.read_in)

  pub push_at-ok :
      distance q.read_head q.write_head < num_slots - 1
      → push_at q.write_head utf8 len q ≡ (
        record q {
          slots = set q.slots q.write_head (fill_entry utf8 (clamped_length len) (slot q));
          write_head = (q.write_head + 1) % num_slots;
        },
        true,
      )
  unfolding push_at
  push_at-ok h = ground (arith, next-ne h)

  pub window-pushed :
      (e : LogEntry)
      → distance q.read_head q.write_head < num_slots - 1
      → window
          (set q.slots q.write_head e)
          q.read_head
          (distance q.read_head ((q.write_head + 1) % num_slots))
        ≡ window q.slots q.read_head (distance q.read_head q.write_head) ++ e ∷ []
  window-pushed e h =
      let grows : distance q.read_head ((q.write_head + 1) % num_slots)
          ≡ suc (distance q.read_head q.write_head) =
        omega (arith, v.write_in, v.read_in) in
      rw grows (
        window-set q.slots e (distance q.read_head q.write_head) q.read_head q.write_head
          v.all_slots v.read_in (omega arith) (omega (arith, v.write_in, v.read_in)))

  -- A message of at least one byte is taken while fewer than 511 are waiting: its first 255 bytes then
  -- stand at the end of the queue.
  pub contents-try_push :
      0 < len
      → length (contents q) < num_slots - 1
      → ((try_push (some utf8) len q).1 ≡ true)
        × (contents (try_push (some utf8) len q).0 ≡ contents q ++ take (min len 255) utf8 ∷ [])
  unfolding try_push
  contents-try_push h room =
      let few : distance q.read_head q.write_head < num_slots - 1 =
        omega (arith, length-contents q) in
      rw (not_empty len h, push_at-ok few)
        (
          refl,
          ap (map text) (window-pushed _ few)
              ∙ map-snoc text (window q.slots q.read_head (distance q.read_head q.write_head)) _
              ∙ ap (λ t. contents q ++ t ∷ []) pushed-text,
        )

  -- With 511 messages waiting it is refused, and the queue stays as it was.
  pub try_push-full : length (contents q) ≡ num_slots - 1 → try_push (some utf8) len q ≡ (q, false)
  unfolding try_push push_at
  try_push-full full = ground (arith, length-contents q, v.write_in, v.read_in)

module _ {q : DebugLogEventQueue} (v : IsValid q) (out_size : ℕ) (max_items : ℤ) where
  -- How many messages `popBatch` takes: what is asked for, but not more than 32, than the span holds or than there are.
  abbrev pub taken : ℕ
  taken = min (min (min (pos_part max_items) batch_size) out_size) (length (contents q))

  pop_batch-window : pop_batch out_size max_items q ≡ (
    window q.slots q.read_head taken,
    record q { read_head = (q.read_head + taken) % num_slots },
  )
  unfolding pop_batch
  pop_batch-window =
      pop_up_to-window v (min_ℤ (min_ℤ max_items (pos batch_size)) (pos out_size)) taken
        (omega (arith, length-contents q, limit_part out_size max_items))

  -- `popBatch` returns the first messages of the queue and leaves the rest, in order: as many as asked for, but at most 32, as
  -- the output span holds, and as there are.
  pub contents-pop_batch :
      (map text (pop_batch out_size max_items q).0 ++ contents (pop_batch out_size max_items q).1
        ≡ contents q)
      × (length (pop_batch out_size max_items q).0 ≡ taken)
  contents-pop_batch = rw pop_batch-window (
    sym (map-append text (window q.slots q.read_head taken) _)
        ∙ ap (map text) (
            window-distance q.slots taken q.read_head q.write_head v.read_in v.write_in
              (omega (arith, length-contents q))),
    length-window q.slots taken q.read_head,
  )

  pub pop_batch-IsValid : IsValid (pop_batch out_size max_items q).1
  pop_batch-IsValid = rw pop_batch-window (record {
    all_slots = v.all_slots;
    room = v.room;
    write_in = v.write_in;
    read_in = omega arith;
  })

replicate-AllRoom : (n : ℕ) → AllRoom (replicate n empty_entry)
replicate-AllRoom zero = tt
replicate-AllRoom (suc n) = (empty_entry-EntryIsValid, replicate-AllRoom n)

pub empty_queue-IsValid : IsValid empty_queue
empty_queue-IsValid = record {
  all_slots = length-replicate num_slots empty_entry;
  room = replicate-AllRoom num_slots;
  write_in = omega arith;
  read_in = omega arith;
}

-- The calls of one producer and the consumer.
pub data Call : Type 0 where
  pushes : List ℕ → Call
  pops : ℕ → ℤ → Call

-- A run of calls, none of which another interrupts.
pub run_calls : List Call → DebugLogEventQueue → DebugLogEventQueue
run_calls [] q = q
run_calls (pushes msg ∷ cs) q = run_calls cs (try_push (some msg) (length msg) q).0
run_calls (pops out_size max_items ∷ cs) q = run_calls cs (pop_batch out_size max_items q).1

-- Uninterrupted calls keep a queue valid: both heads are indices of the 512 slots, and in every slot nothing is ever
-- written past the 256 bytes of its array, the length is at most 255 and a zero stands behind the message.
pub run_calls-IsValid :
    (cs : List Call) (q : DebugLogEventQueue) → IsValid q → IsValid (run_calls cs q)
unfolding run_calls
run_calls-IsValid [] q v = v
run_calls-IsValid (pushes msg ∷ cs) q v =
    run_calls-IsValid cs _ (try_push-IsValid v msg (length msg) (omega arith))
run_calls-IsValid (pops out_size max_items ∷ cs) q v =
    run_calls-IsValid cs _ (pop_batch-IsValid v out_size max_items)
