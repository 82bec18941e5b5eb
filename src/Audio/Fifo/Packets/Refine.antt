-- ===== src/Audio/Fifo/Packets/Refine.antt =====
-- audio/PacketFifo.h as a bounded queue.
use phu_audio_lib.Base.{
  ℕ, zero, suc, ◌+◌, ◌-◌, ◌<◌, ◌≡◌, ◌≢◌, refl, sym, ap, subst, arith, ◌∙◌, ltb, ◌==◌, Bool, true,
  false, Bool-cases, ◌⊎◌, inl, inr, List, [], ◌∷◌, ◌++◌, length, get_or, set, take, drop,
  length-replicate, All, length-set, length-map, get_or-set, if◌then◌else◌,
}
use mathlib.Core.List.{append-nil}
use phu_audio_lib.Audio.Fifo.{AbstractFifo, Blocks, FifoLaws, block_size, places, span}
use phu_audio_lib.Audio.Fifo.Laws.{
  read_at, read_at-append, read_at-set, get_or-inside, length-places,
}
use phu_audio_lib.Audio.Fifo.Packets.{PacketFifo, slot_of, new_fifo, reset, push, pull}

one_place : (b : Blocks) → block_size b ≡ 1 → places b ≡ slot_of b ∷ []
one_place b h = of_sizes b.start_index1 b.block_size1 b.start_index2 b.block_size2 h
  where
    of_sizes : (i m j n : ℕ) → m + n ≡ 1 → span i m ++ span j n ≡ (if ltb 0 m then i else j) ∷ []
    of_sizes i zero j zero h = absurd (omega (arith, h))
    of_sizes i zero j (suc zero) h = refl
    of_sizes i zero j (suc (suc n)) h = absurd (omega (arith, h))
    of_sizes i (suc zero) j zero h = refl
    of_sizes i (suc zero) j (suc n) h = absurd (omega (arith, h))
    of_sizes i (suc (suc m)) j n h = absurd (omega (arith, h))

no_place : (b : Blocks) → block_size b ≡ 0 → places b ≡ []
no_place b h = of_sizes b.start_index1 b.block_size1 b.start_index2 b.block_size2 h
  where
    of_sizes : (i m j n : ℕ) → m + n ≡ 0 → span i m ++ span j n ≡ []
    of_sizes i zero j zero h = refl
    of_sizes i zero j (suc n) h = absurd (omega (arith, h))
    of_sizes i (suc m) j n h = absurd (omega (arith, h))

List-cases {ℓ} : {A : Type ℓ} (xs : List A) → (xs ≡ []) ⊎ ((x : A) × (ys : List A) × (xs ≡ x ∷ ys))
List-cases [] = inl refl
List-cases (x ∷ xs) = inr (x, xs, refl)

only_ne :
    (slot : ℕ) (is : List ℕ) → All (λ i. All (λ j. i ≢ j) (slot ∷ [])) is → All (λ i. i ≢ slot) is
only_ne slot [] h = tt
only_ne slot (i ∷ is) h = (h.0.0, only_ne slot is h.1)

module _ (P : Type 0) where
  pub data Call : Type 0 where
    push_call : P → Call
    pull_call : P → Call
    reset_call : Call

  pub data Answer : Type 0 where
    pushed : Bool → Answer
    pulled : P → Bool → Answer
    done : Answer

  -- A queue of at most `bound` packets.
  abbrev pub spec_step : ℕ → Call → List P → List P × Answer
  spec_step bound (push_call p) q =
      if ltb (length q) bound then (q ++ p ∷ [], pushed true) else (q, pushed false)
  spec_step bound (pull_call out) [] = ([], pulled out false)
  spec_step bound (pull_call out) (p ∷ q) = (q, pulled p true)
  spec_step bound reset_call q = ([], done)

  abbrev pub spec_run : ℕ → List Call → List P → List Answer
  spec_run bound [] q = []
  spec_run bound (call ∷ calls) q =
      (spec_step bound call q).1 ∷ spec_run bound calls (spec_step bound call q).0

module _ (fifo : AbstractFifo) (ready : fifo.State → List ℕ) (laws : FifoLaws fifo ready)
    {P : Type 0} (default : P) where
  -- The packets that were pushed and not yet pulled, the oldest first.
  abbrev pub contents : PacketFifo fifo P → List P
  contents f = read_at default f.pool (ready f.indices)

  step : Call P → PacketFifo fifo P → PacketFifo fifo P × Answer P
  step (push_call p) f = let (f', ok) = push fifo P p f in (f', pushed ok)
  step (pull_call out) f = let (f', p, ok) = pull fifo P out f in (f', pulled p ok)
  step reset_call f = (reset fifo P f, done)

  abbrev Sized : PacketFifo fifo P → Type 0
  Sized f = length f.pool ≡ fifo.total_size

  -- One step keeps the pool, and its answer and the packets behind it are those of the queue.
  record Refines (call : Call P) (f : PacketFifo fifo P) : Type 0 where
    sized : Sized (step call f).0
    same_contents :
        contents (step call f).0 ≡ (spec_step P (fifo.total_size - 1) call (contents f)).0
    same_answer : (step call f).1 ≡ (spec_step P (fifo.total_size - 1) call (contents f)).1

  -- The packet at the slot behind the others.
  written_contents :
      (pool : List P) (slot : ℕ) (p : P) (is : List ℕ)
      → slot < length pool
      → All (λ i. i ≢ slot) is
      → read_at default (set pool slot p) (is ++ slot ∷ []) ≡ read_at default pool is ++ p ∷ []
  written_contents pool slot p is inside apart =
      let self : get_or (set pool slot p) slot default ≡ p =
        get_or-set pool slot slot p default inside ∙ ground arith in
      rw
        (
          read_at-append default (set pool slot p) is (slot ∷ []),
          read_at-set default pool slot p is inside apart,
          self,
        )
        refl

  push-Refines : (p : P) (f : PacketFifo fifo P) → Sized f → Refines (push_call p) f
  unfolding step push
  push-Refines p f h =
      let s = f.indices in
      let scope = fifo.prepare_to_write s 1 in
      let size = laws.write_size s 1 in
      let written = laws.write_ready s 1 in
      let counted : length (contents f) ≡ length (ready s) =
        length-map (ready s) (λ i. get_or f.pool i default) in
      elim (Bool-cases (block_size scope == 0)) [
        | inl full ↦
            let none_there : block_size scope ≡ 0 = ground arith in
            let same : ready (fifo.finished_write s (block_size scope)) ≡ ready s ++ [] =
              written ∙ ap (λ js. ready s ++ js) (no_place scope none_there) in
            let over : ltb (length (contents f)) (fifo.total_size - 1) ≡ false =
              ground (arith, laws.ready_bound s) in
            record {
              sized = rw full h;
              same_contents =
                  rw (full, over) (ap (read_at default f.pool) (same ∙ append-nil (ready s)));
              same_answer = rw (full, over) refl;
            }
        | inr free ↦
            let one_there : block_size scope ≡ 1 = ground arith in
            let slot = slot_of scope in
            let only = one_place scope one_there in
            let apart : All (λ i. i ≢ slot) (ready s) =
              only_ne slot (ready s) (
                subst (λ js. All (λ i. All (λ j. i ≢ j) js) (ready s)) only
                  (laws.write_free s 1)) in
            let inside : slot < length f.pool =
              ground (arith, laws.write_inside1 s 1, laws.write_inside2 s 1, laws.ready_bound s) in
            let same : ready (fifo.finished_write s (block_size scope)) ≡ ready s ++ slot ∷ [] =
              written ∙ ap (λ js. ready s ++ js) only in
            let under : ltb (length (contents f)) (fifo.total_size - 1) ≡ true =
              ground (arith, laws.ready_bound s) in
            record {
              sized = rw free (length-set f.pool slot p ∙ h);
              same_contents =
                  rw (free, under)
                    (ap (read_at default (set f.pool slot p)) same
                      ∙ written_contents f.pool slot p (ready s) inside apart);
              same_answer = rw (free, under) refl;
            }
      ]

  pull-Refines : (out : P) (f : PacketFifo fifo P) → Sized f → Refines (pull_call out) f
  unfolding step pull
  pull-Refines out f h =
      let s = f.indices in
      let scope = fifo.prepare_to_read s 1 in
      let here = laws.read_places s 1 in
      let left = laws.read_ready s 1 in
      elim (List-cases (ready s)) [
        | inl nothing ↦
            let none_there : block_size scope ≡ 0 =
              sym (length-places scope) ∙ ap length (here ∙ ap (take 1) nothing) in
            let empty : (block_size scope == 0) ≡ true = ground arith in
            let same : ready (fifo.finished_read s (block_size scope)) ≡ [] =
              left ∙ ap (drop 1) nothing in
            record {
              sized = rw empty h;
              same_contents = rw (empty, same, nothing) refl;
              same_answer = rw (empty, nothing) refl;
            }
        | inr (i, is, some_there) ↦
            let only : places scope ≡ i ∷ [] = here ∙ ap (take 1) some_there in
            let one_there : block_size scope ≡ 1 = sym (length-places scope) ∙ ap length only in
            let filled : (block_size scope == 0) ≡ false = ground arith in
            let slot : slot_of scope ≡ i = cc (one_place scope one_there, only) in
            let same : ready (fifo.finished_read s (block_size scope)) ≡ is =
              left ∙ ap (drop 1) some_there in
            let inside : All (λ k. k < fifo.total_size) (i ∷ is) =
              subst (All (λ k. k < fifo.total_size)) some_there (laws.ready_inside s) in
            record {
              sized = rw filled h;
              same_contents = rw (filled, same, some_there) refl;
              same_answer =
                  rw (filled, some_there, slot)
                    (ap (λ (q : P). Answer.pulled q true)
                      (get_or-inside f.pool i out default (omega (arith, inside.0, h))));
            }
      ]

  step-Refines : (call : Call P) (f : PacketFifo fifo P) → Sized f → Refines call f
  unfolding step reset
  step-Refines (push_call p) f h = push-Refines p f h
  step-Refines (pull_call out) f h = pull-Refines out f h
  step-Refines reset_call f h = record {
    sized = h;
    same_contents = rw (laws.reset_ready f.indices) refl;
    same_answer = refl;
  }

  pub run : List (Call P) → PacketFifo fifo P → List (Answer P)
  run [] f = []
  run (call ∷ calls) f = (step call f).1 ∷ run calls (step call f).0

  run-Refines :
      (calls : List (Call P)) (f : PacketFifo fifo P)
      → Sized f
      → run calls f ≡ spec_run P (fifo.total_size - 1) calls (contents f)
  unfolding run
  run-Refines [] f h = refl
  run-Refines (call ∷ calls) f h =
      let r = step-Refines call f h in
      rw (r.same_answer, run-Refines calls (step call f).0 r.sized, r.same_contents) refl

  -- A new fifo of `PoolSlots` slots answers every sequence of calls of push, pull and reset as a queue of
  -- at most `PoolSlots - 1` packets does: a push into a full queue is refused, a pull gives the oldest
  -- packet, or leaves its argument where there is none.
  pub run_as_queue :
      (packet : P) (calls : List (Call P))
      → run calls (new_fifo fifo P packet) ≡ spec_run P (fifo.total_size - 1) calls []
  unfolding new_fifo
  run_as_queue packet calls =
      run-Refines calls (new_fifo fifo P packet) (length-replicate fifo.total_size packet)
      ∙ ap
          (λ js.
            spec_run P (fifo.total_size - 1) calls
              (read_at default (new_fifo fifo P packet).pool js))
          laws.initial_ready
