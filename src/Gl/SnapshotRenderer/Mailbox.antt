-- ===== src/Gl/SnapshotRenderer/Mailbox.antt =====
-- gl/GLSnapshotRenderer.h as a mailbox of one snapshot.
use phu_audio_lib.Base.{
  ◌≡◌, refl, ap, ◌∙◌, Bool, true, false, Option, none, some, List, [], ◌∷◌, ◌++◌, All,
  if◌then◌else◌,
}
use phu_audio_lib.Gl.SnapshotRenderer.{
  Renderer, swap_snapshot, get_render_snapshot, Call, swapped, cleared, posted, call, run,
}

module _ (Snapshot : Type 0) where
  -- The snapshot that waits, and the one that is shown.
  abbrev pub Mailbox : Type 0
  Mailbox = Option Snapshot × Snapshot

  abbrev pub shown_next : Mailbox → Snapshot
  shown_next (none, shown) = shown
  shown_next (some waiting, shown) = waiting

  abbrev pub deliver : Call Snapshot → Mailbox → Mailbox
  deliver swapped m = (none, shown_next m)
  deliver cleared m = (none, m.1)
  deliver (posted snapshot) m = (some snapshot, m.1)

  abbrev pub deliver_all : List (Call Snapshot) → Mailbox → Mailbox
  deliver_all [] m = m
  deliver_all (c ∷ calls) m = deliver_all calls (deliver c m)

  abbrev pub view : Renderer Snapshot → Mailbox
  view r = (if r.new_data then some r.pending else none, r.render)

  swapped_view :
      (pending render : Snapshot) (new_data : Bool)
      → let r : Renderer Snapshot = record {
        pending = pending;
        render = render;
        new_data = new_data;
      } in
        view (swap_snapshot Snapshot r).0 ≡ (none, shown_next (view r))
  unfolding swap_snapshot
  swapped_view pending render true = refl
  swapped_view pending render false = refl

  call-deliver :
      (c : Call Snapshot) (r : Renderer Snapshot) → view (call Snapshot c r) ≡ deliver c (view r)
  unfolding call
  call-deliver swapped r = swapped_view r.pending r.render r.new_data
  call-deliver cleared r = refl
  call-deliver (posted snapshot) r = refl

  -- Over any history a renderer holds what the mailbox holds.
  pub run-deliver_all :
      (calls : List (Call Snapshot)) (r : Renderer Snapshot)
      → view (run Snapshot calls r) ≡ deliver_all calls (view r)
  unfolding run
  run-deliver_all [] r = refl
  run-deliver_all (c ∷ calls) r =
      run-deliver_all calls (call Snapshot c r) ∙ ap (deliver_all calls) (call-deliver c r)

  -- A call that posts nothing.
  abbrev pub PostsNothing : Call Snapshot → Type 0
  PostsNothing swapped = Unit
  PostsNothing cleared = Unit
  PostsNothing (posted snapshot) = ⊥

  stays :
      (calls : List (Call Snapshot)) (shown : Snapshot)
      → All PostsNothing calls
      → deliver_all calls (none, shown) ≡ (none, shown)
  stays [] shown h = refl
  stays (swapped ∷ calls) shown h = stays calls shown h.1
  stays (cleared ∷ calls) shown h = stays calls shown h.1
  stays (posted snapshot ∷ calls) shown h = absurd h.0

  -- Whatever came before, a snapshot that is set is rendered after the next swap, and still after any
  -- calls that set none.
  pub run-posted :
      (before after : List (Call Snapshot)) (snapshot : Snapshot) (r : Renderer Snapshot)
      → All PostsNothing after
      → get_render_snapshot Snapshot (run Snapshot (before ++ posted snapshot ∷ swapped ∷ after) r)
        ≡ snapshot
  unfolding get_render_snapshot
  run-posted before after snapshot r h =
      ap (λ (m : Mailbox). m.1)
        (run-deliver_all (before ++ posted snapshot ∷ swapped ∷ after) r
          ∙ posted_last before (view r))
    where
      posted_last :
          (before : List (Call Snapshot)) (m : Mailbox)
          → deliver_all (before ++ posted snapshot ∷ swapped ∷ after) m ≡ (none, snapshot)
      posted_last [] m = stays after snapshot h
      posted_last (c ∷ before) m = posted_last before (deliver c m)
