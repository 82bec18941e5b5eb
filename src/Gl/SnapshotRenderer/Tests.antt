-- ===== src/Gl/SnapshotRenderer/Tests.antt =====
-- gl/GLSnapshotRenderer.h with numbers as snapshots.
use phu_audio_lib.Base.{ℕ, ◌≡◌, refl, List, [], ◌∷◌, ◌++◌, true, false}
use phu_audio_lib.Gl.SnapshotRenderer.{
  new_renderer, swap_snapshot, set_snapshot, get_render_snapshot, Call, swapped, cleared, posted,
  run,
}
use phu_audio_lib.Gl.SnapshotRenderer.Mailbox.{view, deliver_all, run-deliver_all, run-posted}

abbrev history : List (Call ℕ)
history = posted 3 ∷ posted 4 ∷ cleared ∷ swapped ∷ []

abbrev pause : List (Call ℕ)
pause = swapped ∷ cleared ∷ swapped ∷ []

latest :
    swap_snapshot ℕ (set_snapshot ℕ 4 (set_snapshot ℕ 3 (new_renderer ℕ 0)))
    ≡ (record { pending = 4; render = 4; new_data = false }, true)
unfolding swap_snapshot set_snapshot new_renderer
latest = refl

history_delivered :
    view ℕ (run ℕ history (new_renderer ℕ 0)) ≡ deliver_all ℕ history (view ℕ (new_renderer ℕ 0))
history_delivered = run-deliver_all ℕ history (new_renderer ℕ 0)

run-posted_example :
    get_render_snapshot ℕ (run ℕ (history ++ posted 7 ∷ swapped ∷ pause) (new_renderer ℕ 0)) ≡ 7
run-posted_example = run-posted ℕ history pause 7 (new_renderer ℕ 0) (tt, (tt, (tt, tt)))
