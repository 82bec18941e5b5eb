-- ===== src/Gl/SnapshotRenderer.antt =====
-- gl/GLSnapshotRenderer.h. Each method holds the spin lock and is one step. A snapshot that is moved
-- in is taken as one that is copied in; what is left of the argument is not modelled.
pub mod Mailbox
mod Tests
use phu_audio_lib.Base.{Bool, true, false, List, [], ◌∷◌, if◌then◌else◌}

module _ (Snapshot : Type 0) where
  pub record Renderer : Type 0 where
    pub pending : Snapshot
    pub render : Snapshot
    pub new_data : Bool

  -- The members as the constructor of the snapshot leaves them.
  unfoldable pub new_renderer : Snapshot → Renderer
  new_renderer blank = record { pending = blank; render = blank; new_data = false }

  unfoldable pub swap_snapshot : Renderer → Renderer × Bool
  swap_snapshot r =
      if r.new_data then (record r { render = r.pending; new_data = false }, true) else (r, false)

  unfoldable pub clear_pending_snapshot : Renderer → Renderer
  clear_pending_snapshot r = record r { new_data = false }

  unfoldable pub set_snapshot : Snapshot → Renderer → Renderer
  set_snapshot snapshot r = record r { pending = snapshot; new_data = true }

  unfoldable pub get_render_snapshot : Renderer → Snapshot
  get_render_snapshot r = r.render

  -- What the thread of the user interface and the thread of OpenGL call, in the order of the lock.
  pub data Call : Type 0 where
    swapped : Call
    cleared : Call
    posted : Snapshot → Call

  unfoldable pub call : Call → Renderer → Renderer
  unfolding swap_snapshot clear_pending_snapshot set_snapshot
  call swapped r = (swap_snapshot r).0
  call cleared r = clear_pending_snapshot r
  call (posted snapshot) r = set_snapshot snapshot r

  unfoldable pub run : List Call → Renderer → Renderer
  unfolding call
  run [] r = r
  run (c ∷ calls) r = run calls (call c r)
