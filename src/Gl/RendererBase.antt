-- ===== src/Gl/RendererBase.antt =====
-- gl/GLRendererBase.h: the shader of a renderer between `create` and `release`. `create` is a method
-- of each renderer, which sets the context and then compiles.
mod Linked
mod Tests
use phu_audio_lib.Base.{Bool, true, false, Option, none, some, List, [], ◌∷◌}
use phu_audio_lib.Gl.ShaderBuilder.{Text, Shaders, compile_shader_program}

module _ (gl : Shaders) where
  pub record Renderer : Type 0 where
    pub ctx : Option gl.Context
    pub shader : Option gl.Program

  unfoldable pub new_renderer : Renderer
  new_renderer = record { ctx = none; shader = none }

  unfoldable pub release : Renderer → Renderer
  release r = record { ctx = none; shader = none }

  unfoldable pub is_ready : Renderer → Bool
  is_ready r = elim r.shader [ none ↦ false | some program ↦ true ]

  -- Where nothing was compiled, the renderer keeps what it had.
  unfoldable pub keep_compiled : Renderer → Option gl.Program → Renderer × Bool
  keep_compiled r none = (r, false)
  keep_compiled r (some program) = (record r { shader = some program }, true)

  unfoldable pub compile_with :
      Option gl.Context → Text → Text → Text → Renderer → (Renderer × Bool) × List Text
  unfolding keep_compiled
  compile_with none vert_src frag_src name r = ((r, false), [])
  compile_with (some ctx) vert_src frag_src name r =
      let (compiled, log) = compile_shader_program gl ctx vert_src frag_src name in
      (keep_compiled r compiled, log)

  unfoldable pub compile_shader : Text → Text → Text → Renderer → (Renderer × Bool) × List Text
  unfolding compile_with
  compile_shader vert_src frag_src name r = compile_with r.ctx vert_src frag_src name r

  -- What the thread of OpenGL does with a renderer.
  pub data Call : Type 0 where
    attached : gl.Context → Call
    compiled : Text → Text → Text → Call
    released : Call

  unfoldable pub call : Call → Renderer → Renderer
  unfolding compile_shader release
  call (attached ctx) r = record r { ctx = some ctx }
  call (compiled vert_src frag_src name) r = (compile_shader vert_src frag_src name r).0.0
  call released r = release r

  unfoldable pub run : List Call → Renderer → Renderer
  unfolding call
  run [] r = r
  run (c ∷ calls) r = run calls (call c r)
