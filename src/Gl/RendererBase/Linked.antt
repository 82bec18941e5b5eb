-- ===== src/Gl/RendererBase/Linked.antt =====
-- gl/GLRendererBase.h: what a renderer that is ready holds.
use phu_audio_lib.Base.{Option, none, some, ◌≡◌, refl, List, [], ◌∷◌}
use phu_audio_lib.Gl.ShaderBuilder.{Text, Shaders, compile_shader_program}
use phu_audio_lib.Gl.ShaderBuilder.Compile.{IsLinked, Compiles, compile_shader_program-Compiles}
use phu_audio_lib.Gl.RendererBase.{
  Renderer, keep_compiled, compile_with, Call, attached, compiled, released, call, run,
}

module _ (gl : Shaders) where
  -- A renderer with a shader has a context, and its shader is linked.
  abbrev pub Holds : Option gl.Context → Option gl.Program → Type 0
  Holds ctx none = Unit
  Holds none (some program) = ⊥
  Holds (some ctx) (some program) =
      (made_in : gl.Context) × (vert_src : Text) × (frag_src : Text) × IsLinked gl made_in vert_src
        frag_src program

  abbrev pub IsSound : Renderer gl → Type 0
  IsSound r = Holds r.ctx r.shader

  attached-Holds :
      (before : Option gl.Context) (ctx : gl.Context) (shader : Option gl.Program)
      → Holds before shader
      → Holds (some ctx) shader
  attached-Holds before ctx none h = tt
  attached-Holds none ctx (some program) h = absurd h
  attached-Holds (some c) ctx (some program) h = h

  keep_compiled-IsSound :
      (r : Renderer gl) (ctx : gl.Context) (vert_src frag_src name : Text)
      (compiled : Option gl.Program) (log : List Text)
      → r.ctx ≡ some ctx
      → IsSound r
      → Compiles gl ctx vert_src frag_src name (compiled, log)
      → IsSound (keep_compiled gl r compiled).0
  unfolding keep_compiled
  keep_compiled-IsSound r ctx vert_src frag_src name none log e h c = h
  keep_compiled-IsSound r ctx vert_src frag_src name (some program) log e h c =
      rw e (ctx, vert_src, frag_src, c.0)

  compile_with-IsSound :
      (r : Renderer gl) (ctx : Option gl.Context) (vert_src frag_src name : Text)
      → r.ctx ≡ ctx
      → IsSound r
      → IsSound (compile_with gl ctx vert_src frag_src name r).0.0
  unfolding compile_with
  compile_with-IsSound r none vert_src frag_src name e h = h
  compile_with-IsSound r (some ctx) vert_src frag_src name e h =
      let made = compile_shader_program gl ctx vert_src frag_src name in
      keep_compiled-IsSound r ctx vert_src frag_src name made.0 made.1 e h
        (compile_shader_program-Compiles gl ctx vert_src frag_src name)

  call-IsSound : (c : Call gl) (r : Renderer gl) → IsSound r → IsSound (call gl c r)
  unfolding call
  call-IsSound (attached ctx) r h = attached-Holds r.ctx ctx r.shader h
  call-IsSound (compiled vert_src frag_src name) r h =
      compile_with-IsSound r r.ctx vert_src frag_src name refl h
  call-IsSound released r h = tt

  -- Whatever calls follow, also ones that fail, a renderer that holds a shader has a context, and
  -- the shader is one whose two sources were added and which was linked with no error.
  pub run-IsSound :
      (calls : List (Call gl)) (r : Renderer gl) → IsSound r → IsSound (run gl calls r)
  unfolding run
  run-IsSound [] r h = h
  run-IsSound (c ∷ calls) r h = run-IsSound calls (call gl c r) (call-IsSound c r h)
