-- ===== src/Gl/RendererBase/Tests.antt =====
-- gl/GLRendererBase.h with the driver for the tests.
use phu_audio_lib.Base.{◌≡◌, refl, true, false, List, [], ◌∷◌}
use phu_audio_lib.Gl.ShaderBuilder.{codes, compile_shader_program}
use phu_audio_lib.Gl.ShaderBuilder.Samples.{driver}
use phu_audio_lib.Gl.RendererBase.{
  new_renderer, is_ready, compile_shader, Call, attached, compiled, run,
}
use phu_audio_lib.Gl.RendererBase.Linked.{IsSound, run-IsSound}

abbrev history : List (Call driver)
history =
    attached 7
    ∷ compiled (codes "v") (codes "f") (codes "Grid")
    ∷ compiled (codes "v") [] (codes "Grid")
    ∷ []

-- A second shader that does not compile: the renderer keeps the first and stays ready.
still_ready :
    (is_ready driver (run driver history (new_renderer driver)) ≡ true)
    × ((compile_shader driver
          (codes "v")
          []
          (codes "Grid")
          (run driver history (new_renderer driver))).0.1
        ≡ false)
unfolding is_ready run new_renderer compile_shader compile_shader_program
still_ready = (refl, refl)

run-IsSound_example : IsSound driver (run driver history (new_renderer driver))
run-IsSound_example = run-IsSound driver history (new_renderer driver) (unfold new_renderer in tt)
