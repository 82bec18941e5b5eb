-- ===== src/Gl/ShaderBuilder/Samples.antt =====
-- gl/GLSLShaderBuilder.cpp: a driver for the tests.
use phu_audio_lib.Base.{ℕ, Bool, true, false, List, [], ◌∷◌, ◌++◌}
use phu_audio_lib.Gl.ShaderBuilder.{Text, codes, Shaders}

abbrev has_text : Text → Bool
has_text [] = false
has_text (c ∷ s) = true

-- It keeps the sources and refuses an empty one.
abbrev pub driver : Shaders
driver = record {
  Context = ℕ;
  Program = List Text;
  new_program = λ ctx. [];
  add_vertex_shader = λ source p. (p ++ source ∷ [], has_text source);
  add_fragment_shader = λ source p. (p ++ source ∷ [], has_text source);
  link = λ p. (p, true);
  get_last_error = λ p. codes "empty";
}
