-- ===== src/Gl/ShaderBuilder.antt =====
-- gl/GLSLShaderBuilder.h and .cpp. A text is the list of its code points. Parameters are what the
-- driver says of the language, `replace` of `juce::String`, and the programs of
-- `juce::OpenGLShaderProgram`. `DBG` writes a line to a log, as in a debug build.
mod Texts
pub mod Replace
pub mod Styles
pub mod Compile
pub mod Samples
mod Tests
use Prim.Native.Char.{code}
use Prim.Native.String.{String}
use phu_audio_lib.Base.{
  ℕ, pos, Bool, true, false, not, Option, none, some, List, [], ◌∷◌, ◌++◌, if◌then◌else◌,
}
use phu_audio_lib.Double.{Double}

abbrev pub Text : Type 0
Text = List ℕ

abbrev pub codes : String → Text
codes String.[] = []
codes (String.◌∷◌ c s) = code c ∷ codes s

abbrev pub modern_name : Text
modern_name = codes "fragColor"

abbrev pub legacy_name : Text
legacy_name = codes "gl_FragColor"

module _ (d : Double) where
  abbrev pub minimum_glsl_version : d.Carrier
  minimum_glsl_version = d.lit (pos 130) 100

  -- `language` is what `OpenGLShaderProgram::getLanguageVersion` returns.
  unfoldable pub get_glsl_version : d.Carrier → Option d.Carrier
  get_glsl_version language = if d.lt (d.lit (pos 0) 1) language then some language else none

  -- `version.has_value() && version.value() >= bound`
  abbrev pub at_least : d.Carrier → Option d.Carrier → Bool
  at_least bound none = false
  at_least bound (some version) = d.le bound version

  unfoldable pub is_glsl_version_supported : d.Carrier → d.Carrier → Bool
  unfolding get_glsl_version
  is_glsl_version_supported required language = at_least required (get_glsl_version language)

  unfoldable pub get_version_directive : d.Carrier → Text
  unfolding get_glsl_version
  get_version_directive language =
      let version = get_glsl_version language in
      if at_least (d.lit (pos 330) 100) version
      then codes "#version 330\n"
      else if at_least (d.lit (pos 150) 100) version
      then codes "#version 150\n"
      else codes "#version 130\n"

  unfoldable pub use_modern_fragment_output : d.Carrier → Bool
  unfolding get_glsl_version
  use_modern_fragment_output language = at_least (d.lit (pos 330) 100) (get_glsl_version language)

  -- The number is printed by `printed`. The line of the log comes with the result.
  unfoldable pub validate_glsl_version :
      (d.Carrier → Text) → Text → d.Carrier → d.Carrier → Bool × List Text
  unfolding get_glsl_version
  validate_glsl_version printed name minimum language = elim (get_glsl_version language) [
    | none ↦ (false, (name ++ codes ": Failed to query GLSL version") ∷ [])
    | some version ↦
        if d.lt version minimum
        then (
          false,
          (name
                ++ (codes ": GLSL "
                    ++ (printed version
                        ++ (codes " is too old (need " ++ (printed minimum ++ codes "+)")))))
              ∷ [],
        )
        else (true, [])
  ]

  module _ (replace : Text → Text → Text → Text) where
    unfoldable pub output_decl : Bool → Text
    output_decl modern = if modern then codes "out vec4 fragColor;\n" else []

    unfoldable pub output_assignment : Bool → Text → Text
    output_assignment modern body =
        if modern
        then replace (replace body modern_name modern_name) legacy_name modern_name
        else replace body modern_name legacy_name

    unfoldable pub build_fragment_shader : d.Carrier → Text → Text → Text
    unfolding get_version_directive use_modern_fragment_output output_decl output_assignment
    build_fragment_shader language uniforms body =
        let modern = use_modern_fragment_output language in
        get_version_directive language
        ++ (output_decl modern
            ++ (uniforms
                ++ (codes "void main() {\n" ++ (output_assignment modern body ++ codes "}\n"))))

-- `juce::OpenGLShaderProgram`: each step leaves a program and says whether it went well.
pub record Shaders : Type 1 where
  pub Context : Type 0
  pub Program : Type 0
  pub new_program : Context → Program
  pub add_vertex_shader : Text → Program → Program × Bool
  pub add_fragment_shader : Text → Program → Program × Bool
  pub link : Program → Program × Bool
  pub get_last_error : Program → Text

module _ (gl : Shaders) where
  abbrev pub failed : Text → Text → gl.Program → Option gl.Program × List Text
  failed name what program = (none, (name ++ (what ++ gl.get_last_error program)) ∷ [])

  -- No result stands for the null pointer.
  unfoldable pub compile_shader_program :
      gl.Context → Text → Text → Text → Option gl.Program × List Text
  compile_shader_program ctx vert_src frag_src name =
      let (p, vertex_ok) = gl.add_vertex_shader vert_src (gl.new_program ctx) in
      let (q, fragment_ok) = gl.add_fragment_shader frag_src p in
      let (r, link_ok) = gl.link q in
      if not vertex_ok
      then failed name (codes ": vertex shader failed: ") p
      else if not fragment_ok
      then failed name (codes ": fragment shader failed: ") q
      else if not link_ok
      then failed name (codes ": shader link failed: ") r
      else (some r, [])
