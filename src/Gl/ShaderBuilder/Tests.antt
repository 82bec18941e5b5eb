-- ===== src/Gl/ShaderBuilder/Tests.antt =====
-- gl/GLSLShaderBuilder.cpp with a `replace` that can be run, versions that are rounded to whole
-- numbers.
use phu_audio_lib.Base.{
  ℕ, zero, suc, pos, ◌-◌, ◌≡◌, refl, ◌⊎◌, true, false, [], ◌∷◌, ◌++◌, length, drop, arith,
}
use phu_audio_lib.Double.Integers.{integers}
use phu_audio_lib.Gl.ShaderBuilder.{
  Text, codes, modern_name, legacy_name, use_modern_fragment_output, validate_glsl_version,
  get_version_directive, build_fragment_shader, compile_shader_program,
}
use phu_audio_lib.Gl.ShaderBuilder.Samples.{driver}
use phu_audio_lib.Gl.ShaderBuilder.Texts.{starts_with, Absent}
use phu_audio_lib.Gl.ShaderBuilder.Replace.{ReplaceLaws}
use phu_audio_lib.Gl.ShaderBuilder.Styles.{
  IsModern, IsLegacy, build_fragment_shader-outputs, build_fragment_shader-styles,
}
use phu_audio_lib.Gl.ShaderBuilder.Compile.{Compiles, compile_shader_program-Compiles}

-- With the number of characters to pass over before the next look.
scan : Text → Text → ℕ → Text → Text
unfolding starts_with
scan old new k [] = []
scan old new (suc k) (c ∷ s) = scan old new k s
scan old new zero (c ∷ s) = elim (starts_with old (c ∷ s)) [
  | true ↦ new ++ scan old new (length old - 1) s
  | false ↦ c ∷ scan old new zero s
]

unfoldable replace : Text → Text → Text → Text
unfolding scan
replace s old new = scan old new zero s

scan-drop : (old new : Text) (k : ℕ) (s : Text) → scan old new k s ≡ scan old new zero (drop k s)
unfolding scan
scan-drop old new zero s = refl
scan-drop old new (suc k) [] = refl
scan-drop old new (suc k) (c ∷ s) = scan-drop old new k s

at_name_lem :
    (o : ℕ) (os n s : Text)
    → starts_with (o ∷ os) s ≡ true
    → replace s (o ∷ os) n ≡ n ++ replace (drop (suc (length os)) s) (o ∷ os) n
unfolding replace scan
at_name_lem o os n [] h = absurd (unfold starts_with in cc)
at_name_lem o os n (c ∷ s) h = ground (arith, h, scan-drop (o ∷ os) n (length os) s)

elsewhere_lem :
    (o : ℕ) (os n : Text) (c : ℕ) (s : Text)
    → starts_with (o ∷ os) (c ∷ s) ≡ false
    → replace (c ∷ s) (o ∷ os) n ≡ c ∷ replace s (o ∷ os) n
unfolding replace scan
elsewhere_lem o os n c s h = ground (arith, h)

replace-ReplaceLaws : ReplaceLaws replace
unfolding replace scan
replace-ReplaceLaws = record {
  at_end = λ o os n. refl;
  at_name = at_name_lem;
  elsewhere = elsewhere_lem;
}

abbrev body : Text
body = codes "    fragColor = uColour;\n"

abbrev uniforms : Text
uniforms = codes "uniform vec4 uColour;\n"

silent_driver :
    build_fragment_shader integers replace (pos 0) uniforms body
    ≡ codes "#version 130\nuniform vec4 uColour;\nvoid main() {\n    gl_FragColor = uColour;\n}\n"
unfolding build_fragment_shader replace
silent_driver = refl

new_driver :
    build_fragment_shader integers replace (pos 4) uniforms (replace body modern_name legacy_name)
    ≡ codes
        "#version 330\nout vec4 fragColor;\nuniform vec4 uColour;\nvoid main() {\n    fragColor = uColour;\n}\n"
unfolding build_fragment_shader replace
new_driver = refl

-- Without an answer of the driver a shader still has a directive, but the check of the version fails.
unknown_version :
    (get_version_directive integers (pos 0) ≡ codes "#version 130\n")
    × (validate_glsl_version integers (λ n. []) (codes "Grid") (pos 1) (pos 0)
        ≡ (false, codes "Grid: Failed to query GLSL version" ∷ []))
unfolding get_version_directive validate_glsl_version
unknown_version = (refl, refl)

build_fragment_shader-outputs_example :
    ((use_modern_fragment_output integers (pos 4) ≡ true)
      × IsModern integers replace replace-ReplaceLaws uniforms
          (build_fragment_shader integers replace (pos 4) uniforms body))
    ⊎ ((use_modern_fragment_output integers (pos 4) ≡ false)
        × IsLegacy integers replace replace-ReplaceLaws uniforms
            (build_fragment_shader integers replace (pos 4) uniforms body))
build_fragment_shader-outputs_example =
    build_fragment_shader-outputs integers replace replace-ReplaceLaws (pos 4) uniforms body

body-Absent : Absent legacy_name body
unfolding starts_with
body-Absent = ground arith

build_fragment_shader-styles_example :
    build_fragment_shader integers replace (pos 4) uniforms (replace body modern_name legacy_name)
    ≡ build_fragment_shader integers replace (pos 4) uniforms body
build_fragment_shader-styles_example =
    build_fragment_shader-styles integers replace replace-ReplaceLaws (pos 4) uniforms body
      body-Absent

empty_source :
    Compiles driver 7
      (codes "v")
      []
      (codes "Grid")
      (compile_shader_program driver 7 (codes "v") [] (codes "Grid"))
empty_source = compile_shader_program-Compiles driver 7 (codes "v") [] (codes "Grid")
