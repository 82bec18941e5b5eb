-- ===== src/Gl/ShaderBuilder/Styles.antt =====
-- gl/GLSLShaderBuilder.cpp: the fragment shader for each version of the language.
use phu_audio_lib.Base.{
  pos, ◌≡◌, refl, sym, ap, ◌∙◌, ◌⊎◌, inl, inr, Bool, true, false, ◌++◌, if◌then◌else◌, arith,
}
use phu_audio_lib.Double.{Double}
use phu_audio_lib.Gl.ShaderBuilder.{
  Text, codes, modern_name, legacy_name, at_least, get_glsl_version, output_decl,
  use_modern_fragment_output, get_version_directive, output_assignment, build_fragment_shader,
}
use phu_audio_lib.Gl.ShaderBuilder.Texts.{Absent, Clashes, clash}
use phu_audio_lib.Gl.ShaderBuilder.Replace.{
  ReplaceLaws, Absent-replace, replace-Absent, replace_self, replace-replace,
}

modern-Clashes : Clashes modern_name legacy_name
unfolding clash
modern-Clashes = ground arith

legacy-Clashes : Clashes legacy_name modern_name
unfolding clash
legacy-Clashes = ground arith

legacy_itself : Clashes (codes "l_FragColor") legacy_name
unfolding clash
legacy_itself = ground arith

module _ (d : Double) (replace : Text → Text → Text → Text) (laws : ReplaceLaws replace) where
  abbrev around : Text → Text → Text
  around uniforms main = uniforms ++ (codes "void main() {\n" ++ (main ++ codes "}\n"))

  -- A shader of version 3.30, which declares its output, and an older one.
  abbrev pub IsModern : Text → Text → Type 0
  IsModern uniforms shader =
      (main : Text) × (shader
        ≡ codes "#version 330\n" ++ (codes "out vec4 fragColor;\n" ++ around uniforms main))
      × Absent legacy_name main

  abbrev pub IsLegacy : Text → Text → Type 0
  IsLegacy uniforms shader =
      (directive : Text) × (main : Text) × ((directive ≡ codes "#version 150\n")
        ⊎ (directive ≡ codes "#version 130\n"))
      × (shader ≡ directive ++ around uniforms main)
      × Absent modern_name main

  -- The assembly, by the two tests of the version.
  abbrev assembled : Bool → Bool → Text → Text → Text
  assembled modern middle uniforms body =
      (if modern
        then codes "#version 330\n"
        else if middle
        then codes "#version 150\n"
        else codes "#version 130\n")
      ++ (output_decl d replace modern ++ around uniforms (output_assignment d replace modern body))

  assembled-outputs :
      (modern middle : Bool) (uniforms body : Text)
      → ((modern ≡ true) × IsModern uniforms (assembled modern middle uniforms body))
        ⊎ ((modern ≡ false) × IsLegacy uniforms (assembled modern middle uniforms body))
  unfolding output_assignment output_decl
  assembled-outputs true middle uniforms body = inl (
    refl,
    (
      output_assignment d replace true body,
      refl,
      Absent-replace replace laws _ _ modern_name (replace body modern_name modern_name)
          legacy-Clashes.1 modern-Clashes,
    ),
  )
  assembled-outputs false true uniforms body = inr (
    refl,
    (
      codes "#version 150\n",
      replace body modern_name legacy_name,
      inl refl,
      refl,
      Absent-replace replace laws _ _ legacy_name body modern-Clashes.1 legacy-Clashes,
    ),
  )
  assembled-outputs false false uniforms body = inr (
    refl,
    (
      codes "#version 130\n",
      replace body modern_name legacy_name,
      inr refl,
      refl,
      Absent-replace replace laws _ _ legacy_name body modern-Clashes.1 legacy-Clashes,
    ),
  )

  -- A shader for version 3.30 or later names that version, declares `fragColor` and names
  -- `gl_FragColor` nowhere in its main function; one for an earlier version, or where the driver
  -- names none, is of version 1.50 or 1.30, declares nothing and names `fragColor` nowhere there.
  pub build_fragment_shader-outputs :
      (language : d.Carrier) (uniforms body : Text)
      → ((use_modern_fragment_output d language ≡ true)
          × IsModern uniforms (build_fragment_shader d replace language uniforms body))
        ⊎ ((use_modern_fragment_output d language ≡ false)
            × IsLegacy uniforms (build_fragment_shader d replace language uniforms body))
  unfolding build_fragment_shader get_glsl_version get_version_directive use_modern_fragment_output
  build_fragment_shader-outputs language uniforms body =
      let version = get_glsl_version d language in
      assembled-outputs (at_least d (d.lit (pos 330) 100) version)
        (at_least d (d.lit (pos 150) 100) version) uniforms body

  assignment-styles :
      (modern : Bool) (body : Text)
      → Absent legacy_name body
      → output_assignment d replace modern (replace body modern_name legacy_name)
        ≡ output_assignment d replace modern body
  unfolding output_assignment
  assignment-styles true body h =
      let same = replace_self replace laws _ _ in
      ap (λ t. replace t legacy_name modern_name) (same (replace body modern_name legacy_name))
      ∙ replace-replace replace laws _ _ _ _ body legacy_itself h
      ∙ sym (replace-Absent replace laws _ _ modern_name body h)
      ∙ ap (λ t. replace t legacy_name modern_name) (sym (same body))
  assignment-styles false body h =
      replace-Absent replace laws _ _ legacy_name (replace body modern_name legacy_name)
        (Absent-replace replace laws _ _ legacy_name body modern-Clashes.1 legacy-Clashes)

  -- A main function that uses `fragColor`, and never `gl_FragColor`, gives the same shader as the
  -- same function written with `gl_FragColor` in its place, whatever the version is.
  pub build_fragment_shader-styles :
      (language : d.Carrier) (uniforms body : Text)
      → Absent legacy_name body
      → build_fragment_shader d replace language uniforms (replace body modern_name legacy_name)
        ≡ build_fragment_shader d replace language uniforms body
  unfolding build_fragment_shader
  build_fragment_shader-styles language uniforms body h =
      let modern = use_modern_fragment_output d language in
      ap
        (λ main.
          get_version_directive d language
          ++ (output_decl d replace modern ++ around uniforms main))
        (assignment-styles modern body h)
