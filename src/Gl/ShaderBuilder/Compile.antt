-- ===== src/Gl/ShaderBuilder/Compile.antt =====
-- gl/GLSLShaderBuilder.cpp: what comes out of `compileShaderProgram`.
use phu_audio_lib.Base.{
  ◌≡◌, refl, inl, inr, Bool-cases, true, false, Option, none, some, List, [], ◌∷◌, ◌++◌,
}
use phu_audio_lib.Gl.ShaderBuilder.{Text, codes, Shaders, compile_shader_program}

module _ (gl : Shaders) where
  -- A program that is made of the two sources and linked, with no step that failed.
  pub record IsLinked (ctx : gl.Context) (vert_src frag_src : Text) (program : gl.Program)
      : Type 0 where
    pub with_vertex : gl.Program
    pub with_both : gl.Program
    pub vertex_added : gl.add_vertex_shader vert_src (gl.new_program ctx) ≡ (with_vertex, true)
    pub fragment_added : gl.add_fragment_shader frag_src with_vertex ≡ (with_both, true)
    pub linked : gl.link with_both ≡ (program, true)

  -- The first step that fails, which left `program`, and what its line in the log calls it.
  pub data Fails (ctx : gl.Context) (vert_src frag_src : Text) : gl.Program → Text → Type 0 where
    at_vertex :
        {p : gl.Program}
        → gl.add_vertex_shader vert_src (gl.new_program ctx) ≡ (p, false)
        → Fails ctx vert_src frag_src p (codes ": vertex shader failed: ")
    at_fragment :
        {p q : gl.Program}
        → gl.add_vertex_shader vert_src (gl.new_program ctx) ≡ (p, true)
        → gl.add_fragment_shader frag_src p ≡ (q, false)
        → Fails ctx vert_src frag_src q (codes ": fragment shader failed: ")
    at_link :
        {p q r : gl.Program}
        → gl.add_vertex_shader vert_src (gl.new_program ctx) ≡ (p, true)
        → gl.add_fragment_shader frag_src p ≡ (q, true)
        → gl.link q ≡ (r, false)
        → Fails ctx vert_src frag_src r (codes ": shader link failed: ")

  abbrev pub Compiles : gl.Context → Text → Text → Text → Option gl.Program × List Text → Type 0
  Compiles ctx vert_src frag_src name (some program, log) =
      IsLinked ctx vert_src frag_src program × (log ≡ [])
  Compiles ctx vert_src frag_src name (none, log) =
      (program : gl.Program) × (what : Text) × Fails ctx vert_src frag_src program what
      × (log ≡ (name ++ (what ++ gl.get_last_error program)) ∷ [])

  -- A program comes back exactly where no step failed, and then nothing is logged; otherwise one
  -- line is, which names the first step that failed, with the error of the program at that step.
  pub compile_shader_program-Compiles :
      (ctx : gl.Context) (vert_src frag_src name : Text)
      → Compiles ctx vert_src frag_src name (compile_shader_program gl ctx vert_src frag_src name)
  unfolding compile_shader_program
  compile_shader_program-Compiles ctx vert_src frag_src name =
      let Good = Compiles ctx vert_src frag_src name in
      let a = gl.add_vertex_shader vert_src (gl.new_program ctx) in
      let b = gl.add_fragment_shader frag_src a.0 in
      let c = gl.link b.0 in
      elim (Bool-cases a.1) [
        | inr e ↦ rw e (a.0, codes ": vertex shader failed: ", at_vertex (λ i. (a.0, e i)), refl)
        | inl e ↦ rw e (elim (Bool-cases b.1) [
          | inr f ↦ rw f (
            b.0,
            codes ": fragment shader failed: ",
            at_fragment (λ i. (a.0, e i)) (λ i. (b.0, f i)),
            refl,
          )
          | inl f ↦ rw f (elim (Bool-cases c.1) [
            | inr g ↦ rw g (
              c.0,
              codes ": shader link failed: ",
              at_link (λ i. (a.0, e i)) (λ i. (b.0, f i)) (λ i. (c.0, g i)),
              refl,
            )
            | inl g ↦ rw g (
              record {
                with_vertex = a.0;
                with_both = b.0;
                vertex_added = λ i. (a.0, e i);
                fragment_added = λ i. (b.0, f i);
                linked = λ i. (c.0, g i);
              },
              refl,
            )
          ])
        ])
      ]
