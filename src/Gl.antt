-- ===== src/Gl.antt =====
-- gl/: what the renderers share, as far as it does not call OpenGL.
pub mod RendererBase
pub mod ShaderBuilder
pub mod SnapshotRenderer
