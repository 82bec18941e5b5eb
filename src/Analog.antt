-- ===== src/Analog.antt =====
-- analog/: circuits, their elements, the nonlinear iteration and the models of tubes and transformers.
pub mod Elements
pub mod Lu
pub mod Circuit
pub mod Newton
pub mod Triode
pub mod TubeStage
pub mod Detector
pub mod Transformer
pub mod VariableMu
pub mod Levels
