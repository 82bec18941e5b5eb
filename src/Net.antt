-- ===== src/Net.antt =====
-- network/: what the broadcasters share, and each broadcaster.
pub mod Lifecycle
pub mod States
pub mod Text
pub mod Sample
pub mod Ctrl
pub mod Command
pub mod Spectrum
