-- ===== src/Audio.antt =====
-- audio/: the real-time buffers and the aggregation over them.
pub mod InsertResult
pub mod Bucket
pub mod PpqRing
pub mod Fifo
pub mod Pipeline
pub mod NoteToFreq
pub mod BeatSyncBuffer
pub mod LinkwitzRiley
pub mod FftProcessor
pub mod Iso226
