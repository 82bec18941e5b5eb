-- ===== src/Memory.antt =====
-- memory/: the allocator of aligned memory.
pub mod AlignedAllocator
