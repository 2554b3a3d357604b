-- ===== src/MemoryMap.antt =====
-- The list of memory areas of a process, Assignment3/Ass3/src/mmap.c.
pub mod Areas
pub mod View
pub mod Unmap
pub mod Protect
pub mod Map
mod Tests
