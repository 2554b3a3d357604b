-- ===== src/MemoryMap/Map.antt =====
-- `vm_area_map` of Assignment3/Ass3/src/mmap.c: `Gaps` has the searches for a free range, `Hint`
-- the walk for a hint address, `Call` the whole function; the others are their proofs.
pub mod Gaps
pub mod Hint
pub mod Call
