-- ===== src/Memsim.antt =====
-- project2/part3/memsim.c: the simulator of contiguous memory allocation.
pub mod Sort
pub mod State
pub mod Merge
pub mod Alloc
pub mod Process
pub mod Invariant
pub mod Policy
mod Tests
