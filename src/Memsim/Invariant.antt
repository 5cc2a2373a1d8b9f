-- ===== src/Memsim/Invariant.antt =====
-- project2/part3/memsim.c: the invariant of the simulator and its preservation.
pub mod Partition
pub mod Allocation
pub mod Commands
