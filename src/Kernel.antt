-- ===== src/Kernel.antt =====
-- The benchmark kernels of src/benchmarks.
pub mod Arrays
pub mod Defs
pub mod TuneSize
pub mod Hacc
pub mod Fwq
pub mod Dgemm
pub mod Capacity
pub mod Stream
