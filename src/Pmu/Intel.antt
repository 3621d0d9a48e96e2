-- ===== src/Pmu/Intel.antt =====
-- The counters of x86_64 in include/arch.h, with JEVENTS_FOUND. The preprocessor selects a method
-- for Linux and one for McKernel; the file as it stands selects `jevents` and `mck`. What libjevents,
-- the kernels and the processor do is a parameter, or a register or file that a call acts on.
pub mod Machine
pub mod Setup
pub mod Measure
pub mod Slots
pub mod Contexts
pub mod Samples
mod Examples
