-- ===== src/Options.antt =====
-- The options of `main` of src/main.cc: the values that they take, the loop over them, and the checks
-- on the two sets of processors.
pub mod Values
pub mod Loop
pub mod Said
pub mod Last
pub mod Sizes
pub mod Cpusets
mod Examples
