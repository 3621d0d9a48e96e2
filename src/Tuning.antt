-- ===== src/Tuning.antt =====
-- The tuning of the numbers of rounds in src/main.cc: `get_time`, `tune_time`,
-- `tune_benchmarks_time`, and the part of `main` that calls them.
pub mod Clock
pub mod Ends
pub mod Arguments
pub mod Auto
mod Examples
