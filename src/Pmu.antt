-- ===== src/Pmu.antt =====
-- The performance counters of include/arch.h: `arch_pmu_init`, `arch_pmu_begin`, `arch_pmu_end` and
-- `arch_pmu_free`, of which `worker` calls one each around a unit of work, for each platform.
pub mod Events
pub mod Arm
pub mod Intel
pub mod Work
pub mod Bluegene
pub mod Plain
