-- ===== src/Pmu/Arm/Examples.antt =====
-- The counters of aarch64 at concrete events: the second name is unknown, and the machine has 6
-- counters.
use hwvar.Base.{
  ℕ, ◌+◌, ◌≤◌, ◌*◌, false, List, [], ◌∷◌, ◌≡◌, refl, codes, length, if◌then◌else◌, ltb,
}
use hwvar.Pmu.Events.{returned}
use hwvar.Pmu.Arm.{Registers, arch_pmu_init, num_counters, arch_pmu_begin, arch_pmu_end, str2type}
use hwvar.Pmu.Arm.Programmed.{Ready, chosen, arch_pmu_init-Ready}
use hwvar.Pmu.Arm.Lifecycle.{
  tabulate, advance, sample, measured, arch_pmu_end-begin, arch_pmu_free-Ready,
}

abbrev machine : Registers
machine = record {
  pmcr = 0x3001;
  selected = 0;
  types = λ k. 0;
  counts = λ k. 7;
  enabled = λ k. false;
  overflow = λ k. false;
}

abbrev events : List (List ℕ)
events = codes "mem_access" ∷ codes "UOPS" ∷ codes "L2D_CACHE" ∷ []

events-chosen : chosen events (num_counters machine) ≡ 0x13 ∷ 0x16 ∷ []
unfolding chosen str2type
events-chosen = refl

arch_pmu_init-Ready_example :
    (r' : Registers) × (arch_pmu_init events machine
      ≡ returned (length (chosen events (num_counters machine)), r'))
    × Ready (chosen events (num_counters machine)) machine r'
    × (length (chosen events (num_counters machine)) ≤ length events)
    × (length (chosen events (num_counters machine)) ≤ num_counters machine)
arch_pmu_init-Ready_example = arch_pmu_init-Ready events machine refl

-- The second counter wraps.
abbrev much : ℕ → ℕ
much k = k * 4294967296 + 5

arch_pmu_end-begin_example :
    (arch_pmu_end 2 (advance much (arch_pmu_begin 2 machine))).0
    ≡ tabulate 2 0 (λ k. sample (much k))
arch_pmu_end-begin_example = arch_pmu_end-begin 2 much machine

arch_pmu_free-Ready_example :
    (measured
        (length (chosen events (num_counters machine)))
        (λ k. 5)
        arch_pmu_init-Ready_example.0).enabled
      1
    ≡ (if ltb 1 (length (chosen events (num_counters machine))) then false else false)
arch_pmu_free-Ready_example =
    arch_pmu_free-Ready (chosen events (num_counters machine)) (λ k. 5) machine
      arch_pmu_init-Ready_example.0 1 arch_pmu_init-Ready_example.2
