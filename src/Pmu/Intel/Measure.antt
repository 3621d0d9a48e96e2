-- ===== src/Pmu/Intel/Measure.antt =====
-- `arch_pmu_begin` and `arch_pmu_end` for x86_64, over the cells of `data`.
use hwvar.Base.{ℕ, zero, suc, ◌+◌, ◌-◌, ◌^◌, Bool, false, if◌then◌else◌, ◌==◌, sub64}
use hwvar.Pmu.Events.{set_at}
use hwvar.Pmu.Intel.Machine.{
  jevents, perf, raw_linux, no_linux, mck, raw_mck, no_mck, is_raw_linux, is_raw_mck, Build, Os,
  Cpu, Pmu, pmc_base, perf_global_status, perf_global_ctrl, perf_global_ovf_ctrl, rdmsr, wrmsr,
}

-- A round of the loop of `arch_pmu_begin` over the cells of `data` and the counters.
abbrev pub begin_slot : Build → Pmu → ℕ → (ℕ → ℕ) × Cpu → (ℕ → ℕ) × Cpu
begin_slot b p i (d, c) =
    if p.mckernel
    then elim b.on_mckernel [
      | mck ↦ (d, record c { counter_counts = set_at c.counter_counts i 0 })
      | raw_mck ↦ (d, wrmsr p.mckernel false (pmc_base + i) 0 c)
      | no_mck ↦ (d, c)
    ]
    else elim b.on_linux [
      | jevents ↦ (set_at d i (c.context_counts i), c)
      | perf ↦ (d, record c { file_counts = set_at c.file_counts (p.perf_fds i) 0 })
      | raw_linux ↦ (d, wrmsr p.mckernel p.has_msr (pmc_base + i) 0 c)
      | no_linux ↦ (d, c)
    ]

unfoldable pub begin_slots : Build → Pmu → ℕ → ℕ → (ℕ → ℕ) × Cpu → (ℕ → ℕ) × Cpu
begin_slots b p zero i s = s
begin_slots b p (suc left) i s = begin_slots b p left (i + 1) (begin_slot b p i s)

-- The method that is in use is one on the registers themselves.
abbrev pub raw_here : Build → Pmu → Bool
raw_here b p = if p.mckernel then is_raw_mck b.on_mckernel else is_raw_linux b.on_linux

unfoldable pub arch_pmu_begin : Build → Pmu → (ℕ → ℕ) × Cpu → (ℕ → ℕ) × Cpu
unfolding begin_slots wrmsr
arch_pmu_begin b p s =
    let (d, c) = begin_slots b p p.active 0 s in
    if raw_here b p
    then (
      d,
      wrmsr p.mckernel p.has_msr perf_global_ctrl (2 ^ p.active - 1)
          (wrmsr p.mckernel p.has_msr perf_global_ovf_ctrl 0 c),
    )
    else (d, c)

-- The first part of `arch_pmu_end`, which stops the counters.
unfoldable pub stop_global : Build → Os → Pmu → Cpu → Cpu
unfolding rdmsr wrmsr
stop_global b os p c =
    if raw_here b p
    then (let c' = wrmsr p.mckernel p.has_msr perf_global_ctrl 0 c in
        if rdmsr os p.mckernel p.has_msr perf_global_status c' == 0
        then c'
        else wrmsr p.mckernel p.has_msr perf_global_ovf_ctrl 0 c')
    else c

abbrev pub end_slot : Build → Os → Pmu → Cpu → ℕ → (ℕ → ℕ) → ℕ → ℕ
end_slot b os p c i d =
    if p.mckernel
    then elim b.on_mckernel [
      | mck ↦ set_at d i (c.counter_counts i)
      | raw_mck ↦ set_at d i (rdmsr os p.mckernel p.has_msr (pmc_base + i) c)
      | no_mck ↦ d
    ]
    else elim b.on_linux [
      | jevents ↦ set_at d i (sub64 (c.context_counts i) (d i))
      | perf ↦ set_at d i (c.file_counts (p.perf_fds i))
      | raw_linux ↦ set_at d i (rdmsr os p.mckernel p.has_msr (pmc_base + i) c)
      | no_linux ↦ d
    ]

unfoldable pub end_slots : Build → Os → Pmu → Cpu → ℕ → ℕ → (ℕ → ℕ) → ℕ → ℕ
end_slots b os p c zero i d = d
end_slots b os p c (suc left) i d = end_slots b os p c left (i + 1) (end_slot b os p c i d)

unfoldable pub arch_pmu_end : Build → Os → Pmu → (ℕ → ℕ) × Cpu → (ℕ → ℕ) × Cpu
unfolding stop_global end_slots
arch_pmu_end b os p (d, c) = let c' = stop_global b os p c in (end_slots b os p c' p.active 0 d, c')
