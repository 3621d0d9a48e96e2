-- ===== src/Pmu/Intel/Setup.antt =====
-- `arch_pmu_init` and `arch_pmu_free` for x86_64.
use hwvar.Base.{
  ℕ, zero, suc, ◌+◌, ◌-◌, ◌*◌, ◌%◌, ◌/◌, ◌^◌, Bool, true, false, not, ◌&&◌, ◌||◌, Option, none,
  some, List, [], ◌∷◌, if◌then◌else◌, ◌==◌,
}
use hwvar.Pmu.Events.{set_at, Ending, returned, exit_failure}
use hwvar.Pmu.Intel.Machine.{
  jevents, perf, raw_linux, no_linux, mck, raw_mck, no_mck, is_raw_linux, is_mck, Build, raw_msr,
  Os, Cpu, Pmu, perfevtsel_base, perf_global_ctrl, perf_capabilities, debugctl, rdmsr, wrmsr,
}

abbrev bit : ℕ → ℕ → ℕ
bit v i = v / 2 ^ i % 2

-- `pmu_info`: where the processor stops its counters for a virtual machine, the bit 14 of
-- IA32_DEBUGCTL is cleared.
unfoldable pub pmu_info : Os → Pmu → Cpu → Cpu
unfolding rdmsr wrmsr
pmu_info os p c =
    let freeze = bit (rdmsr os p.mckernel p.has_msr perf_capabilities c) 12 in
    let old = rdmsr os p.mckernel p.has_msr debugctl c in
    if bit os.ecx 15 == 1 && freeze == 1
    then wrmsr p.mckernel p.has_msr debugctl (old - bit old 14 * 2 ^ 14) c
    else c

abbrev set_bit : ℕ → ℕ → ℕ
set_bit i v = v + (1 - bit v i) * 2 ^ i

-- `(1 << 22) | (1 << 16) | attr.config`
abbrev select_value : ℕ → ℕ
select_value config = set_bit 22 (set_bit 16 config)

-- One event with a resolved name, of index `i`: `none` where the loop goes on without it.
unfoldable pub configure : Build → Os → ℕ → ℕ → Pmu × Cpu → Option (Pmu × Cpu)
unfolding wrmsr
configure b os i config (p, c) =
    if p.mckernel
    then elim b.on_mckernel [
      | mck ↦
          if os.mck_inits p.active config
          then some (p, record c { counters = set_at c.counters p.active (some config) })
          else none
      | raw_mck ↦ some (p, wrmsr p.mckernel p.has_msr (perfevtsel_base + i) (select_value config) c)
      | no_mck ↦ some (p, c)
    ]
    else elim b.on_linux [
      | jevents ↦
          if os.rdpmc_opens p.active config
          then some (p, record c { contexts = set_at c.contexts p.active (some config) })
          else none
      | perf ↦ elim (os.perf_event_open config) [
        | none ↦ none
        | some fd ↦ some (
          record p { perf_fds = set_at p.perf_fds p.active fd },
          record c { files = set_at c.files fd true },
        )
      ]
      | raw_linux ↦
          some (p, wrmsr p.mckernel p.has_msr (perfevtsel_base + i) (select_value config) c)
      | no_linux ↦ some (p, c)
    ]

abbrev pub next_slot : Pmu × Cpu → Pmu × Cpu
next_slot (p, c) = (record p { active = p.active + 1 }, c)

abbrev pub accept : Pmu × Cpu → Option (Pmu × Cpu) → Pmu × Cpu
accept s none = s
accept s (some s') = next_slot s'

-- One round of the loop over the names.
abbrev pub add_event : Build → Os → ℕ → Option ℕ → Pmu × Cpu → Pmu × Cpu
add_event b os i none s = s
add_event b os i (some config) s = accept s (configure b os i config s)

unfoldable pub add_events : Build → Os → ℕ → List (List ℕ) → Pmu × Cpu → Pmu × Cpu
unfolding configure
add_events b os i [] s = s
add_events b os i (name ∷ names) s =
    add_events b os (i + 1) names (add_event b os i (os.resolve_event name) s)

-- What follows the loop.
unfoldable pub start_global : Build → Pmu × Cpu → Pmu × Cpu
unfolding wrmsr
start_global b (p, c) =
    if p.mckernel
    then elim b.on_mckernel [
      | raw_mck ↦ (p, wrmsr p.mckernel p.has_msr perf_global_ctrl 0 c)
      | mck ↦
          if p.global_ctrl == 0
          then (p, wrmsr p.mckernel false perf_global_ctrl (2 ^ p.active - 1) c)
          else (p, c)
      | no_mck ↦ (p, c)
    ]
    else elim b.on_linux [
      | raw_linux ↦ (p, wrmsr p.mckernel p.has_msr perf_global_ctrl 0 c)
      | _ ↦ (p, c)
    ]

abbrev pub blank : Os → Bool → Bool → Pmu
blank os mckernel opened = record {
  perf_fds = λ k. os.garbage;
  active = 0;
  mckernel = mckernel;
  has_msr = opened;
  global_ctrl = os.garbage;
}

-- The part before the loop. `global_ctrl` is read by the descriptor -1, which is no file.
unfoldable pub prepare : Build → Os → Bool → Cpu → Ending (Pmu × Cpu)
unfolding pmu_info rdmsr
prepare b os mckernel c =
    let opened = raw_msr b && not mckernel in
    let p = blank os mckernel opened in
    let c' = if raw_msr b then pmu_info os p c else c in
    let read = is_mck b.on_mckernel || raw_msr b in
    let old = if read then rdmsr os mckernel false perf_global_ctrl c' else os.garbage in
    if opened && not os.msr_opens
    then exit_failure
    else returned (record p { global_ctrl = old }, c')

unfoldable pub arch_pmu_init : Build → Os → Bool → List (List ℕ) → Cpu → Ending (Pmu × Cpu)
unfolding prepare add_events start_global
arch_pmu_init b os mckernel pmcs c = elim (prepare b os mckernel c) [
  | exit_failure ↦ exit_failure
  | returned s ↦ returned (start_global b (add_events b os 0 pmcs s))
]

-- One round of the loop of `arch_pmu_free`.
abbrev pub free_slot : Build → Pmu → ℕ → Cpu → Cpu
free_slot b p i c = elim b.on_linux [
  | jevents ↦ record c { contexts = set_at c.contexts i none }
  | perf ↦ record c { files = set_at c.files (p.perf_fds i) false }
  | raw_linux ↦ wrmsr p.mckernel p.has_msr (perfevtsel_base + i) 0 c
  | no_linux ↦ c
]

unfoldable pub free_slots : Build → Pmu → ℕ → ℕ → Cpu → Cpu
free_slots b p zero i c = c
free_slots b p (suc left) i c = free_slots b p left (i + 1) (free_slot b p i c)

unfoldable pub arch_pmu_free : Build → Pmu → Cpu → Cpu
unfolding free_slots wrmsr
arch_pmu_free b p c =
    if not p.mckernel
    then (let c' = free_slots b p p.active 0 c in
        if is_raw_linux b.on_linux
        then wrmsr p.mckernel p.has_msr perf_global_ctrl p.global_ctrl c'
        else c')
    else wrmsr p.mckernel p.has_msr perf_global_ctrl p.global_ctrl c
