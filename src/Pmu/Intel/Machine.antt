-- ===== src/Pmu/Intel/Machine.antt =====
-- The state that the functions for x86_64 act on: the methods, the processor and `struct pmu`.
use hwvar.Base.{ℕ, Bool, true, false, ◌||◌, Option, List, if◌then◌else◌}
use hwvar.Pmu.Events.{set_at}

-- LINUX_JEVENTS, LINUX_PERF, LINUX_RAWMSR or none of them; MCK_MCK, MCK_RAWMSR or none.
pub data LinuxMethod : Type 0 where
  jevents perf raw_linux no_linux : LinuxMethod

pub data MckMethod : Type 0 where
  mck raw_mck no_mck : MckMethod

abbrev pub is_raw_linux : LinuxMethod → Bool
is_raw_linux raw_linux = true
is_raw_linux _ = false

abbrev pub is_raw_mck : MckMethod → Bool
is_raw_mck raw_mck = true
is_raw_mck _ = false

abbrev pub is_mck : MckMethod → Bool
is_mck mck = true
is_mck _ = false

pub record Build : Type 0 where
  pub on_linux : LinuxMethod
  pub on_mckernel : MckMethod

-- RAWMSR
abbrev pub raw_msr : Build → Bool
raw_msr b = is_raw_linux b.on_linux || is_raw_mck b.on_mckernel

-- What the calls return: the configuration of an event, if it resolves; whether `rdpmc_open_attr`,
-- by slot and configuration, and `mck_pmc_init` succeed; the descriptor of `perf_event_open`; whether
-- the MSR file opens; what `cpuid` puts in ECX; what an unset variable holds.
pub record Os : Type 0 where
  pub resolve_event : List ℕ → Option ℕ
  pub rdpmc_opens : ℕ → ℕ → Bool
  pub mck_inits : ℕ → ℕ → Bool
  pub perf_event_open : ℕ → Option ℕ
  pub msr_opens : Bool
  pub ecx : ℕ
  pub garbage : ℕ

-- The model-specific registers, the contexts of libjevents that are open in each slot, the descriptors
-- of perf events that are open, and the counters that McKernel has set up; and what a context, a
-- descriptor and a counter show when they are read.
pub record Cpu : Type 0 where
  pub msrs : ℕ → ℕ
  pub contexts : ℕ → Option ℕ
  pub files : ℕ → Bool
  pub counters : ℕ → Option ℕ
  pub context_counts : ℕ → ℕ
  pub file_counts : ℕ → ℕ
  pub counter_counts : ℕ → ℕ

-- `struct pmu`, where `has_msr` tells that `msr_fd` is an open file.
pub record Pmu : Type 0 where
  pub perf_fds : ℕ → ℕ
  pub active : ℕ
  pub mckernel : Bool
  pub has_msr : Bool
  pub global_ctrl : ℕ

-- `enum msrs`
abbrev pub pmc_base : ℕ
pmc_base = 0x0c1

abbrev pub perfevtsel_base : ℕ
perfevtsel_base = 0x186

abbrev pub perf_global_status : ℕ
perf_global_status = 0x38e

abbrev pub perf_global_ctrl : ℕ
perf_global_ctrl = 0x38f

abbrev pub perf_global_ovf_ctrl : ℕ
perf_global_ovf_ctrl = 0x390

abbrev pub perf_capabilities : ℕ
perf_capabilities = 0x345

abbrev pub debugctl : ℕ
debugctl = 0x1d9

-- `rdmsr` and `wrmsr`; the flag tells that the descriptor is an open file.
unfoldable pub rdmsr : Os → Bool → Bool → ℕ → Cpu → ℕ
rdmsr os mckernel fd idx c = if mckernel || fd then c.msrs idx else os.garbage

unfoldable pub wrmsr : Bool → Bool → ℕ → ℕ → Cpu → Cpu
wrmsr mckernel fd idx val c =
    if mckernel || fd then record c { msrs = set_at c.msrs idx val } else c
