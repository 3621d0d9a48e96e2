-- ===== src/Pmu/Arm.antt =====
-- The counters of aarch64 in include/arch.h. A register stands for what the instruction on it does:
-- PMXEVTYPER_EL0 and PMXEVCNTR_EL0 are those of the counter that PMSELR_EL0 selects, PMCNTENSET_EL0
-- and PMCNTENCLR_EL0 set and clear the bit of a counter, PMOVSCLR_EL0 clears its overflow flag.
pub mod Programmed
pub mod Lifecycle
mod Examples
use hwvar.Base.{
  ℕ, zero, suc, ◌+◌, ◌-◌, ◌%◌, ◌/◌, ◌^◌, Bool, true, false, Option, none, some, List, [], ◌∷◌,
  if◌then◌else◌, ltb, ◌==◌, codes, length,
}
use hwvar.Pmu.Events.{set_at, Event, find_event, Ending, returned, exit_failure}

pub record Registers : Type 0 where
  pub pmcr : ℕ
  pub selected : ℕ
  pub types : ℕ → ℕ
  pub counts : ℕ → ℕ
  pub enabled : ℕ → Bool
  pub overflow : ℕ → Bool

abbrev event : List ℕ → ℕ → Event
event name code = record { name = name; code = code }

-- `pmu_events`
abbrev pub pmu_events : List Event
pmu_events =
    event (codes "SW_INCR") 0x00
    ∷ event (codes "L1I_CACHE_REFILL") 0x01
    ∷ event (codes "L1D_CACHE_REFILL") 0x03
    ∷ event (codes "L1D_CACHE") 0x04
    ∷ event (codes "MEM_ACCESS") 0x13
    ∷ event (codes "L2D_CACHE") 0x16
    ∷ event (codes "L2D_CACHE_REFILL") 0x17
    ∷ event (codes "CHAIN") 0x1e
    ∷ []

-- `str2type`
unfoldable pub str2type : List ℕ → Option ℕ
unfolding find_event
str2type name = find_event name pmu_events

-- `select_reg`, `write_type`, `enable_reg` and `disable_reg`. The low 16 bits of the type and the
-- bit 27 do not overlap.
abbrev pub select_reg : ℕ → Registers → Registers
select_reg reg r = record r { selected = reg }

abbrev pub write_type : ℕ → Registers → Registers
write_type type r = record r { types = set_at r.types r.selected (0x8000000 + type % 2 ^ 16) }

abbrev pub enable_reg : ℕ → Registers → Registers
enable_reg reg r = record r { enabled = set_at r.enabled reg true }

abbrev pub disable_reg : ℕ → Registers → Registers
disable_reg reg r = record r { enabled = set_at r.enabled reg false }

-- `struct pmu` is `num_pmcs`, the number of counters in use. One event takes the next counter.
abbrev pub program_one : Option ℕ → ℕ × Registers → ℕ × Registers
program_one none (n, r) = (n, r)
program_one (some type) (n, r) = (n + 1, write_type type (select_reg n r))

-- The loop over `pmc`, with the names that are left.
unfoldable pub program : List (List ℕ) → ℕ → ℕ → ℕ × Registers → ℕ × Registers
unfolding str2type
program [] pmc num_counters s = s
program (name ∷ names) pmc num_counters s =
    let rest = program names (pmc + 1) num_counters (program_one (str2type name) s) in
    if ltb pmc num_counters then rest else s

-- The loop that enables the counters, from the last one down.
unfoldable pub enable_all : ℕ → Registers → Registers
enable_all zero r = r
enable_all (suc i) r = enable_all i (enable_reg i r)

-- The bits 11 to 15 of PMCR_EL0.
abbrev pub num_counters : Registers → ℕ
num_counters r = r.pmcr / 2 ^ 11 % 2 ^ 5

unfoldable pub arch_pmu_init : List (List ℕ) → Registers → Ending (ℕ × Registers)
unfolding program enable_all
arch_pmu_init pmcs r =
    if r.pmcr % 2 == 0
    then exit_failure
    else (let (n, r') = program pmcs 0 (num_counters r) (0, r) in returned (n, enable_all n r'))

-- The loops of the other three functions, from counter `i`, with `left` rounds to go.
unfoldable pub free_loop : ℕ → ℕ → Registers → Registers
free_loop zero i r = r
free_loop (suc left) i r = free_loop left (i + 1) (disable_reg i (select_reg i r))

unfoldable pub arch_pmu_free : ℕ → Registers → Registers
unfolding free_loop
arch_pmu_free n r = free_loop n 0 r

unfoldable pub begin_loop : ℕ → ℕ → Registers → Registers
begin_loop zero i r = r
begin_loop (suc left) i r =
    begin_loop left (i + 1) (record r {
      overflow = set_at r.overflow i false;
      selected = i;
      counts = set_at r.counts i 0;
    })

unfoldable pub arch_pmu_begin : ℕ → Registers → Registers
unfolding begin_loop
arch_pmu_begin n r = begin_loop n 0 r

-- The loop of `arch_pmu_end`, with the overflow flags that were read before it: for each counter the
-- cell that it stores, from `data` on, and whether it prints a warning; and the registers after it.
unfoldable pub end_loop : (ℕ → Bool) → ℕ → ℕ → Registers → List (ℕ × Bool) × Registers
end_loop ovf zero i r = ([], r)
end_loop ovf (suc left) i r =
    let r' = select_reg i r in
    let (cells, r'') = end_loop ovf left (i + 1) r' in ((r'.counts r'.selected, ovf i) ∷ cells, r'')

unfoldable pub arch_pmu_end : ℕ → Registers → List (ℕ × Bool) × Registers
unfolding end_loop
arch_pmu_end n r = end_loop r.overflow n 0 r
