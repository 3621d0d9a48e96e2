-- ===== src/Pmu/Intel/Examples.antt =====
-- The counters of x86_64 at concrete events, of which the second does not resolve and the third
-- does not open.
use hwvar.Base.{
  ℕ, ◌+◌, ◌*◌, true, false, none, some, List, [], ◌∷◌, ◌≡◌, refl, if◌then◌else◌, ltb, ◌==◌, length,
  get_elem?, codes, arith, ◌≤◌,
}
use hwvar.Pmu.Events.{returned}
use hwvar.Pmu.Intel.Machine.{Os, Cpu, Pmu}
use hwvar.Pmu.Intel.Setup.{arch_pmu_init, arch_pmu_free}
use hwvar.Pmu.Intel.Measure.{arch_pmu_begin, arch_pmu_end}
use hwvar.Pmu.Intel.Slots.{installed}
use hwvar.Pmu.Intel.Contexts.{
  as_it_stands, arch_pmu_init-active, arch_pmu_init-contexts, arch_pmu_free-init,
}
use hwvar.Pmu.Intel.Samples.{arch_pmu_end-outside}

abbrev os : Os
os = record {
  resolve_event = λ name. if length name == 3 then none else some (length name);
  rdpmc_opens = λ slot config. ltb config 9;
  mck_inits = λ slot config. true;
  perf_event_open = λ config. some (config + 2);
  msr_opens = true;
  ecx = 0;
  garbage = 77;
}

abbrev cpu : Cpu
cpu = record {
  msrs = λ k. 0;
  contexts = λ k. none;
  files = λ k. false;
  counters = λ k. none;
  context_counts = λ k. 100 + k;
  file_counts = λ k. 0;
  counter_counts = λ k. 0;
}

abbrev later : Cpu
later = record cpu { context_counts = λ k. 105 + 2 * k }

abbrev events : List (List ℕ)
events = codes "CYCLES" ∷ codes "BAD" ∷ codes "UNAVAILABLE" ∷ codes "INST" ∷ []

installed-events : installed as_it_stands os false 0 events ≡ 6 ∷ 4 ∷ []
unfolding installed
installed-events = refl

arch_pmu_free-init_example :
    (p : Pmu) × (c' : Cpu) × (arch_pmu_init as_it_stands os false events cpu ≡ returned (p, c'))
    × (p.active ≡ length (installed as_it_stands os false 0 events))
    × (c'.contexts 1 ≡ (
        if ltb 1 (length (installed as_it_stands os false 0 events))
        then get_elem? (installed as_it_stands os false 0 events) 1
        else none))
    × ((arch_pmu_free as_it_stands p c').contexts 1
        ≡ (if ltb 1 (length (installed as_it_stands os false 0 events)) then none else none))
arch_pmu_free-init_example = arch_pmu_free-init os events cpu 1

abbrev set_up : Pmu
set_up = (arch_pmu_init-contexts os events cpu 0).0

arch_pmu_init-active_example :
    (set_up.active ≡ length (installed as_it_stands os false 0 events))
    × (set_up.active ≤ length events)
arch_pmu_init-active_example =
    arch_pmu_init-active as_it_stands os false events set_up cpu
      (arch_pmu_init-contexts os events cpu 0).1 (arch_pmu_init-contexts os events cpu 0).2

abbrev two_counters : Pmu
two_counters = record {
  perf_fds = λ k. 0;
  active = 2;
  mckernel = false;
  has_msr = false;
  global_ctrl = 0;
}

arch_pmu_end-outside_example :
    (arch_pmu_end as_it_stands os two_counters
        ((arch_pmu_begin as_it_stands two_counters ((λ k. k), cpu)).0, later)).0
      2
    ≡ 2
arch_pmu_end-outside_example =
    arch_pmu_end-outside as_it_stands os two_counters cpu later (λ k. k) 2 (omega arith)
