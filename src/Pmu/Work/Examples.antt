-- ===== src/Pmu/Work/Examples.antt =====
-- A piece of work of two repetitions with two counters, in each of which every context counts 3.
use hwvar.Base.{
  ℕ, ◌+◌, ◌*◌, ◌<◌, true, false, none, some, List, [], ◌∷◌, ◌≡◌, refl, arith, if◌then◌else◌, ltb,
  length, codes,
}
use hwvar.Pmu.Events.{returned}
use hwvar.Pmu.Intel.Machine.{Os, Cpu, Pmu}
use hwvar.Pmu.Intel.Setup.{arch_pmu_init}
use hwvar.Pmu.Intel.Slots.{installed}
use hwvar.Pmu.Intel.Contexts.{as_it_stands}
use hwvar.Pmu.Work.{Workload, do_work}
use hwvar.Pmu.Work.Rows.{Sample, reached}
use hwvar.Pmu.Work.Whole.{do_work-Sample}

abbrev os : Os
os = record {
  resolve_event = λ name. some (length name);
  rdpmc_opens = λ slot config. ltb config 9;
  mck_inits = λ slot config. true;
  perf_event_open = λ config. some (config + 2);
  msr_opens = true;
  ecx = 0;
  garbage = 77;
}

abbrev cpu : Cpu
cpu = record {
  msrs = λ k. 0;
  contexts = λ k. none;
  files = λ k. false;
  counters = λ k. none;
  context_counts = λ k. 100 + k;
  file_counts = λ k. 0;
  counter_counts = λ k. 0;
}

abbrev work : Workload
work = record {
  run = λ rep c. record c { context_counts = λ k. c.context_counts k + 3 };
  start = λ rep. 10 * rep;
  finish = λ rep. 10 * rep + 4;
}

abbrev events : List (List ℕ)
events = codes "CYCLES" ∷ codes "INST" ∷ []

do_work-Sample_example :
    (p : Pmu) × (c1 : Cpu) × (d' : ℕ → ℕ) × (c2 : Cpu) × (arch_pmu_init as_it_stands os false events
        cpu
      ≡ returned (p, c1))
    × (do_work as_it_stands os work true (length events) false events 2 (λ k. 9) cpu
        ≡ returned (d', c2))
    × (p.active ≡ length (installed as_it_stands os false 0 events))
    × ((m : ℕ) → m < 2 → Sample work (length events) p m (reached work m 0 c1) d')
    × (c2.contexts 1
        ≡ (if ltb 1 (length (installed as_it_stands os false 0 events)) then none else none))
do_work-Sample_example =
    do_work-Sample os work events 2 1 (λ k. 9) cpu (omega arith) (omega arith) (λ rep c. refl)
