-- ===== src/Pmu/Bluegene/Examples.antt =====
-- The counters of Blue Gene/Q at concrete answers of BGPM: both events are known, the set takes them,
-- and the only count is 12.
use hwvar.Base.{ℕ, true, none, some, List, [], ◌∷◌, ◌≡◌, codes, if◌then◌else◌}
use hwvar.Pmu.Events.{returned, exit_failure}
use hwvar.Pmu.Bluegene.{Bgpm, arch_pmu_init}
use hwvar.Pmu.Bluegene.Calls.{known, set_up, arch_pmu_init-known}

abbrev bgpm : Bgpm
bgpm = record {
  pevt_lsu_commit_ld_misses = 3;
  pevt_l2_misses = 8;
  init = true;
  create_event_set = true;
  add_event = λ id. true;
  apply = true;
  delete_event_set = true;
  disable = true;
  reset = true;
  start = true;
  stop = true;
  read_event = some 12;
}

abbrev misses : List ℕ
misses = codes "pevt_l2_misses"

abbrev others : List (List ℕ)
others = codes "cycles" ∷ codes "PEVT_LSU_COMMIT_LD_MISSES" ∷ []

arch_pmu_init-known_example :
    (arch_pmu_init bgpm [] ≡ returned none)
    × (arch_pmu_init bgpm (misses ∷ others) ≡ (
        if set_up bgpm (known bgpm (misses ∷ others))
        then returned (some (known bgpm (misses ∷ others)))
        else exit_failure))
arch_pmu_init-known_example = arch_pmu_init-known bgpm misses others
