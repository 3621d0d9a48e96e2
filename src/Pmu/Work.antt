-- ===== src/Pmu/Work.antt =====
-- A piece of work in `worker` (src/worker.c) with the counters of x86_64: `arch_pmu_init`, the
-- repetitions, and `arch_pmu_free`.
pub mod Rows
pub mod Whole
mod Examples
use hwvar.Base.{
  ℕ, zero, suc, ◌+◌, ◌-◌, ◌*◌, Bool, true, false, List, if◌then◌else◌, ltb, u32, sub64,
}
use hwvar.Pmu.Events.{set_at, Ending, returned, ◌>>=◌}
use hwvar.Pmu.Intel.Machine.{Build, Os, Cpu, Pmu}
use hwvar.Pmu.Intel.Setup.{arch_pmu_init, arch_pmu_free}
use hwvar.Pmu.Intel.Measure.{arch_pmu_begin, arch_pmu_end}

-- The cells from a pointer on, and the array after a function has stored to them.
abbrev pub from : ℕ → (ℕ → ℕ) → ℕ → ℕ
from at d k = d (at + k)

abbrev pub back : ℕ → (ℕ → ℕ) → (ℕ → ℕ) → ℕ → ℕ
back at d e j = if ltb j at then d j else e (j - at)

-- What the work does to the processor in each repetition, and the two time stamps around it.
pub record Workload : Type 0 where
  pub run : ℕ → Cpu → Cpu
  pub start : ℕ → ℕ
  pub finish : ℕ → ℕ

module _ (b : Build) (os : Os) (w : Workload) (has_result : Bool) (num_pmcs : ℕ) where
  -- One repetition, over the cells from `work->result` on.
  unfoldable pub work_rep : Pmu → ℕ → (ℕ → ℕ) × Cpu → (ℕ → ℕ) × Cpu
  unfolding arch_pmu_begin arch_pmu_end
  work_rep p rep (d, c) =
      let offset = u32 (u32 (num_pmcs + 1) * rep) in
      let (e, c1) = arch_pmu_begin b p (from (offset + 1) d, c) in
      let (e', c2) = arch_pmu_end b os p (e, w.run rep c1) in
      if has_result
      then (set_at (back (offset + 1) d e') offset (sub64 (w.finish rep) (w.start rep)), c2)
      else (d, w.run rep c)

  -- `left` repetitions from `rep` on.
  unfoldable pub work_reps : Pmu → ℕ → ℕ → (ℕ → ℕ) × Cpu → (ℕ → ℕ) × Cpu
  unfolding work_rep
  work_reps p zero rep s = s
  work_reps p (suc left) rep s = work_reps p left (rep + 1) (work_rep p rep s)

  abbrev pub freed : (ℕ → ℕ) × Cpu → Pmu → (ℕ → ℕ) × Cpu
  freed s p = (s.0, arch_pmu_free b p s.1)

  unfoldable pub do_work : Bool → List (List ℕ) → ℕ → (ℕ → ℕ) → Cpu → Ending ((ℕ → ℕ) × Cpu)
  unfolding work_reps arch_pmu_init arch_pmu_free
  do_work mckernel pmcs reps d c = arch_pmu_init b os mckernel pmcs c >>= λ s.
      returned (freed (work_reps s.0 reps 0 (d, s.1)) s.0)
