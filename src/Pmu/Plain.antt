-- ===== src/Pmu/Plain.antt =====
-- The platforms of include/arch.h without counters: SPARC, x86_64 without libjevents, Blue Gene/Q
-- without BGPM, and PowerPC; and a piece of work in `worker` (src/worker.c) there.
pub mod Columns
mod Examples
use hwvar.Base.{ℕ, zero, suc, ◌+◌, ◌*◌, Bool, if◌then◌else◌, ◌==◌, u32, sub64}
use hwvar.Pmu.Events.{set_at, Ending, returned, exit_failure, ◌>>=◌}
use hwvar.Pmu.Work.{from, back}

pub data Platform : Type 0 where
  sparc x86_64 bgq ppc : Platform

-- What `arch_pmu_init` returns on all of them.
pub data Null : Type 0 where
  null : Null

unfoldable pub arch_pmu_init : Platform → ℕ → Ending Null
arch_pmu_init sparc num_pmcs = returned null
arch_pmu_init x86_64 num_pmcs = if num_pmcs == 0 then returned null else exit_failure
arch_pmu_init bgq num_pmcs = returned null
arch_pmu_init ppc num_pmcs = returned null

abbrev pub arch_pmu_begin : (ℕ → ℕ) → ℕ → ℕ
arch_pmu_begin cells = cells

abbrev pub arch_pmu_end : (ℕ → ℕ) → ℕ → ℕ
arch_pmu_end cells = cells

-- `start` and `finish` are the time stamps of each repetition.
module _ (start finish : ℕ → ℕ) (has_result : Bool) (num_pmcs : ℕ) where
  -- One repetition, over the cells from `work->result` on.
  unfoldable pub plain_rep : ℕ → (ℕ → ℕ) → ℕ → ℕ
  plain_rep rep d =
      let offset = u32 (u32 (num_pmcs + 1) * rep) in
      let begun = back (offset + 1) d (arch_pmu_begin (from (offset + 1) d)) in
      let ended = back (offset + 1) begun (arch_pmu_end (from (offset + 1) begun)) in
      if has_result then set_at ended offset (sub64 (finish rep) (start rep)) else d

  -- `left` repetitions from `rep` on.
  unfoldable pub plain_reps : ℕ → ℕ → (ℕ → ℕ) → ℕ → ℕ
  plain_reps zero rep d = d
  plain_reps (suc left) rep d = plain_reps left (rep + 1) (plain_rep rep d)

  unfoldable pub plain_work : Platform → ℕ → (ℕ → ℕ) → Ending (ℕ → ℕ)
  unfolding arch_pmu_init
  plain_work p reps d = arch_pmu_init p num_pmcs >>= λ pmus. returned (plain_reps reps 0 d)
