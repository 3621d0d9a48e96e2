-- ===== src/Pmu/Work/Whole.antt =====
-- A whole piece of work: its samples, and that the contexts are given back.
use hwvar.Base.{
  ℕ, zero, suc, ◌+◌, ◌*◌, ◌^◌, ◌<◌, true, false, none, List, ◌≡◌, refl, ap, ap₂, ◌∙◌, arith,
  if◌then◌else◌, ltb, length,
}
use hwvar.Pmu.Events.{Ending, returned, ◌>>=◌}
use hwvar.Pmu.Intel.Machine.{Os, Cpu, Pmu}
use hwvar.Pmu.Intel.Setup.{arch_pmu_init, arch_pmu_free}
use hwvar.Pmu.Intel.Slots.{installed}
use hwvar.Pmu.Intel.Contexts.{
  as_it_stands, arch_pmu_init-active, arch_pmu_init-contexts, arch_pmu_free-contexts, if_again,
}
use hwvar.Pmu.Work.{Workload, work_reps, freed, do_work}
use hwvar.Pmu.Work.Rows.{Sample, reached, work_reps-Sample, work_reps-cpu}

reached-contexts :
    (w : Workload) (m rep k : ℕ) (c : Cpu)
    → ((r : ℕ) (c : Cpu) → (w.run r c).contexts ≡ c.contexts)
    → (reached w m rep c).contexts k ≡ c.contexts k
unfolding reached
reached-contexts w zero rep k c keeps = refl
reached-contexts w (suc m) rep k c keeps =
    reached-contexts w m (rep + 1) k (w.run rep c) keeps ∙ ap (λ f. f k) (keeps rep c)

-- As arch.h stands, on Linux, for work that has a result and does not touch the contexts of
-- libjevents, and for fewer than 2 ^ 32 cells: the work ends, with the counters that
-- `arch_pmu_init` has set up. Every repetition has left its row, with its elapsed time and what each
-- counter in use has counted during this repetition; and a slot that was in use is closed
-- afterwards, while the others are as they were.
pub do_work-Sample :
    (os : Os) (w : Workload) (pmcs : List (List ℕ)) (reps k : ℕ) (d : ℕ → ℕ) (c : Cpu)
    → length pmcs + 1 < 2 ^ 32
    → (length pmcs + 1) * reps < 2 ^ 32
    → ((rep : ℕ) (c : Cpu) → (w.run rep c).contexts ≡ c.contexts)
    → let ts = installed as_it_stands os false 0 pmcs in
      (p : Pmu) × (c1 : Cpu) × (d' : ℕ → ℕ) × (c2 : Cpu) × (arch_pmu_init as_it_stands os false pmcs
          c
        ≡ returned (p, c1))
      × (do_work as_it_stands os w true (length pmcs) false pmcs reps d c ≡ returned (d', c2))
      × (p.active ≡ length ts)
      × ((m : ℕ) → m < reps → Sample w (length pmcs) p m (reached w m 0 c1) d')
      × (c2.contexts k ≡ (if ltb k (length ts) then none else c.contexts k))
unfolding do_work
do_work-Sample os w pmcs reps k d c wide fits keeps =
    let (p, c1, run, counted, linux, here) = arch_pmu_init-contexts os pmcs c k in
    let n = length pmcs in
    let room = (arch_pmu_init-active as_it_stands os false pmcs p c c1 run).1 in
    let total : (n + 1) * (0 + reps) < 2 ^ 32 = grind arith in
    let s = work_reps as_it_stands os w true n p reps 0 (d, c1) in
    (
      p,
      c1,
      s.0,
      arch_pmu_free as_it_stands p s.1,
      run,
      ap
          (λ (o : Ending (Pmu × Cpu)). o >>= λ s. returned (
            freed as_it_stands os w true n (work_reps as_it_stands os w true n s.0 reps 0 (d, s.1))
              s.0))
          run,
      counted,
      λ m more. work_reps-Sample os w n p linux wide m reps 0 m d c1 total room more (omega arith),
      arch_pmu_free-contexts p s.1 k linux
          ∙ ap₂ (λ a o. if ltb k a then none else o) counted
              (ap (λ (e : Cpu). e.contexts k) (work_reps-cpu os w n p linux wide reps 0 (d, c1))
                ∙ reached-contexts w reps 0 k c1 keeps
                ∙ here)
          ∙ if_again (ltb k (length (installed as_it_stands os false 0 pmcs))) _ _,
    )
