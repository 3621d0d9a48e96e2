-- ===== src/Pmu/Work/Rows.antt =====
-- The samples that a piece of work leaves in its part of the result array.
use native.Mathlib.Nat.{mod-eq_of_lt}
use mathlib.Core.Path.{subst}
use hwvar.Base.{
  ℕ, zero, suc, ◌+◌, ◌-◌, ◌*◌, ◌^◌, ◌≤◌, ◌<◌, true, false, ◌≡◌, refl, ap, ◌∙◌, arith, u32, sub64,
  if_else,
}
use hwvar.Pmu.Events.{set_at}
use hwvar.Pmu.Intel.Machine.{Os, Cpu, Pmu}
use hwvar.Pmu.Intel.Measure.{raw_here, begin_slots, arch_pmu_begin, stop_global, arch_pmu_end}
use hwvar.Pmu.Intel.Contexts.{as_it_stands}
use hwvar.Pmu.Intel.Samples.{arch_pmu_end-jevents}
use hwvar.Pmu.Work.{from, back, Workload, work_rep, work_reps}

begin_slots-cpu :
    (p : Pmu) (left i : ℕ) (s : (ℕ → ℕ) × Cpu)
    → p.mckernel ≡ false
    → (begin_slots as_it_stands p left i s).1 ≡ s.1
unfolding begin_slots
begin_slots-cpu p zero i s e = refl
begin_slots-cpu p (suc left) i (d, c) e =
    begin_slots-cpu p left (i + 1) _ e ∙ ap (λ (s : (ℕ → ℕ) × Cpu). s.1) (if_else _ e)

-- The processor before a repetition, `m` after `rep`.
unfoldable pub reached : Workload → ℕ → ℕ → Cpu → Cpu
reached w zero rep c = c
reached w (suc m) rep c = reached w m (rep + 1) (w.run rep c)

-- The row of a repetition, which the processor `c` has come to: the elapsed time, and the difference
-- that each counter in use shows.
pub record Sample (w : Workload) (num_pmcs : ℕ) (p : Pmu) (rep : ℕ) (c : Cpu) (d : ℕ → ℕ)
    : Type 0 where
  pub elapsed : d ((num_pmcs + 1) * rep) ≡ sub64 (w.finish rep) (w.start rep)
  pub differences :
      (k : ℕ)
      → k < p.active
      → d ((num_pmcs + 1) * rep + 1 + k)
        ≡ sub64 ((w.run rep c).context_counts k) (c.context_counts k)

-- A sample at the cells from `o` on.
abbrev stored : ℕ → (ℕ → ℕ) → (ℕ → ℕ) → ℕ → ℕ → ℕ
stored o d e v = set_at (back (o + 1) d e) o v

stored-below : (o : ℕ) (d e : ℕ → ℕ) (v j : ℕ) → j < o → stored o d e v j ≡ d j
stored-below o d e v j h = ground arith

stored-first : (o : ℕ) (d e : ℕ → ℕ) (v : ℕ) → stored o d e v o ≡ v
stored-first o d e v = ground arith

stored-next : (o : ℕ) (d e : ℕ → ℕ) (v k : ℕ) → stored o d e v (o + 1 + k) ≡ e k
stored-next o d e v k =
    let same : o + 1 + k - (o + 1) ≡ k = omega arith in ground (arith, ap e same)

module _ (os : Os) (w : Workload) (num_pmcs : ℕ) (p : Pmu) (linux : p.mckernel ≡ false) where
  arch_pmu_begin-cpu : (d : ℕ → ℕ) (c : Cpu) → (arch_pmu_begin as_it_stands p (d, c)).1 ≡ c
  unfolding arch_pmu_begin
  arch_pmu_begin-cpu d c =
      let quiet : raw_here as_it_stands p ≡ false = if_else _ linux in
      ap (λ (s : (ℕ → ℕ) × Cpu). s.1) (if_else _ quiet) ∙ begin_slots-cpu p p.active 0 (d, c) linux

  arch_pmu_end-cpu : (d : ℕ → ℕ) (c : Cpu) → (arch_pmu_end as_it_stands os p (d, c)).1 ≡ c
  unfolding arch_pmu_end stop_global
  arch_pmu_end-cpu d c = if_else _ (if_else _ linux)

  -- The cells that one repetition leaves, from the cells `d` and the processor `c`.
  abbrev begun : ℕ → (ℕ → ℕ) → Cpu → (ℕ → ℕ) × Cpu
  begun o d c = arch_pmu_begin as_it_stands p (from (o + 1) d, c)

  abbrev counted : ℕ → ℕ → (ℕ → ℕ) → Cpu → ℕ → ℕ
  counted rep o d c =
      (arch_pmu_end as_it_stands os p ((begun o d c).0, w.run rep (begun o d c).1)).0

  abbrev rep_cells : ℕ → ℕ → (ℕ → ℕ) → Cpu → ℕ → ℕ
  rep_cells rep o d c = stored o d (counted rep o d c) (sub64 (w.finish rep) (w.start rep))

  module _ (wide : num_pmcs + 1 < 2 ^ 32) where
    abbrev cols : ℕ
    cols = num_pmcs + 1

    work_rep-cells :
        (rep : ℕ) (d : ℕ → ℕ) (c : Cpu)
        → cols * rep < 2 ^ 32
        → (work_rep as_it_stands os w true num_pmcs p rep (d, c)).0 ≡ rep_cells rep (cols * rep) d c
    unfolding work_rep
    work_rep-cells rep d c fits =
        ap (λ o. rep_cells rep o d c)
          (ap (λ x. u32 (x * rep)) (mod-eq_of_lt wide) ∙ mod-eq_of_lt fits)

    work_rep-cpu :
        (rep : ℕ) (d : ℕ → ℕ) (c : Cpu)
        → (work_rep as_it_stands os w true num_pmcs p rep (d, c)).1 ≡ w.run rep c
    unfolding work_rep
    work_rep-cpu rep d c =
        let o = u32 (u32 cols * rep) in
        arch_pmu_end-cpu (begun o d c).0 (w.run rep (begun o d c).1)
        ∙ ap (w.run rep) (arch_pmu_begin-cpu (from (o + 1) d) c)

    cols_next : (rep : ℕ) → cols * (rep + 1) ≡ cols * rep + cols
    cols_next rep = grind arith

    cols_le : (rep reps : ℕ) → rep ≤ reps → cols * rep ≤ cols * reps
    cols_le rep reps h = grind arith

    -- No repetition stores below its own row.
    work_reps-below :
        (left rep j : ℕ) (s : (ℕ → ℕ) × Cpu)
        → cols * (rep + left) < 2 ^ 32
        → j < cols * rep
        → (work_reps as_it_stands os w true num_pmcs p left rep s).0 j ≡ s.0 j
    unfolding work_reps
    work_reps-below zero rep j s fits h = refl
    work_reps-below (suc left) rep j (d, c) fits h =
        let next = cols_next rep in
        let le = cols_le rep (rep + suc left) (omega arith) in
        let same : rep + 1 + left ≡ rep + suc left = omega arith in
        work_reps-below left (rep + 1) j (work_rep as_it_stands os w true num_pmcs p rep (d, c))
          (rw same fits) (omega arith)
        ∙ ap (λ (f : ℕ → ℕ). f j) (work_rep-cells rep d c (omega arith))
        ∙ stored-below (cols * rep) d (counted rep (cols * rep) d c)
            (sub64 (w.finish rep) (w.start rep)) j h

    work_reps-first :
        (left rep : ℕ) (d : ℕ → ℕ) (c : Cpu)
        → cols * (rep + suc left) < 2 ^ 32
        → p.active ≤ num_pmcs
        → Sample w num_pmcs p rep c
            (work_reps as_it_stands os w true num_pmcs p (suc left) rep (d, c)).0
    unfolding work_reps
    work_reps-first left rep d c fits room =
        let next = cols_next rep in
        let le = cols_le rep (rep + suc left) (omega arith) in
        let same : rep + 1 + left ≡ rep + suc left = omega arith in
        let o = cols * rep in
        let time = sub64 (w.finish rep) (w.start rep) in
        let kept : (j : ℕ)
            → j < cols * (rep + 1)
            → (work_reps as_it_stands os w true num_pmcs p (suc left) rep (d, c)).0 j
              ≡ rep_cells rep o d c j =
          λ j h.
            work_reps-below left (rep + 1) j (work_rep as_it_stands os w true num_pmcs p rep (d, c))
              (rw same fits) h
            ∙ ap (λ (f : ℕ → ℕ). f j) (work_rep-cells rep d c (omega arith)) in
        record {
          elapsed = kept o (omega arith) ∙ stored-first o d (counted rep o d c) time;
          differences = λ k h.
              kept (o + 1 + k) (omega arith)
              ∙ stored-next o d (counted rep o d c) time k
              ∙ arch_pmu_end-jevents os p c (w.run rep (begun o d c).1) (from (o + 1) d) k linux h
              ∙ ap (λ (c1 : Cpu). sub64 ((w.run rep c1).context_counts k) (c.context_counts k))
                  (arch_pmu_begin-cpu (from (o + 1) d) c);
        }

    -- Every repetition has left its row.
    pub work_reps-Sample :
        (m left rep at : ℕ) (d : ℕ → ℕ) (c : Cpu)
        → cols * (rep + left) < 2 ^ 32
        → p.active ≤ num_pmcs
        → m < left
        → at ≡ rep + m
        → Sample w num_pmcs p at
            (reached w m rep c)
            (work_reps as_it_stands os w true num_pmcs p left rep (d, c)).0
    unfolding work_reps reached
    work_reps-Sample m zero rep at d c fits room more here = absurd (omega arith)
    work_reps-Sample zero (suc left) rep at d c fits room more here =
        let same : rep ≡ at = omega arith in
        subst
          (λ r.
            Sample w num_pmcs p r c
              (work_reps as_it_stands os w true num_pmcs p (suc left) rep (d, c)).0)
          same (work_reps-first left rep d c fits room)
    work_reps-Sample (suc m) (suc left) rep at d c fits room more here =
        let same : rep + 1 + left ≡ rep + suc left = omega arith in
        let s = work_rep as_it_stands os w true num_pmcs p rep (d, c) in
        subst
          (λ c'.
            Sample w num_pmcs p at (reached w m (rep + 1) c')
              (work_reps as_it_stands os w true num_pmcs p left (rep + 1) s).0)
          (work_rep-cpu rep d c)
          (work_reps-Sample m left (rep + 1) at s.0 s.1 (rw same fits) room (omega arith)
            (omega arith))

    -- The processor that the repetitions leave.
    pub work_reps-cpu :
        (left rep : ℕ) (s : (ℕ → ℕ) × Cpu)
        → (work_reps as_it_stands os w true num_pmcs p left rep s).1 ≡ reached w left rep s.1
    unfolding work_reps reached
    work_reps-cpu zero rep s = refl
    work_reps-cpu (suc left) rep (d, c) =
        work_reps-cpu left (rep + 1) (work_rep as_it_stands os w true num_pmcs p rep (d, c))
        ∙ ap (reached w left (rep + 1)) (work_rep-cpu rep d c)
