-- ===== src/Pmu/Intel/Samples.antt =====
-- What `arch_pmu_begin` and `arch_pmu_end` for x86_64 leave in the cells of a sample.
use hwvar.Base.{
  ℕ, zero, suc, ◌+◌, ◌≤◌, ◌<◌, Bool, true, false, ◌≡◌, refl, ap₂, ◌∙◌, arith, if◌then◌else◌, ltb,
  sub64, if_else,
}
use hwvar.Pmu.Intel.Machine.{Build, Os, Cpu, Pmu}
use hwvar.Pmu.Intel.Measure.{
  raw_here, begin_slots, arch_pmu_begin, stop_global, end_slots, arch_pmu_end,
}
use hwvar.Pmu.Intel.Contexts.{as_it_stands}

-- A slot past the loop is not touched, by whichever method.
end_slots-outside :
    (b : Build) (os : Os) (p : Pmu) (c : Cpu) (left i k : ℕ) (d : ℕ → ℕ)
    → i + left ≤ k
    → end_slots b os p c left i d k ≡ d k
unfolding end_slots
end_slots-outside b os p c zero i k d h = refl
end_slots-outside b os p c (suc left) i k d h =
    end_slots-outside b os p c left (i + 1) k _ (omega arith) ∙ ground arith

begin_slots-outside :
    (b : Build) (p : Pmu) (left i k : ℕ) (s : (ℕ → ℕ) × Cpu)
    → i + left ≤ k
    → (begin_slots b p left i s).0 k ≡ s.0 k
unfolding begin_slots
begin_slots-outside b p zero i k s h = refl
begin_slots-outside b p (suc left) i k (d, c) h =
    begin_slots-outside b p left (i + 1) k _ (omega arith) ∙ ground arith

begun : (t : Bool) (s : (ℕ → ℕ) × Cpu) (c : Cpu) (k : ℕ) → (if t then (s.0, c) else s).0 k ≡ s.0 k
begun true s c k = refl
begun false s c k = refl

-- By whichever methods, on Linux or McKernel: `arch_pmu_begin` and `arch_pmu_end` store only to the
-- cells of the counters in use, whatever the processor does in between.
pub arch_pmu_end-outside :
    (b : Build) (os : Os) (p : Pmu) (c c' : Cpu) (d : ℕ → ℕ) (k : ℕ)
    → p.active ≤ k
    → (arch_pmu_end b os p ((arch_pmu_begin b p (d, c)).0, c')).0 k ≡ d k
unfolding arch_pmu_end arch_pmu_begin
arch_pmu_end-outside b os p c c' d k h =
    end_slots-outside b os p (stop_global b os p c') p.active 0 k _ (omega arith)
    ∙ begun (raw_here b p) (begin_slots b p p.active 0 (d, c)) _ k
    ∙ begin_slots-outside b p p.active 0 k (d, c) (omega arith)

-- As the file stands, on Linux: the cells hold the counts at the begin.
begin_slots-jevents :
    (p : Pmu) (left i k : ℕ) (s : (ℕ → ℕ) × Cpu)
    → p.mckernel ≡ false
    → (begin_slots as_it_stands p left i s).0 k
      ≡ (if ltb k i then s.0 k else if ltb k (i + left) then s.1.context_counts k else s.0 k)
unfolding begin_slots
begin_slots-jevents p zero i k s e = ground arith
begin_slots-jevents p (suc left) i k (d, c) e =
    begin_slots-jevents p left (i + 1) k _ e ∙ ground arith

end_slots-jevents :
    (os : Os) (p : Pmu) (c : Cpu) (left i k : ℕ) (d : ℕ → ℕ)
    → p.mckernel ≡ false
    → end_slots as_it_stands os p c left i d k ≡ (
        if ltb k i then d k else if ltb k (i + left) then sub64 (c.context_counts k) (d k) else d k)
unfolding end_slots
end_slots-jevents os p c zero i k d e = ground arith
end_slots-jevents os p c (suc left) i k d e =
    end_slots-jevents os p c left (i + 1) k _ e ∙ ground arith

in_range : (k n x y : ℕ) → k < n → (if ltb k 0 then y else if ltb k (0 + n) then x else y) ≡ x
in_range k n x y h = ground arith

-- As the file stands, on Linux: a sample is, for each counter in use, the difference in 64 bits of
-- what its context shows after and before the measured code, whatever the cells held.
pub arch_pmu_end-jevents :
    (os : Os) (p : Pmu) (c c' : Cpu) (d : ℕ → ℕ) (k : ℕ)
    → p.mckernel ≡ false
    → k < p.active
    → (arch_pmu_end as_it_stands os p ((arch_pmu_begin as_it_stands p (d, c)).0, c')).0 k
      ≡ sub64 (c'.context_counts k) (c.context_counts k)
unfolding arch_pmu_end arch_pmu_begin stop_global
arch_pmu_end-jevents os p c c' d k linux inside =
    let quiet : raw_here as_it_stands p ≡ false = if_else _ linux in
    let d' = (arch_pmu_begin as_it_stands p (d, c)).0 in
    let stopped : stop_global as_it_stands os p c' ≡ c' = if_else _ quiet in
    let begun : d' k ≡ (begin_slots as_it_stands p p.active 0 (d, c)).0 k =
      begun (raw_here as_it_stands p) (begin_slots as_it_stands p p.active 0 (d, c)) _ k in
    let first : d' k ≡ c.context_counts k =
      begun ∙ begin_slots-jevents p p.active 0 k (d, c) linux ∙ ground arith in
    end_slots-jevents os p (stop_global as_it_stands os p c') p.active 0 k d' linux
    ∙ in_range k p.active _ _ inside
    ∙ ap₂ (λ (e : Cpu) x. sub64 (e.context_counts k) x) stopped first
