-- ===== src/Pmu/Arm/Lifecycle.antt =====
-- A measurement on aarch64: what `arch_pmu_end` stores after `arch_pmu_begin`, and what
-- `arch_pmu_free` leaves.
use hwvar.Base.{
  ℕ, zero, suc, ◌+◌, ◌≤◌, ◌<◌, ◌^◌, ◌%◌, ◌||◌, Bool, true, false, leb, Bool-cases, inl, inr, ap₂,
  List, [], ◌∷◌, ◌≡◌, refl, ap, ◌∙◌, arith, if◌then◌else◌, ltb, length,
}
use hwvar.Pmu.Arm.Programmed.{Ready}
use hwvar.Pmu.Arm.{
  Registers, free_loop, arch_pmu_free, begin_loop, arch_pmu_begin, end_loop, arch_pmu_end,
}

-- The values of a function from `i` on.
unfoldable pub tabulate {ℓ} : {A : Type ℓ} → ℕ → ℕ → (ℕ → A) → List A
tabulate zero i f = []
tabulate (suc n) i f = f i ∷ tabulate n (i + 1) f

begin_loop-counts :
    (left i k : ℕ) (r : Registers)
    → ((begin_loop left i r).counts k
        ≡ (if ltb k i then r.counts k else if ltb k (i + left) then 0 else r.counts k))
unfolding begin_loop
begin_loop-counts zero i k r = ground arith
begin_loop-counts (suc left) i k r = begin_loop-counts left (i + 1) k _ ∙ ground arith

begin_loop-overflow :
    (left i k : ℕ) (r : Registers)
    → ((begin_loop left i r).overflow k
        ≡ (if ltb k i then r.overflow k else if ltb k (i + left) then false else r.overflow k))
unfolding begin_loop
begin_loop-overflow zero i k r = ground arith
begin_loop-overflow (suc left) i k r = begin_loop-overflow left (i + 1) k _ ∙ ground arith

-- What the counters gain by themselves while the measured code runs: an event counter has 32 bits,
-- and its flag is set when it wraps.
abbrev pub advance : (ℕ → ℕ) → Registers → Registers
advance gained r = record r {
  counts = λ k. (r.counts k + gained k) % 2 ^ 32;
  overflow = λ k. r.overflow k || leb (2 ^ 32) (r.counts k + gained k);
}

end_loop-tabulate :
    (ovf : ℕ → Bool) (left i : ℕ) (r : Registers)
    → (end_loop ovf left i r).0 ≡ tabulate left i (λ k. (r.counts k, ovf k))
unfolding end_loop tabulate
end_loop-tabulate ovf zero i r = refl
end_loop-tabulate ovf (suc left) i r =
    ap (λ l. (r.counts i, ovf i) ∷ l) (end_loop-tabulate ovf left (i + 1) _)

tabulate-eq {ℓ} :
    {A : Type ℓ} (n i : ℕ) (f g : ℕ → A)
    → ((k : ℕ) → i ≤ k → k < i + n → f k ≡ g k)
    → tabulate n i f ≡ tabulate n i g
unfolding tabulate
tabulate-eq zero i f g h = refl
tabulate-eq (suc n) i f g h =
    rw (h i (omega arith) (omega arith))
      (ap (λ l. g i ∷ l) (tabulate-eq n (i + 1) f g (λ k a b. h k (omega arith) (omega arith))))

-- A counter that has come to `count`, with its overflow flag before, as the loop shows it.
abbrev raw : ℕ → Bool → ℕ × Bool
raw count flag = (count % 2 ^ 32, flag || leb (2 ^ 32) count)

-- The cell for a counter that has gained `g`, and whether there is a warning.
abbrev pub sample : ℕ → ℕ × Bool
sample g = if ltb g (2 ^ 32) then (g, false) else (g % 2 ^ 32, true)

counts_0 : (n k : ℕ) (r : Registers) → k < n → (begin_loop n 0 r).counts k ≡ 0
counts_0 n k r l = begin_loop-counts n 0 k r ∙ ground arith

overflow_0 : (n k : ℕ) (r : Registers) → k < n → (begin_loop n 0 r).overflow k ≡ false
overflow_0 n k r l = begin_loop-overflow n 0 k r ∙ ground arith

-- For counters of 32 bits: after `arch_pmu_begin` on the same counters, `arch_pmu_end` stores one cell
-- for each counter in use, in their order, and it warns exactly of the counters that have gained 2 ^ 32
-- or more in between. The cell of any counter has what the counter has gained modulo 2 ^ 32, which is
-- all that it has gained where there is no warning, whatever the counters and their overflow flags
-- held before.
pub arch_pmu_end-begin :
    (n : ℕ) (gained : ℕ → ℕ) (r : Registers)
    → (arch_pmu_end n (advance gained (arch_pmu_begin n r))).0
      ≡ tabulate n 0 (λ k. sample (gained k))
unfolding arch_pmu_end arch_pmu_begin
arch_pmu_end-begin n gained r =
    let begun = begin_loop n 0 r in
    end_loop-tabulate (advance gained begun).overflow n 0 (advance gained begun)
    ∙ tabulate-eq n 0 _ _ (λ k _ past.
      let l : k < n = omega arith in
      ap₂ (λ c o. raw (c + gained k) o) (counts_0 n k r l) (overflow_0 n k r l) ∙ shown (gained k))
  where
    shown : (g : ℕ) → raw (0 + g) false ≡ sample g
    shown g = elim (Bool-cases (ltb g (2 ^ 32))) [
      | inl few ↦
          let whole : (0 + g) % 2 ^ 32 ≡ g = ground arith in
          let quiet : leb (2 ^ 32) (0 + g) ≡ false = ground arith in rw (whole, quiet, few) refl
      | inr many ↦
          let cut : (0 + g) % 2 ^ 32 ≡ g % 2 ^ 32 = omega arith in
          let warns : leb (2 ^ 32) (0 + g) ≡ true = ground arith in rw (cut, warns, many) refl
    ]

free_loop-enabled :
    (left i k : ℕ) (r : Registers)
    → (free_loop left i r).enabled k
      ≡ (if ltb k i then r.enabled k else if ltb k (i + left) then false else r.enabled k)
unfolding free_loop
free_loop-enabled zero i k r = ground arith
free_loop-enabled (suc left) i k r = free_loop-enabled left (i + 1) k _ ∙ ground arith

begin_loop-enabled : (left i : ℕ) (r : Registers) → (begin_loop left i r).enabled ≡ r.enabled
unfolding begin_loop
begin_loop-enabled zero i r = refl
begin_loop-enabled (suc left) i r = begin_loop-enabled left (i + 1) _

end_loop-enabled :
    (ovf : ℕ → Bool) (left i : ℕ) (r : Registers) → (end_loop ovf left i r).1.enabled ≡ r.enabled
unfolding end_loop
end_loop-enabled ovf zero i r = refl
end_loop-enabled ovf (suc left) i r = end_loop-enabled ovf left (i + 1) _

-- One repetition of the measured code, and the end of the work.
abbrev pub measured : ℕ → (ℕ → ℕ) → Registers → Registers
measured n gained r = arch_pmu_free n (arch_pmu_end n (advance gained (arch_pmu_begin n r))).1

-- After a measurement with the counters that `arch_pmu_init` has set up, `arch_pmu_free` has stopped
-- exactly these; each other counter runs if it did before.
pub arch_pmu_free-Ready :
    (ts : List ℕ) (gained : ℕ → ℕ) (r r' : Registers) (k : ℕ)
    → Ready ts r r'
    → (measured (length ts) gained r').enabled k
      ≡ (if ltb k (length ts) then false else r.enabled k)
unfolding arch_pmu_free arch_pmu_end arch_pmu_begin
arch_pmu_free-Ready ts gained r r' k h =
    let n = length ts in
    let before = advance gained (begin_loop n 0 r') in
    free_loop-enabled n 0 k (end_loop before.overflow n 0 before).1
    ∙ ap (λ f. if ltb k 0 then f k else if ltb k (0 + n) then false else f k)
        (end_loop-enabled before.overflow n 0 before ∙ begin_loop-enabled n 0 r')
    ∙ ap (λ b. if ltb k 0 then b else if ltb k (0 + n) then false else b) (h.running k)
    ∙ ground arith
