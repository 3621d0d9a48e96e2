-- ===== src/Kernel/Fwq/Quantum.antt =====
-- The quantum of the fwq kernel.
use hwvar.Base.{
  ℕ, zero, suc, ◌+◌, ◌-◌, ◌*◌, ◌^◌, ◌≤◌, ◌<◌, true, some, ◌≡◌, ap, ◌∙◌, arith, leb, u64, if_then,
}
use hwvar.Kernel.Arrays.{◌>>=◌}
use hwvar.Kernel.Fwq.{count_up, fwq_rounds, fwq_call}

count_up-zero :
    (wl fuel steps : ℕ)
    → wl ≤ 2 ^ 63
    → wl < fuel
    → count_up fuel (u64 (2 ^ 64 - wl)) steps ≡ some (0, steps + wl)
unfolding count_up
count_up-zero wl zero steps small enough = absurd (omega arith)
count_up-zero zero (suc fuel) steps small enough = ap (λ k. some (0, k)) (omega arith)
count_up-zero (suc wl) (suc fuel) steps small enough =
    let negative : leb (2 ^ 63) (u64 (2 ^ 64 - suc wl)) ≡ true = ground arith in
    let next : u64 (u64 (2 ^ 64 - suc wl) + 1) ≡ u64 (2 ^ 64 - wl) = omega arith in
    if_then _ negative
    ∙ ap (λ c. count_up fuel c (steps + 1)) next
    ∙ count_up-zero wl fuel (steps + 1) (omega arith) (omega arith)
    ∙ ap (λ k. some (0, k)) (omega arith)

fwq_rounds-zero :
    (wl left steps : ℕ) → wl ≤ 2 ^ 63 → fwq_rounds wl left 0 steps ≡ some (0, steps + left * wl)
unfolding fwq_rounds
fwq_rounds-zero wl zero steps small = ap (λ k. some (0, k)) (omega arith)
fwq_rounds-zero wl (suc left) steps small =
    ap (λ o. o >>= λ r. fwq_rounds wl left r.0 r.1)
      (count_up-zero wl (suc wl) steps small (omega arith))
    ∙ fwq_rounds-zero wl left (steps + wl) small
    ∙ ap (λ k. some (0, k)) (grind arith)

fwq_rounds-suc :
    (wl left count : ℕ) → wl ≤ 2 ^ 63 → fwq_rounds wl (suc left) count 0 ≡ some (0, suc left * wl)
unfolding fwq_rounds
fwq_rounds-suc wl left count small =
    ap (λ o. o >>= λ r. fwq_rounds wl left r.0 r.1)
      (count_up-zero wl (suc wl) 0 small (omega arith))
    ∙ fwq_rounds-zero wl left (0 + wl) small
    ∙ ap (λ k. some (0, k)) (grind arith)

-- For any number of rounds but zero, `call_work` ends, stores zero, and has made exactly 2 ^ 20
-- increments for each round.
pub fwq_call-quantum : (rounds : ℕ) → 0 < rounds → fwq_call rounds ≡ some (0, rounds * 2 ^ 20)
unfolding fwq_call
fwq_call-quantum zero pos = absurd (omega arith)
fwq_call-quantum (suc left) pos = fwq_rounds-suc (2 ^ 20) left (u64 (2 ^ 64 - 2 ^ 20)) (omega arith)
