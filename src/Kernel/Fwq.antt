-- ===== src/Kernel/Fwq.antt =====
-- The kernel of src/benchmarks/fwq.c, a fixed quantum of work: `call_work` counts from a negative
-- `int64_t`, here in two's complement, up to zero.
pub mod Quantum
mod Examples
use hwvar.Base.{ℕ, zero, suc, ◌+◌, ◌-◌, ◌^◌, Option, none, some, if◌then◌else◌, leb, u64}
use hwvar.Kernel.Arrays.{◌>>=◌}

-- The inner loop, on fuel: the value of `count` at its end, and how often its body has run.
unfoldable pub count_up : ℕ → ℕ → ℕ → Option (ℕ × ℕ)
count_up zero count steps = none
count_up (suc fuel) count steps =
    let rest = count_up fuel (u64 (count + 1)) (steps + 1) in
    if leb (2 ^ 63) count then rest else some (count, steps)

-- The loop over the rounds, with `left` rounds to go.
unfoldable pub fwq_rounds : ℕ → ℕ → ℕ → ℕ → Option (ℕ × ℕ)
unfolding count_up
fwq_rounds wl zero count steps = some (count, steps)
fwq_rounds wl (suc left) count steps =
    count_up (suc wl) (u64 (2 ^ 64 - wl)) steps >>= λ r. fwq_rounds wl left r.0 r.1

-- `call_work`: what it stores in `cnt`, and the increments that it makes.
unfoldable pub fwq_call : ℕ → Option (ℕ × ℕ)
unfolding fwq_rounds
fwq_call rounds = fwq_rounds (2 ^ 20) rounds (u64 (2 ^ 64 - 2 ^ 20)) 0
