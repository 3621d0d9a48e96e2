-- ===== src/Tuning/Clock.antt =====
-- `get_time` and `tune_time` of src/main.cc: how often a benchmark runs in a second.
use hwvar.Base.{
  ℕ, zero, suc, ◌+◌, ◌*◌, ◌^◌, Bool, Option, none, some, List, [], ◌∷◌, ◌++◌, if◌then◌else◌, ◌==◌,
  ltb, u32, u64, sub64,
}
use hwvar.Benchmark.{Benchmark}
use hwvar.Kernel.Defs.{Doubles}
use hwvar.Options.Values.{Outcome, continues, exits, failure}

-- `get_time`, with `clock_gettime` or with `gettimeofday`; `none` is the failure of the call.
abbrev pub get_time : Option (ℕ × ℕ) → Outcome ℕ
get_time none = exits failure
get_time (some (sec, nsec)) = continues (u64 (sec * 1000 * 1000 * 1000 + nsec))

abbrev pub get_time_of_day : Option (ℕ × ℕ) → Outcome ℕ
get_time_of_day none = exits failure
get_time_of_day (some (sec, usec)) = continues (u64 (sec * 1000 * 1000 * 1000 + usec * 1000))

-- What `tune_time` uses of `double` beside the operations.
pub record Rounding (f : Doubles) : Type 0 where
  pub nearbyint : f.Double → f.Double
  pub at_most_uint_max : f.Double → Bool

-- The functions of the benchmark that are called.
pub data Action : Type 0 where
  init_arg reset_arg call : Action

-- How `tune_time` ends: with the number of rounds, by its assertion, or by a division by zero.
pub data Tuned : Type 0 where
  rounds : ℕ → Tuned
  failed_assert division_by_zero : Tuned

-- `rep`, how often the clock was read, and what was called.
pub record Measured : Type 0 where
  pub rep : ℕ
  pub readings : ℕ
  pub actions : List Action

abbrev pub round : Benchmark → List Action
round b = if b.reset_arg then reset_arg ∷ call ∷ [] else call ∷ []

abbrev pub begin : Benchmark → List Action
begin b = if b.init_arg then init_arg ∷ [] else []

-- `ret` where it is less than 1.
abbrev pub at_least_one : ℕ → ℕ
at_least_one ret = if ltb ret 1 then 1 else ret

module _ (f : Doubles) (r : Rounding f) (target_seconds : f.Double) (init_rounds : ℕ) where
  open f use {of_ℕ, times, over, to_u32}

  -- `rounds`
  abbrev pub wanted : ℕ → ℕ → f.Double
  wanted rep duration =
      over (times (times (times target_seconds (of_ℕ (10 ^ 9))) (of_ℕ rep)) (of_ℕ init_rounds))
        (of_ℕ duration)

  -- What follows the loop. `runtime` divides by `rep` in whole numbers.
  unfoldable pub conclude : ℕ → ℕ → Tuned
  conclude rep duration =
      let w = wanted rep duration in
      if r.at_most_uint_max w
      then (if rep == 0 then division_by_zero else rounds (at_least_one (to_u32 (r.nearbyint w))))
      else failed_assert

-- `clock k` is the result of `get_time` when it is called for the time `k`, from 0, and does not fail.
module _ (clock : ℕ → ℕ) (b : Benchmark) where
  -- The loop; `none` is the end of fuel.
  unfoldable pub tune_loop : ℕ → ℕ → Measured → Option Measured
  tune_loop zero start m = none
  tune_loop (suc fuel) start m =
      let rest = tune_loop fuel start (record {
        rep = u32 (m.rep + 1);
        readings = m.readings + 1;
        actions = m.actions ++ round b;
      }) in
      let m' = record m { readings = m.readings + 1 } in
      if ltb (clock m.readings) (u64 (start + 1000 * 1000 * 1000)) then rest else some m'

  module _ (f : Doubles) (r : Rounding f) (target_seconds : f.Double) (init_rounds : ℕ) where
    abbrev pub after_loop : ℕ → Option Measured → Option (Tuned × List Action)
    after_loop start none = none
    after_loop start (some m) =
        some (
          conclude f r target_seconds init_rounds m.rep (sub64 (clock m.readings) start),
          m.actions,
        )

    unfoldable pub tune_time : ℕ → Option (Tuned × List Action)
    unfolding tune_loop conclude
    tune_time fuel =
        after_loop (clock 0)
          (tune_loop fuel (clock 0) (record { rep = 0; readings = 1; actions = begin b }))
