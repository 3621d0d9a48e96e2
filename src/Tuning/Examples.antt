-- ===== src/Tuning/Examples.antt =====
-- Tuning with a clock that goes on by 300 milliseconds from reading to reading, and with one that was
-- late, on whole numbers in place of `double`.
use native.Mathlib.Nat.{mod-lt}
use hwvar.Base.{
  ℕ, ◌+◌, ◌*◌, ◌/◌, ◌%◌, ◌<◌, ◌≤◌, ◌^◌, true, false, some, none, [], ◌∷◌, ◌++◌, ◌≡◌, refl, arith,
  ltb, codes, map, sub64,
}
use hwvar.Benchmark.{Benchmark, Call}
use hwvar.Kernel.Defs.{Doubles}
use hwvar.Options.Values.{continues}
use hwvar.Tuning.Clock.{Rounding, rounds, division_by_zero, conclude, begin, round, tune_time}
use hwvar.Tuning.Ends.{repeated, Within, tune_time-ends, tune_time-late}
use hwvar.Tuning.Arguments.{text, init_or_tune}
use hwvar.Tuning.Auto.{given, init_or_tune-auto}

abbrev whole : Doubles
whole = record {
  Double = ℕ;
  of_ℕ = λ n. n;
  plus = λ a b. a + b;
  times = λ a b. a * b;
  over = λ a b. a / b;
  pow = λ a b. a ^ b;
  to_u32 = λ a. a % 2 ^ 32;
  to_u32-lt = λ a. mod-lt a (omega arith);
}

abbrev rounding : Rounding whole
rounding = record { nearbyint = λ d. d; at_most_uint_max = λ d. ltb d (2 ^ 32) }

abbrev fwq : Benchmark
fwq = record {
  name = codes "fwq";
  init = none;
  init_arg = true;
  reset_arg = false;
  free_arg = true;
  call = Call.kernel 3;
  state = none;
}

abbrev clock : ℕ → ℕ
clock k = 5 + k * 300000000

-- Three calls in 1.5 seconds are 40 in 20 seconds, of 10 rounds each.
three_calls :
    tune_time clock fwq whole rounding 20 10 9
    ≡ some (rounds 400, begin fwq ++ repeated 3 (round fwq))
unfolding tune_time repeated
three_calls = refl

tune_time-ends_example :
    (n : ℕ) × (n ≤ 4)
    × (tune_time clock fwq whole rounding 20 10 5
        ≡ some (
          conclude whole rounding 20 10 n (sub64 (clock (1 + n + 1)) (clock 0)),
          begin fwq ++ repeated n (round fwq),
        ))
    × Within clock fwq 1 (clock 0) n
    × ((ret : ℕ)
        → conclude whole rounding 20 10 n (sub64 (clock (1 + n + 1)) (clock 0)) ≡ rounds ret
        → (0 < ret) × (ret < 2 ^ 32))
tune_time-ends_example =
    tune_time-ends clock fwq whole rounding 20 10 4 (omega arith) (omega arith) (omega arith)

abbrev late_clock : ℕ → ℕ
late_clock k = 5 + k * 2000000000

tune_time-late_example :
    tune_time late_clock fwq whole rounding 20 10 1 ≡ some (division_by_zero, begin fwq)
tune_time-late_example =
    tune_time-late late_clock fwq whole rounding 20 10 0 (omega arith) (omega arith) refl

init_or_tune-auto_example :
    init_or_tune (λ b. continues 400) 0 1 (fwq ∷ []) (text (codes "hwvar") ∷ [])
    ≡ continues (
        ((text (codes "hwvar") ∷ []) ++ map (given (λ b. 10)) (fwq ∷ []))
        ∷ ((text (codes "hwvar") ∷ []) ++ map (given (λ b. 400)) (fwq ∷ []))
        ∷ [])
init_or_tune-auto_example =
    init_or_tune-auto (λ b. continues 400) (λ b. 400) (λ b. refl) 0 (fwq ∷ [])
      (text (codes "hwvar") ∷ []) (omega arith)
