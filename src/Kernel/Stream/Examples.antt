-- ===== src/Kernel/Stream/Examples.antt =====
-- The STREAM kernels on a cache of 192 bytes, with whole numbers in place of `double`.
use native.Mathlib.Nat.{mod-lt}
use hwvar.Base.{ℕ, ◌+◌, ◌*◌, ◌/◌, ◌%◌, ◌^◌, some, ◌≡◌, refl, arith}
use hwvar.Kernel.Defs.{Doubles}
use hwvar.Kernel.TuneSize.{Config, elems_per_dim, tune_size}
use hwvar.Kernel.Stream.{all, Memory, stream_work}
use hwvar.Kernel.Stream.Runs.{value_a, After, stream_work-After}

abbrev whole : Doubles
whole = record {
  Double = ℕ;
  of_ℕ = λ n. n;
  plus = λ a b. a + b;
  times = λ a b. a * b;
  over = λ a b. a / b;
  pow = λ a b. a ^ b;
  to_u32 = λ a. a % 2 ^ 32;
  to_u32-lt = λ a. mod-lt a (omega arith);
}

abbrev small : Config whole
small = record { size = 192; fill_factor = 1; line_size = 64 }

one_line : tune_size whole small 8 3 1 ≡ some 8
unfolding tune_size elems_per_dim
one_line = refl

value_twice : value_a whole all 2 ≡ 169
value_twice = refl

stream_work-After_example :
    (m : Memory whole) × (stream_work whole small all 2 ≡ some m) × After whole 8 all 2 m
stream_work-After_example = stream_work-After whole small all 2 8 one_line
