-- ===== src/Kernel/Dgemm/Examples.antt =====
-- An instance of the theorem on dgemm, over whole numbers in place of `double`.
use hwvar.Base.{ℕ, ◌+◌, ◌-◌, ◌*◌, ◌/◌, ◌^◌, arith, ltb, length, codes}
use hwvar.Kernel.Defs.{Floats}
use hwvar.Kernel.Arrays.{◌>>=◌, Gives, Prefix}
use hwvar.Kernel.Dgemm.{dgemm_args, do_dgemm}
use hwvar.Kernel.Dgemm.Uniform.{after, do_dgemm-after}

abbrev whole : Floats
whole = record {
  Float = ℕ;
  literal = length;
  of_ℕ = λ n. n;
  plus = λ a b. a + b;
  minus = λ a b. a - b;
  times = λ a b. a * b;
  over = λ a b. a / b;
  pow = λ a b. a ^ b;
  less = ltb;
}

do_dgemm-after_example :
    Gives
      (Prefix 9 9 (after whole 3 2 (length (codes "1.0"))))
      (dgemm_args whole 3 2 >>= do_dgemm whole)
do_dgemm-after_example = do_dgemm-after whole 3 2 (omega arith)
