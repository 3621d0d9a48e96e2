-- ===== src/Kernel/Hacc/Examples.antt =====
-- Instances of the theorems on HACCmk, over whole numbers in place of `float`.
use hwvar.Base.{ℕ, ◌+◌, ◌-◌, ◌*◌, ◌/◌, ◌^◌, ltb, length}
use hwvar.Kernel.Defs.{Floats}
use hwvar.Kernel.Arrays.{Gives}
use hwvar.Kernel.Hacc.{hacc_size, hacc_args, hacc_work}
use hwvar.Kernel.Hacc.Memory.{Sane, hacc_work-safe}

abbrev whole : Floats
whole = record {
  Float = ℕ;
  literal = length;
  of_ℕ = λ n. n;
  plus = λ a b. a + b;
  minus = λ a b. a - b;
  times = λ a b. a * b;
  over = λ a b. a / b;
  pow = λ a b. a ^ b;
  less = ltb;
}

hacc_work-safe_example :
    Gives
      (Sane whole (hacc_size 450) 1 0)
      (hacc_work whole (hacc_size 450) 2 (hacc_args whole (hacc_size 450)))
hacc_work-safe_example = hacc_work-safe whole 450 2
