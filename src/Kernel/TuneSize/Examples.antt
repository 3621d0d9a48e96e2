-- ===== src/Kernel/TuneSize/Examples.antt =====
-- An instance of `tune_size_lem`: half of the elements of a cache of 32 KiB, over whole numbers in
-- place of `double`.
use native.Mathlib.Nat.{mod-lt}
use hwvar.Base.{ℕ, ◌+◌, ◌*◌, ◌/◌, ◌%◌, ◌≤◌, ◌<◌, ◌^◌, ◌≡◌, refl, some, arith}
use hwvar.Kernel.Defs.{Doubles}
use hwvar.Kernel.TuneSize.{Config, elems_per_dim, tune_size, tune_size_lem}

abbrev whole : Doubles
whole = record {
  Double = ℕ;
  of_ℕ = λ n. n;
  plus = λ a b. a + b;
  times = λ a b. a * b;
  over = λ a b. a / b;
  pow = λ a b. a ^ b;
  to_u32 = λ a. a % 2 ^ 32;
  to_u32-lt = λ a. mod-lt a (omega arith);
}

abbrev l1 : Config whole
l1 = record { size = 32768; fill_factor = 1; line_size = 64 }

tune_size_lem_example :
    (lines : ℕ) × (tune_size whole l1 8 3 1 ≡ some (lines * 8))
    × (lines * 8 ≤ elems_per_dim whole l1 8 3 1)
    × (elems_per_dim whole l1 8 3 1 < lines * 8 + 8)
unfolding elems_per_dim
tune_size_lem_example =
    tune_size_lem whole l1 8 3 1 8 (omega arith) (omega arith) refl (omega arith)
