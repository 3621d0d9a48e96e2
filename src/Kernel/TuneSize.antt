-- ===== src/Kernel/TuneSize.antt =====
-- `tune_size` of src/benchmarks/benchmark.c: the number of elements per dimension for which the
-- data of a benchmark fill the wanted part of the cache.
mod Examples
use native.Mathlib.Nat.{
  mul-div_cancel, mod-eq_of_lt, div-mul-le_self, lt-mul-div-succ, mul-le-mul_right, mul_assoc,
  lt_of_le_of_lt, div-le_self, le-mul_of_pos_right,
}
use hwvar.Base.{
  false, ℕ, ◌+◌, ◌*◌, ◌/◌, ◌%◌, ◌≤◌, ◌<◌, ◌^◌, Option, none, some, ◌≡◌, arith, if◌then◌else◌, ◌==◌,
  u32, ap, if_then, if_else, ==_iff, ◌∙◌,
}
use hwvar.Kernel.Defs.{Doubles}

-- `benchmark_config_t`, less the flag for messages
pub record Config (f : Doubles) : Type 0 where
  pub size : ℕ
  pub fill_factor : f.Double
  pub line_size : ℕ

-- Whole lines of `k` elements of `d` bytes have no more bytes than the wanted elements.
lines-fit : (e k d : ℕ) → 0 < k → e * d < 2 ^ 32 → e / k * (k * d) < 2 ^ 32
lines-fit e k d some_fit small =
    lt_of_le_of_lt (rw (← mul_assoc (e / k) k d) (mul-le-mul_right d (div-mul-le_self e k))) small

module _ (f : Doubles) where
  open f use {Double, of_ℕ, times, over, pow, to_u32, to_u32-lt}

  -- `(unsigned)elems_per_dim`
  unfoldable pub elems_per_dim : Config f → ℕ → ℕ → ℕ → ℕ
  elems_per_dim config data_size datasets power =
      let cache_size = times (of_ℕ config.size) config.fill_factor in
      let elems_per_set = over (over cache_size (of_ℕ datasets)) (of_ℕ data_size) in
      to_u32 (pow elems_per_set (over (of_ℕ 1) (of_ℕ power)))

  -- `none` is a division by zero: elements that are larger than a line.
  unfoldable pub tune_size : Config f → ℕ → ℕ → ℕ → Option ℕ
  tune_size config data_size datasets power =
      let per_line = config.line_size / data_size in
      let num_lines = u32 (elems_per_dim config data_size datasets power / per_line) in
      let bytes_per_dim_aligned = u32 (num_lines * config.line_size) in
      if per_line == 0 then none else some (bytes_per_dim_aligned / data_size)

  -- Where `k` elements make a line and the wanted elements have fewer than 2 ^ 32 bytes, `tune_size`
  -- gives the largest number of elements that is not more than wanted and fills whole lines.
  pub tune_size_lem :
      (config : Config f) (data_size datasets power k : ℕ)
      → 0 < data_size
      → 0 < k
      → config.line_size ≡ k * data_size
      → elems_per_dim config data_size datasets power * data_size < 2 ^ 32
      → (lines : ℕ) × (tune_size config data_size datasets power ≡ some (lines * k))
        × (lines * k ≤ elems_per_dim config data_size datasets power)
        × (elems_per_dim config data_size datasets power < lines * k + k)
  unfolding tune_size
  tune_size_lem config data_size datasets power k pos some_fit line small =
      let e = elems_per_dim config data_size datasets power in
      let per_line : config.line_size / data_size ≡ k = rw line (mul-div_cancel k pos) in
      let wrapped : (e / k * config.line_size) % 2 ^ 32 ≡ e / k * (k * data_size) =
        ap (λ l. (e / k * l) % 2 ^ 32) line
        ∙ mod-eq_of_lt (lines-fit e k data_size some_fit small) in
      let narrow : (e / k) % 2 ^ 32 ≡ e / k =
        mod-eq_of_lt
          (lt_of_le_of_lt (div-le_self e k) (lt_of_le_of_lt (le-mul_of_pos_right e pos) small)) in
      let above : e < k * (e / k + 1) = lt-mul-div-succ e some_fit in
      let zero_test : (k == 0) ≡ false = ground arith in
      (
        e / k,
        rw
            (
              per_line,
              narrow,
              wrapped,
              ← mul_assoc (e / k) k data_size,
              mul-div_cancel (e / k * k) pos,
            )
            (if_else _ zero_test),
        div-mul-le_self e k,
        (grind arith),
      )
