-- ===== src/Base/Words.antt =====
-- Unsigned machine words as native numbers that wrap.
use Prim.Native.Nat.{ℕ, ◌+◌, ◌-◌, ◌%◌, ◌^◌}

-- A conversion to `unsigned`, which is `uint32_t` on the platforms served.
abbrev pub u32 : ℕ → ℕ
u32 n = n % 2 ^ 32

-- A conversion to `uint64_t`, `size_t` or `unsigned long`.
abbrev pub u64 : ℕ → ℕ
u64 n = n % 2 ^ 64

-- `a - b` in `unsigned`, for operands below 2 ^ 32.
abbrev pub sub32 : ℕ → ℕ → ℕ
sub32 a b = u32 (a + 2 ^ 32 - b)

-- `a - b` in `uint64_t`, for operands below 2 ^ 64.
abbrev pub sub64 : ℕ → ℕ → ℕ
sub64 a b = u64 (a + 2 ^ 64 - b)

-- The largest `int`.
abbrev pub int_max : ℕ
int_max = 2 ^ 31 - 1
