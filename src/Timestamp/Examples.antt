-- ===== src/Timestamp/Examples.antt =====
-- Time stamps at concrete counters: one that starts again from 0, and one whose upper half changes
-- between the reads of the first round.
use hwvar.Base.{ℕ, ◌+◌, some, ◌≡◌, refl, arith, u64, sub64, ltb, if◌then◌else◌, ◌⊎◌}
use hwvar.Timestamp.{arch_timestamp_begin, arch_timestamp_end, read_timebase, joined}
use hwvar.Timestamp.Halves.{arch_timestamp_end-begin, read_timebase-now}

arch_timestamp_end-begin_example :
    sub64
      (arch_timestamp_end (u64 (18446744073709551610 + 20)))
      (arch_timestamp_begin (u64 18446744073709551610))
    ≡ 20
arch_timestamp_end-begin_example = arch_timestamp_end-begin 18446744073709551610 20 (omega arith)

-- The time base until it stands still.
abbrev ticking : ℕ → ℕ
ticking n = 4294967294 + (if ltb n 3 then n else 3)

-- The first round reads the upper halves 0 and 1, the second round twice 1.
torn : read_timebase ticking 2 0 ≡ some 4294967297
unfolding read_timebase joined
torn = refl

read_timebase-now_example :
    (read_timebase ticking 2 0 ≡ some (ticking 1)) ⊎ (read_timebase ticking 2 0 ≡ some (ticking 4))
read_timebase-now_example =
    read_timebase-now ticking (λ n. ground arith) (λ m n l. ground arith) 2 0 (λ n. ground arith)
      (omega arith)
