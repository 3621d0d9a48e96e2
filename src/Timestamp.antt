-- ===== src/Timestamp.antt =====
-- The time stamps of include/arch.h for x86_64 and for 32-bit PowerPC: a counter of 64 bits that the
-- processor hands out in two halves. The instructions that read it are parameters.
pub mod Halves
mod Examples
use Prim.Native.Nat.{bit_or}
use hwvar.Base.{ℕ, zero, suc, ◌+◌, ◌*◌, ◌/◌, ◌%◌, ◌^◌, Option, none, some, ◌==◌, if◌then◌else◌, u64}

abbrev pub upper : ℕ → ℕ
upper t = t / 2 ^ 32

abbrev pub lower : ℕ → ℕ
lower t = t % 2 ^ 32

-- `(uint64_t)high << 32 | low`
unfoldable pub joined : ℕ → ℕ → ℕ
joined high low = bit_or (u64 (high * 2 ^ 32)) low

-- `arch_timestamp_begin` for x86_64, where RDTSC finds the time stamp counter at `tsc`.
unfoldable pub arch_timestamp_begin : ℕ → ℕ
arch_timestamp_begin tsc = joined (upper tsc) (lower tsc)

-- `arch_timestamp_end` for x86_64, where RDTSCP finds the time stamp counter at `tsc`.
unfoldable pub arch_timestamp_end : ℕ → ℕ
arch_timestamp_end tsc = joined (upper tsc) (lower tsc)

-- `read_timebase` for 32-bit PowerPC, with fuel: `timebase n` is what the time base is when the
-- instruction `n` reads one of its halves, and the loop begins with the instruction `at`.
unfoldable pub read_timebase : (ℕ → ℕ) → ℕ → ℕ → Option ℕ
read_timebase timebase zero at = none
read_timebase timebase (suc left) at =
    let tbu0 = upper (timebase at) in
    let tbl = lower (timebase (at + 1)) in
    let tbu1 = upper (timebase (at + 2)) in
    let again = read_timebase timebase left (at + 3) in
    if tbu0 == tbu1 then some (joined tbu0 tbl) else again
