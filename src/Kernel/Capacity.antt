-- ===== src/Kernel/Capacity.antt =====
-- The kernel of src/benchmarks/capacity.cpp, which reads one byte of every second cache line and
-- writes one of each line between. The bytes are those that `new` leaves, and an access out of
-- bounds has no result.
pub mod Lines
pub mod Rounds
mod Examples
use hwvar.Base.{
  ℕ, zero, suc, ◌+◌, ◌*◌, ◌/◌, ◌%◌, Option, none, some, if◌then◌else◌, ltb, ◌==◌, u32, u64, set_at,
}
use hwvar.Kernel.Arrays.{◌>>=◌}

-- The variables of the file, less `rounds`; `size` is also that of `data`.
pub record Capacity : Type 0 where
  pub size : ℕ
  pub linesize : ℕ
  pub num_lines : ℕ

-- `capacity_init` up to its options, for `config->size` and `config->line_size`; `none` is a
-- division by zero.
unfoldable pub capacity_init : ℕ → ℕ → Option Capacity
capacity_init size line_size =
    if line_size == 0
    then none
    else some (record {
      size = u32 (u64 (size * 2));
      linesize = u32 line_size;
      num_lines = u32 (size / line_size);
    })

abbrev pub u8 : ℕ → ℕ
u8 n = n % 256

-- One round of the loop of `work`, on `tmp` and the bytes.
unfoldable pub work_line : Capacity → ℕ → ℕ × (ℕ → ℕ) → ℕ × (ℕ → ℕ)
work_line c line (tmp, bytes) =
    let offset = u32 (line * c.linesize) in
    if line % 2 == 0
    then (u8 (u32 (tmp + u32 (bytes offset + line))), bytes)
    else (tmp, set_at bytes offset tmp)

-- The loop, with `left` lines to go.
unfoldable pub work_lines : Capacity → ℕ → ℕ → ℕ × (ℕ → ℕ) → Option (ℕ × (ℕ → ℕ))
work_lines c zero line s = some s
work_lines c (suc left) line s =
    let rest = work_lines c left (line + 1) (work_line c line s) in
    if ltb (u32 (line * c.linesize)) c.size then rest else none

-- `work`
unfoldable pub capacity_work : Capacity → (ℕ → ℕ) → Option (ℕ → ℕ)
capacity_work c bytes = work_lines c c.num_lines 0 (0, bytes) >>= λ s. some s.1

-- `call_work`, with `left` rounds to go.
unfoldable pub capacity_call : Capacity → ℕ → (ℕ → ℕ) → Option (ℕ → ℕ)
capacity_call c zero bytes = some bytes
capacity_call c (suc left) bytes = capacity_work c bytes >>= capacity_call c left
