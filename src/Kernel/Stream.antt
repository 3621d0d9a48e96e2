-- ===== src/Kernel/Stream.antt =====
-- The kernels of src/benchmarks/stream.c: the arrays of `STREAM_argument_init`, which are one block of
-- memory, and the loops over them. An access outside of the block, and a read of a cell that was
-- never written, have no result. `malloc` succeeds; STREAM_TYPE is double, and OFFSET is 0.
pub mod Blocks
pub mod Values
pub mod Arrays
pub mod Runs
mod Examples
use hwvar.Base.{
  ℕ, zero, suc, ◌+◌, ◌*◌, ◌/◌, Option, none, some, if◌then◌else◌, ltb, ◌==◌, u64, set_at,
}
use hwvar.Kernel.Arrays.{◌>>=◌}
use hwvar.Kernel.Defs.{Doubles}
use hwvar.Kernel.TuneSize.{Config, tune_size}

-- `enum type`
pub data Kind : Type 0 where
  copy scale add triad all : Kind

-- `datasets`
abbrev pub datasets : Kind → ℕ
datasets copy = 2
datasets scale = 2
datasets add = 3
datasets triad = 3
datasets all = 3

module _ (f : Doubles) where
  open f use {Double, of_ℕ, plus, times}

  -- The block that `p` leads to: how many cells it has, and what they hold.
  pub record Memory : Type 0 where
    pub room : ℕ
    pub cells : ℕ → Option Double

  abbrev pub fetch : Memory → ℕ → Option Double
  fetch m i = if ltb i m.room then m.cells i else none

  abbrev pub put : Memory → ℕ → Double → Option Memory
  put m i x = if ltb i m.room then some (record m { cells = set_at m.cells i (some x) }) else none

  -- A loop over the elements from `j` on, and a loop over rounds.
  unfoldable pub for_each : (ℕ → Memory → Option Memory) → ℕ → ℕ → Memory → Option Memory
  for_each step zero j m = some m
  for_each step (suc left) j m = step j m >>= for_each step left (j + 1)

  unfoldable pub again : (Memory → Option Memory) → ℕ → Memory → Option Memory
  again body zero m = some m
  again body (suc n) m = body m >>= again body n

  -- `STREAM_Copy_`, `STREAM_Scale_`, `STREAM_Add_` and `STREAM_Triad_`; a pointer is the number of the
  -- cell that it leads to.
  abbrev pub copy_at : ℕ → ℕ → ℕ → Memory → Option Memory
  copy_at a b j m = fetch m (a + j) >>= λ x. put m (b + j) x

  abbrev pub scale_at : ℕ → ℕ → Double → ℕ → Memory → Option Memory
  scale_at a b scalar j m = fetch m (a + j) >>= λ x. put m (b + j) (times scalar x)

  abbrev pub add_at : ℕ → ℕ → ℕ → ℕ → Memory → Option Memory
  add_at a b c j m = fetch m (a + j) >>= λ x. fetch m (b + j) >>= λ y. put m (c + j) (plus x y)

  abbrev pub triad_at : ℕ → ℕ → ℕ → Double → ℕ → Memory → Option Memory
  triad_at a b c scalar j m =
      fetch m (b + j) >>= λ x. fetch m (c + j) >>= λ y. put m (a + j) (plus x (times scalar y))

  unfoldable pub stream_copy_ : ℕ → ℕ → ℕ → ℕ → Memory → Option Memory
  stream_copy_ a b size n = again (for_each (copy_at a b) size 0) n

  unfoldable pub stream_scale_ : ℕ → ℕ → Double → ℕ → ℕ → Memory → Option Memory
  stream_scale_ a b scalar size n = again (for_each (scale_at a b scalar) size 0) n

  unfoldable pub stream_add_ : ℕ → ℕ → ℕ → ℕ → ℕ → Memory → Option Memory
  stream_add_ a b c size n = again (for_each (add_at a b c) size 0) n

  unfoldable pub stream_triad_ : ℕ → ℕ → ℕ → Double → ℕ → ℕ → Memory → Option Memory
  stream_triad_ a b c scalar size n = again (for_each (triad_at a b c scalar) size 0) n

  module _ (config : Config f) where
    -- `size[kind]`, as `STREAM_Init` sets it.
    abbrev pub size_of : Kind → Option ℕ
    size_of kind = tune_size f config 8 (datasets kind) 1

    -- The loop of `STREAM_argument_init`.
    abbrev pub fill_at : ℕ → ℕ → ℕ → ℕ → Memory → Option Memory
    fill_at n size_ b j m = put m (0 + j) (of_ℕ 1) >>= λ m.
        put m (b + j) (of_ℕ 2) >>= λ m. if n == 3 then put m (b + size_ + j) (of_ℕ 0) else some m

    -- With the number of cells of each array; `b` and `c` follow `a`.
    unfoldable pub argument_init : ℕ → Option (ℕ × Memory)
    argument_init n = (if n == 2 then size_of copy else size_of all) >>= λ size_.
        for_each (fill_at n size_ size_) size_ 0
          (record { room = u64 (u64 (8 * size_) * n) / 8; cells = λ i. none })
        >>= λ m. some (size_, m)

    -- The `call` function of each benchmark, for its `ntimes`; the arrays begin at 0, `b` and `c`.
    unfoldable pub stream_call : Kind → ℕ → ℕ → ℕ → Memory → Option Memory
    stream_call copy ntimes b c m = size_of copy >>= λ size. stream_copy_ 0 b size ntimes m
    stream_call scale ntimes b c m =
        size_of scale >>= λ size. stream_scale_ b 0 (of_ℕ 3) size ntimes m
    stream_call add ntimes b c m = size_of add >>= λ size. stream_add_ 0 b c size ntimes m
    stream_call triad ntimes b c m =
        size_of triad >>= λ size. stream_triad_ 0 b c (of_ℕ 3) size ntimes m
    stream_call all ntimes b c m = size_of all >>= λ size_.
        again
          (λ m. stream_copy_ 0 b size_ 1 m >>= λ m. stream_scale_ b 0 (of_ℕ 3) size_ 1 m >>= λ m.
            stream_add_ 0 b c size_ 1 m >>= λ m. stream_triad_ 0 b c (of_ℕ 3) size_ 1 m)
          ntimes m

    -- A whole run: the arrays, and the work on them.
    unfoldable pub stream_work : Kind → ℕ → Option Memory
    stream_work kind ntimes =
        argument_init (datasets kind) >>= λ s. stream_call kind ntimes s.0 (s.0 + s.0) s.1
