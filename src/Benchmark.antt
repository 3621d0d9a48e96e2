-- ===== src/Benchmark.antt =====
-- include/worker.h and src/benchmarks/benchmark.h: the benchmark and the unit of work that the
-- parts of the program hand to one another.
use hwvar.Base.{ℕ, Bool, true, false, ◌&&◌, List, Option, none, some, ltb}

-- The functions that a `benchmark_t` may name as its `init`.
pub data Init : Type 0 where
  dgemm_init haccmk_init sha256_init fwq_init hpccg_init minife_init capacity_init : Init
  stream_init : Init

-- What a `call` pointer does: a kernel with its number in the table, or one of the two thread
-- functions of main.cc.
pub data Call : Type 0 where
  kernel : ℕ → Call
  null_thread stop_thread : Call

-- `benchmark_t`. A pointer that may be NULL and whose function is not needed by name is the test
-- whether it is set; `state` is the number that the pointer leads to.
pub record Benchmark : Type 0 where
  pub name : List ℕ
  pub init : Option Init
  pub init_arg : Bool
  pub reset_arg : Bool
  pub free_arg : Bool
  pub call : Call
  pub state : Option ℕ

-- `work_t`. `result` is the index in the result array that the pointer leads to, and `none` for
-- NULL. The barrier is that of the step which the work belongs to.
pub record Work : Type 0 where
  pub ops : Benchmark
  pub arg : Option ℕ
  pub result : Option ℕ
  pub reps : ℕ
  pub num_pmcs : ℕ

abbrev pub is_stop : Call → Bool
is_stop stop_thread = true
is_stop _ = false

-- Whether the work ends the loop of its worker: it calls `stop_thread` at least once.
abbrev pub stops : Work → Bool
stops w = is_stop w.ops.call && ltb 0 w.reps

-- `step_t` of include/worker.h: the number that the barrier waits for, and that of the works.
pub record Meeting : Type 0 where
  pub barrier : ℕ
  pub works : ℕ

-- `init_step`, where its two calls of `malloc` succeed.
abbrev pub init_step : Bool → Bool → ℕ → Option Meeting
init_step false work threads = none
init_step true false threads = none
init_step true true threads = some (record { barrier = threads; works = threads })
