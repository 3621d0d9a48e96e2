-- ===== src/Driver.antt =====
-- The end of `main` in src/main.cc, from `synchronize_worker_init` to `stop_workers`: the loop over
-- the chosen benchmarks under each policy. What is printed is in `Result`.
pub mod Policies
mod Examples
use hwvar.Base.{ℕ, ◌+◌, List, [], ◌∷◌}
use hwvar.Benchmark.{Benchmark}
use hwvar.Mailbox.{Arg, Outcome, ret}
use hwvar.Runner.{
  ◌>>=◌, PairSets, run_in_parallel, run_one_by_one, run_two_benchmarks, synchronize_worker_init,
  stop_workers,
}

-- `enum policy`, less the mark of its end, which no option selects.
pub data Policy : Type 0 where
  parallel one_by_one pair : Policy

-- What `main` has worked out before: the processor that it runs on, the number of repetitions and
-- of columns (`num_pmcs + 1`), the processors of the workers, and for the policy `pair` the
-- two sets of processors and the number of processors in the two sets.
pub record Setup : Type 0 where
  pub now : ℕ
  pub iterations : ℕ
  pub columns : ℕ
  pub cpus : ℕ
  pub sets : PairSets
  pub pair_cpus : ℕ

module _ (u : Setup) where
  open u use {now, iterations, columns, cpus, sets, pair_cpus}

  abbrev pub two : Benchmark → Benchmark → List Arg → Outcome (List Arg)
  two ops1 ops2 = run_two_benchmarks now iterations columns ops1 ops2 sets pair_cpus

  -- The `for` loop. Under `pair` it takes two benchmarks at a time, the last one with itself if
  -- their number is odd.
  unfoldable pub run_all : Policy → List Benchmark → List Arg → Outcome (List Arg)
  run_all p [] as' = ret as'
  run_all parallel (b ∷ bs) as' =
      run_in_parallel now iterations columns b cpus as' >>= run_all parallel bs
  run_all one_by_one (b ∷ bs) as' =
      run_one_by_one now iterations columns b cpus as' >>= run_all one_by_one bs
  run_all pair (b ∷ []) as' = two b b as'
  run_all pair (b ∷ c ∷ bs) as' = two b c as' >>= run_all pair bs

  unfoldable pub run_main : Policy → List Benchmark → List Arg → Outcome (List Arg)
  unfolding run_all
  run_main p bs as' = synchronize_worker_init now cpus as' >>= run_all p bs >>= stop_workers cpus
