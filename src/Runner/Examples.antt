-- ===== src/Runner/Examples.antt =====
-- A dirigent and two workers.
use hwvar.Base.{ℕ, ◌==◌, Bool, true, false, none, List, [], ◌∷◌, ◌≡◌, refl, arith}
use hwvar.Mailbox.{State, Arg, ret, abort}
use hwvar.Registry.{dgemm_ops, fwq_ops, sha256}
use hwvar.Runner.{PairSets, run_in_parallel, run_one_by_one, run_two_benchmarks, stop_workers}
use hwvar.Runner.Each.{Ready, DoesAll}
use hwvar.Runner.Parallel.{run_in_parallel-Ready, run_one_by_one-Ready}
use hwvar.Runner.Pair.{run_two_benchmarks-once}
use hwvar.Runner.Stop.{AllStopped, stop_workers-AllStopped}

abbrev pub resting : ℕ → Bool → Arg
resting i dirigent = record {
  work = none;
  s = State.idle;
  run = true;
  init = true;
  dirigent = dirigent;
  thread = i;
  cpu = i;
  do_binding = true;
}

abbrev pub apart : PairSets
apart = record { in_set1 = λ i. i == 0; intersects = false; included = true }

abbrev pub crew : List Arg
crew = resting 0 true ∷ resting 1 false ∷ resting 2 false ∷ []

pub crew-Ready : Ready 2 crew
crew-Ready = ground arith

run_in_parallel-Ready_example : DoesAll (run_in_parallel 0 13 1 dgemm_ops 3 crew) (Ready 2)
run_in_parallel-Ready_example = run_in_parallel-Ready 0 13 1 dgemm_ops 2 0 crew refl crew-Ready

run_one_by_one-Ready_example : DoesAll (run_one_by_one 0 13 1 fwq_ops 3 crew) (Ready 2)
run_one_by_one-Ready_example = run_one_by_one-Ready 0 13 1 fwq_ops 2 0 crew refl crew-Ready

run_two_benchmarks-once_example :
    (bs : List Arg) × (run_two_benchmarks 0 13 1 dgemm_ops fwq_ops apart 2 crew ≡ ret bs)
    × (run_two_benchmarks 0 13 1 sha256 sha256 apart 2 bs ≡ abort)
    × (run_in_parallel 0 13 1 sha256 2 bs ≡ abort)
    × (run_one_by_one 0 13 1 sha256 2 bs ≡ abort)
run_two_benchmarks-once_example =
    run_two_benchmarks-once 0 13 1 dgemm_ops fwq_ops sha256 sha256 apart 1 1 crew refl refl refl
      refl crew-Ready

stop_workers-AllStopped_example : DoesAll (stop_workers 3 crew) (AllStopped crew)
stop_workers-AllStopped_example = stop_workers-AllStopped 2 crew (ground arith)
