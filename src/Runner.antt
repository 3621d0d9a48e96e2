-- ===== src/Runner.antt =====
-- The functions of src/main.cc that hand work to the workers: `run_in_parallel`, `run_one_by_one`,
-- `run_two_benchmarks`, `synchronize_worker_init` and `stop_workers`. They act on the mailboxes of
-- the workers, in the order of `workers->threads`; the main thread is the worker of the first
-- mailbox, the dirigent. The order of turns is one that the mailboxes and the barrier allow: every
-- worker takes its work, then all of them pass the barrier, then each makes its repetitions and
-- returns the work. `wait` is a main thread that blocks for ever. `Rendezvous` has every other order.
pub mod Each
pub mod Barrier
pub mod Parallel
pub mod Pair
pub mod Stop
pub mod Examples
use hwvar.Base.{
  ℕ, zero, suc, ◌+◌, ◌-◌, Bool, true, false, Option, none, some, List, [], ◌∷◌, if◌then◌else◌, ltb,
  ◌==◌, codes, sub32, length,
}
use hwvar.Benchmark.{Benchmark, Work, Call, Meeting, init_step}
use hwvar.Mailbox.{
  Arg, Outcome, ret, wait, abort, queue_work, wait_until_done, wait_for_work, call_effect,
  return_finished_work, worker_entry,
}
use hwvar.Result.{result_base}

infixl 5 ◌>>=◌
abbrev pub ◌>>=◌ {ℓ κ} : {A : Type ℓ} {B : Type κ} → Outcome A → (A → Outcome B) → Outcome B
ret a >>= f = f a
wait >>= f = wait
abort >>= f = abort

-- What a worker goes on with. To take NULL is to crash.
abbrev pub taken : Option Work × Arg → Outcome (Work × Arg)
taken (some w, a) = ret (w, a)
taken (none, a) = abort

-- A round of the loop of `worker` up to the barrier.
unfoldable pub take_work : Arg → Outcome (Work × Arg)
unfolding wait_for_work
take_work a = if a.run then (wait_for_work a >>= taken) else wait

-- The round from the barrier on, as far as the mailbox shows it.
unfoldable pub depart : Work × Arg → Outcome Arg
unfolding return_finished_work
depart (w, a) = return_finished_work (call_effect w a) w

-- A round of the loop of `worker` with a barrier for one thread.
unfoldable pub serve : Arg → Outcome Arg
unfolding take_work depart
serve a = take_work a >>= depart

-- `worker` called by the main thread for the dirigent, with a barrier for one thread: the loop ends
-- after one round.
unfoldable pub worker_dirigent : ℕ → Arg → Outcome Arg
worker_dirigent now a = serve (worker_entry a now)

-- `wait_until_done` for a caller that drops the work.
unfoldable pub await : Arg → Outcome Arg
unfolding wait_until_done
await a = wait_until_done a >>= λ r. ret r.1

-- A loop over the first `n` mailboxes, from number `i`. Past the end of the array it is undefined.
unfoldable pub each : (ℕ → Arg → Outcome Arg) → ℕ → ℕ → List Arg → Outcome (List Arg)
each f zero i as' = ret as'
each f (suc n) i [] = abort
each f (suc n) i (a ∷ as') =
    let rest = each f n (i + 1) as' in f i a >>= λ a'. rest >>= λ bs. ret (a' ∷ bs)

-- The work for the thread `i`, as all three functions set it up.
abbrev pub work_for : Benchmark → ℕ → ℕ → ℕ → Work
work_for ops i repetitions num_pmcs = record {
  ops = ops;
  arg = ops.state;
  result = some (result_base i repetitions num_pmcs);
  reps = repetitions;
  num_pmcs = sub32 num_pmcs 1;
}

-- The last loop of `run_two_benchmarks`, which begins at 1.
unfoldable pub await_rest : ℕ → List Arg → Outcome (List Arg)
await_rest cpus [] = abort
await_rest cpus (a ∷ bs) = each (λ i. await) (cpus - 1) 1 bs >>= λ cs. ret (a ∷ cs)

-- The first `n` workers come to the barrier with the work that they have taken; the other mailboxes
-- follow.
unfoldable pub gather : ℕ → List Arg → Outcome (List (Work × Arg) × List Arg)
gather zero as' = ret ([], as')
gather (suc n) [] = abort
gather (suc n) (a ∷ as') =
    let rest = gather n as' in take_work a >>= λ t. rest >>= λ r. ret (t ∷ r.0, r.1)

-- The workers behind the barrier make the rest of their rounds.
unfoldable pub scatter : List (Work × Arg) → List Arg → Outcome (List Arg)
scatter [] as' = ret as'
scatter (t ∷ ts) as' = let rest = scatter ts as' in depart t >>= λ b. rest >>= λ bs. ret (b ∷ bs)

-- `pthread_barrier_wait` of all the workers of a run: they pass when as many have come as the barrier
-- was made for, and block otherwise.
abbrev pub meet : ℕ → List (Work × Arg) × List Arg → Outcome (List Arg)
meet barrier r = if length r.0 == barrier then scatter r.0 r.1 else wait

-- The call of `worker` for the dirigent, while the other workers up to `cpus` make their rounds.
unfoldable pub work_phase : ℕ → ℕ → ℕ → List Arg → Outcome (List Arg)
unfolding scatter
work_phase now barrier cpus [] = abort
work_phase now barrier cpus (a ∷ as') =
    if a.dirigent then (gather cpus (worker_entry a now ∷ as') >>= meet barrier) else abort

-- What `run_in_parallel` and `run_two_benchmarks` make of `init_step` for `cpus` workers: without a
-- step they write through NULL. `work` is the work for each thread.
unfoldable pub hand_out : ℕ → (ℕ → Arg → Work) → ℕ → List Arg → Outcome (List Arg)
hand_out now work cpus as' = elim (init_step true true cpus) [
  | none ↦ abort
  | some meeting ↦
      each (λ i a. queue_work a (work i a)) cpus 0 as' >>= work_phase now meeting.barrier cpus
]

-- What hwloc answers of the two sets of processors: membership in the first, whether they have a
-- processor in common, and whether their union, cut to that of the workers, is part of the latter.
pub record PairSets : Type 0 where
  pub in_set1 : ℕ → Bool
  pub intersects : Bool
  pub included : Bool

module _ (now repetitions num_pmcs : ℕ) where
  -- `run_in_parallel` on the first `cpus` workers, less the result array, which `Result` has.
  unfoldable pub run_in_parallel : Benchmark → ℕ → List Arg → Outcome (List Arg)
  run_in_parallel ops cpus as' =
      hand_out now (λ i a. work_for ops i repetitions num_pmcs) cpus as'
      >>= each (λ i. await) cpus 0

  -- One round of the loop of `run_one_by_one`; `i` is 0 wherever the worker is the dirigent.
  unfoldable pub run_one : Benchmark → ℕ → Arg → Outcome Arg
  run_one ops i a =
      queue_work a (work_for ops i repetitions num_pmcs)
      >>= (λ b. if b.dirigent then (if i == 0 then worker_dirigent now b else abort) else serve b)
      >>= await

  unfoldable pub run_one_by_one : Benchmark → ℕ → List Arg → Outcome (List Arg)
  run_one_by_one ops cpus as' = each (run_one ops) cpus 0 as'

  -- The work that `run_two_benchmarks` sets up for the thread `i`.
  abbrev pub work_of_two : Benchmark → Benchmark → PairSets → ℕ → Arg → Work
  work_of_two ops1 ops2 sets i a =
      work_for (if sets.in_set1 a.cpu then ops1 else ops2) i repetitions num_pmcs

  -- `run_two_benchmarks`, where `cpus` is the number of processors in the two sets.
  unfoldable pub run_two_benchmarks :
      Benchmark → Benchmark → PairSets → ℕ → List Arg → Outcome (List Arg)
  run_two_benchmarks ops1 ops2 sets cpus as' =
      if sets.intersects
      then abort
      else if sets.included
      then if ltb 0 cpus
        then (hand_out now (work_of_two ops1 ops2 sets) cpus as' >>= await_rest cpus)
        else abort
      else abort

abbrev pub null_ops : Benchmark
null_ops = record {
  name = codes "null";
  init = none;
  init_arg = false;
  reset_arg = false;
  free_arg = false;
  call = Call.null_thread;
  state = none;
}

-- `synchronize_worker_init`
unfoldable pub synchronize_worker_init : ℕ → ℕ → List Arg → Outcome (List Arg)
synchronize_worker_init now cpus as' = run_in_parallel now 1 1 null_ops cpus as'

abbrev pub stop_work : ℕ → Work
stop_work thread = record {
  ops = record {
    name = codes "stop";
    init = none;
    init_arg = false;
    reset_arg = false;
    free_arg = false;
    call = Call.stop_thread;
    state = none;
  };
  arg = some thread;
  result = none;
  reps = 1;
  num_pmcs = 0;
}

-- `stop_single_worker` up to the join of the thread, and the `continue` for the dirigent.
unfoldable pub stop_one : ℕ → Arg → Outcome Arg
stop_one i a = if a.dirigent then ret a else (queue_work a (stop_work a.thread) >>= serve >>= await)

-- `stop_workers`
unfoldable pub stop_workers : ℕ → List Arg → Outcome (List Arg)
stop_workers cpus as' = each stop_one cpus 0 as'
