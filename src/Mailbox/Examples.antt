-- ===== src/Mailbox/Examples.antt =====
-- The mailbox at concrete schedules.
use hwvar.Base.{true, false, none, some, List, [], ◌∷◌, ◌++◌, ◌≡◌, refl, ◌≢◌, arith}
use hwvar.Benchmark.{Work, Call}
use hwvar.Mailbox.{queued, done, call_effect}
use hwvar.Mailbox.System.{
  sleeping, crashed, asleep, broken, Turn, post, main, worker, finished, turn, run, fresh,
}
use hwvar.Mailbox.Delivery.{all_accepted, all_called, pending, exactly_once}
use hwvar.Mailbox.Progress.{Finishes, no_failure, no_lost_wakeup, job-Finishes}

abbrev work_of : Call → Work
work_of c = record {
  ops = record {
    name = [];
    init = none;
    init_arg = false;
    reset_arg = false;
    free_arg = false;
    call = c;
    state = none;
  };
  arg = none;
  result = none;
  reps = 1;
  num_pmcs = 0;
}

abbrev job : Work
job = work_of (Call.kernel 3)

abbrev stop : Work
stop = work_of Call.stop_thread

-- The worker falls asleep, is woken by the work, and the main thread sleeps until it is done.
abbrev one_round : List Turn
one_round = worker 1 ∷ worker 1 ∷ post job ∷ main ∷ worker 1 ∷ worker 1 ∷ worker 1 ∷ main ∷ []

one_round_result : (run one_round (fresh 1 1 false true)).main ≡ finished job (some job)
unfolding run turn call_effect
one_round_result = refl

abbrev posted_job : List Turn
posted_job = worker 1 ∷ worker 1 ∷ post job ∷ main ∷ []

abbrev to_the_end : List Turn
to_the_end =
    one_round ++ main ∷ post stop ∷ worker 1 ∷ worker 1 ∷ worker 1 ∷ worker 1 ∷ main ∷ main ∷ []

exactly_once_example :
    all_accepted posted_job (fresh 1 1 false true)
    ≡ all_called posted_job (fresh 1 1 false true)
      ++ pending (run posted_job (fresh 1 1 false true))
exactly_once_example = exactly_once 1 1 false true posted_job

no_failure_example :
    ((run to_the_end (fresh 1 1 false true)).main ≢ crashed)
    × ((run to_the_end (fresh 1 1 false true)).worker ≢ broken)
no_failure_example = no_failure 1 1 false true to_the_end

no_lost_wakeup_example :
    (¬ (
      ((run posted_job (fresh 1 1 false true)).main ≡ sleeping job)
      × ((run posted_job (fresh 1 1 false true)).arg.s ≡ done)))
    × (¬ (
        ((run posted_job (fresh 1 1 false true)).worker ≡ asleep)
        × ((run posted_job (fresh 1 1 false true)).arg.s ≡ queued)))
no_lost_wakeup_example = no_lost_wakeup 1 1 false true posted_job job

abbrev four_turns : List Turn
four_turns = worker 1 ∷ main ∷ worker 1 ∷ worker 1 ∷ worker 1 ∷ []

job-Finishes_example :
    Finishes job (four_turns ++ main ∷ []) (run posted_job (fresh 1 1 false true))
unfolding run turn
job-Finishes_example = job-Finishes 1 1 false true posted_job four_turns job refl (omega arith)
