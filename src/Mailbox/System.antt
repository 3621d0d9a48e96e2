-- ===== src/Mailbox/System.antt =====
-- One worker thread (the loop of `worker` in src/worker.c) and the main thread (src/main.cc),
-- interleaved in any order over one mailbox, a locked section at a time.
use hwvar.Base.{ℕ, Bool, true, false, Option, none, some, List, [], ◌∷◌, if◌then◌else◌}
use hwvar.Benchmark.{Work, stops}
use hwvar.Mailbox.{
  State, Arg, Outcome, ret, wait, abort, queue_work, wait_until_done, wait_for_work,
  wait_for_work_round, return_finished_work, worker_entry, call_effect,
}

-- Where the main thread stands. `finished w r` follows the return of `wait_until_done` with `r`
-- for the work `w`; `joined` follows the return of the work that stops the worker.
pub data MainPc : Type 0 where
  free : MainPc
  posted sleeping woken : Work → MainPc
  finished : Work → Option Work → MainPc
  joined crashed : MainPc

-- Where the worker stands: before its loop, at the head of the loop, asleep in `wait_for_work`,
-- woken there, with the work that it took, after the call, and out of the loop.
pub data WorkerPc : Type 0 where
  entry top asleep roused : WorkerPc
  took : Option Work → WorkerPc
  ran : Work → WorkerPc
  stopped broken : WorkerPc

pub record System : Type 0 where
  pub arg : Arg
  pub main : MainPc
  pub worker : WorkerPc

-- A turn of the schedule. `post w`: the main thread calls `queue_work` with `w`. `main` and
-- `worker n` run the thread on, `n` being the processor that it is on; the last two are wake-ups
-- with no signal, which POSIX permits.
pub data Turn : Type 0 where
  post : Work → Turn
  main : Turn
  worker : ℕ → Turn
  spurious_main spurious_worker : Turn

-- `pthread_cond_signal` by the one thread wakes the other if that sleeps.
abbrev pub signal_worker : WorkerPc → WorkerPc
signal_worker asleep = roused
signal_worker k = k

abbrev pub signal_main : MainPc → MainPc
signal_main (sleeping w) = woken w
signal_main m = m

unfoldable pub queue_turn : Work → System → System
unfolding queue_work
queue_turn w s = elim (queue_work s.arg w) [
  | ret a ↦ record s { arg = a; main = posted w; worker = signal_worker s.worker }
  | _ ↦ record s { main = crashed }
]

unfoldable pub done_turn : Work → System → System
unfolding wait_until_done
done_turn w s = elim (wait_until_done s.arg) [
  | ret (r, a) ↦ record s { arg = a; main = finished w r }
  | wait ↦ record s { main = sleeping w }
  | abort ↦ record s { main = crashed }
]

-- After a stop request the main thread joins the worker, otherwise it goes on to other work.
unfoldable pub main_turn : MainPc → System → System
unfolding done_turn
main_turn (posted w) s = done_turn w s
main_turn (woken w) s = done_turn w s
main_turn (finished w r) s = record s { main = if stops w then joined else free }
main_turn _ s = s

abbrev take_turn : Outcome (Option Work × Arg) → System → System
take_turn (ret (r, a)) s = record s { arg = a; worker = took r }
take_turn wait s = record s { worker = asleep }
take_turn abort s = record s { worker = broken }

unfoldable pub worker_turn : ℕ → WorkerPc → System → System
unfolding worker_entry wait_for_work wait_for_work_round return_finished_work
worker_turn now entry s = record s { arg = worker_entry s.arg now; worker = top }
worker_turn now top s =
    if s.arg.run then take_turn (wait_for_work s.arg) s else record s { worker = stopped }
worker_turn now roused s = take_turn (wait_for_work_round s.arg) s
worker_turn now (took (some w)) s = record s { arg = call_effect w s.arg; worker = ran w }
worker_turn now (took none) s = record s { worker = broken }
worker_turn now (ran w) s = elim (return_finished_work s.arg w) [
  | ret a ↦ record s {
    arg = a;
    main = signal_main s.main;
    worker = if a.dirigent then stopped else top;
  }
  | _ ↦ record s { worker = broken }
]
worker_turn now _ s = s

abbrev post_turn : Work → MainPc → System → System
post_turn w free s = queue_turn w s
post_turn w _ s = s

abbrev wake_main : MainPc → MainPc
wake_main (sleeping w) = woken w
wake_main m = m

unfoldable pub turn : Turn → System → System
unfolding queue_turn main_turn worker_turn
turn (post w) s = post_turn w s.main s
turn main s = main_turn s.main s
turn (worker now) s = worker_turn now s.worker s
turn spurious_main s = record s { main = wake_main s.main }
turn spurious_worker s = record s { worker = signal_worker s.worker }

unfoldable pub run : List Turn → System → System
run [] s = s
run (t ∷ ts) s = run ts (turn t s)

-- The mailbox as `spawn_workers` leaves it for a worker thread, which has just been created. It
-- does not set `init`, which is what the memory held.
abbrev pub fresh : ℕ → ℕ → Bool → Bool → System
fresh thread cpu init do_binding = record {
  arg = record {
    work = none;
    s = State.idle;
    run = true;
    init = init;
    dirigent = false;
    thread = thread;
    cpu = cpu;
    do_binding = do_binding;
  };
  main = free;
  worker = entry;
}
