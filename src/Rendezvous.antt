-- ===== src/Rendezvous.antt =====
-- A run over all workers, `run_in_parallel` or `run_two_benchmarks` of src/main.cc with `worker` of
-- src/worker.c, and the barrier at which its workers meet. The threads may be interleaved in any
-- order, a locked section at a time. A thread that sleeps in `pthread_cond_wait` or
-- `pthread_barrier_wait` makes no step; that no wake-up is lost is the matter of `Mailbox`.
pub mod Stages
pub mod Inv
pub mod Steps
pub mod Reached
pub mod Moves
pub mod Safety
pub mod Progress
mod Examples
use hwvar.Base.{
  ℕ, zero, suc, ◌+◌, ◌≤◌, ◌<◌, Bool, true, false, Option, none, some, List, [], ◌∷◌, ◌++◌, ◌≡◌,
  if◌then◌else◌, set_at,
}
pub use hwvar.Benchmark.{Meeting, init_step}
use hwvar.Benchmark.{Work}
use hwvar.Mailbox.{
  Arg, Outcome, ret, abort, queue_work, wait_until_done, wait_for_work, return_finished_work,
  worker_entry, call_effect,
}

-- Where the main thread stands: before `queue_work` for the thread `i`, in `worker` for the first
-- thread, before `wait_until_done` for the thread `i`, after the loops, or ended by an assertion or
-- by a NULL pointer.
pub data Main : Type 0 where
  handing : ℕ → Main
  dirigent : Main
  awaiting : ℕ → Main
  returned aborted : Main

-- Where a thread stands in `worker`: outside of it, at the head of the loop, before the barrier with
-- the work that it took, in `pthread_barrier_wait`, or past it.
pub data Place : Type 0 where
  out top : Place
  took waiting past : Work → Place

-- `inside` counts the threads in `pthread_barrier_wait`; `calls` is the work whose repetitions a
-- thread has made.
pub record System : Type 0 where
  pub args : ℕ → Arg
  pub place : ℕ → Place
  pub main : Main
  pub inside : ℕ
  pub calls : ℕ → List Work

abbrev pub let_go : Place → Place
let_go (waiting w) = past w
let_go p = p

-- Where a thread stands after the work: the dirigent leaves `worker`.
abbrev pub next_place : Arg → Place
next_place a = if a.dirigent then out else top

abbrev pub move : System → ℕ → Arg → Place → System
move s i a p = record s { args = set_at s.args i a; place = set_at s.place i p }

-- The dirigent is not in `worker` when the run begins; the others wait for work.
abbrev pub home : ℕ → Place
home zero = out
home (suc i) = top

abbrev pub at_start : (ℕ → Arg) → System
at_start args = record { args = args; place = home; main = handing 0; inside = 0; calls = λ i. [] }

-- `cpus` threads take part, each with its work; the last loop of the main thread begins at `from`,
-- which is 0 in `run_in_parallel` and 1 in `run_two_benchmarks`.
module _ (cpus from : ℕ) (meeting : Meeting) (work : ℕ → Work) where
  pub data Step (s : System) : System → Type 0 where
    hand :
        (i : ℕ) (a : Arg)
        → s.main ≡ handing i
        → i < cpus
        → queue_work (s.args i) (work i) ≡ ret a
        → Step s (record s { args = set_at s.args i a; main = handing (i + 1) })
    hand_aborts :
        (i : ℕ)
        → s.main ≡ handing i
        → i < cpus
        → queue_work (s.args i) (work i) ≡ abort
        → Step s (record s { main = aborted })
    call_worker :
        (i now : ℕ)
        → s.main ≡ handing i
        → cpus ≤ i
        → (s.args 0).dirigent ≡ true
        → Step s (record (move s 0 (worker_entry (s.args 0) now) top) { main = dirigent })
    no_dirigent :
        (i : ℕ)
        → s.main ≡ handing i
        → cpus ≤ i
        → (s.args 0).dirigent ≡ false
        → Step s (record s { main = aborted })
    take :
        (i : ℕ) (w : Work) (a : Arg)
        → i < cpus
        → s.place i ≡ top
        → (s.args i).run ≡ true
        → wait_for_work (s.args i) ≡ ret (some w, a)
        → Step s (move s i a (took w))
    take_null :
        (i : ℕ) (a : Arg)
        → i < cpus
        → s.place i ≡ top
        → (s.args i).run ≡ true
        → wait_for_work (s.args i) ≡ ret (none, a)
        → Step s (record s { main = aborted })
    take_aborts :
        (i : ℕ)
        → i < cpus
        → s.place i ≡ top
        → (s.args i).run ≡ true
        → wait_for_work (s.args i) ≡ abort
        → Step s (record s { main = aborted })
    arrive :
        (i : ℕ) (w : Work)
        → i < cpus
        → s.place i ≡ took w
        → Step s (record s { place = set_at s.place i (waiting w); inside = s.inside + 1 })
    -- The barrier lets all go when as many have arrived as it waits for.
    release :
        s.inside ≡ meeting.barrier
        → Step s (record s { place = λ i. let_go (s.place i); inside = 0 })
    finish :
        (i : ℕ) (w : Work) (a : Arg)
        → i < cpus
        → s.place i ≡ past w
        → return_finished_work (call_effect w (s.args i)) w ≡ ret a
        → Step s
            (record (move s i a (next_place a)) { calls = set_at s.calls i (s.calls i ++ w ∷ []) })
    finish_aborts :
        (i : ℕ) (w : Work)
        → i < cpus
        → s.place i ≡ past w
        → return_finished_work (call_effect w (s.args i)) w ≡ abort
        → Step s (record s { main = aborted })
    come_back : s.main ≡ dirigent → s.place 0 ≡ out → Step s (record s { main = awaiting from })
    collect :
        (i : ℕ) (r : Option Work) (a : Arg)
        → s.main ≡ awaiting i
        → i < cpus
        → wait_until_done (s.args i) ≡ ret (r, a)
        → Step s (record s { args = set_at s.args i a; main = awaiting (i + 1) })
    all_done : (i : ℕ) → s.main ≡ awaiting i → cpus ≤ i → Step s (record s { main = returned })

  -- What some number of steps reach.
  pub data Reach (args : ℕ → Arg) : ℕ → System → Type 0 where
    start : Reach args 0 (at_start args)
    later : {n : ℕ} {s t : System} → Reach args n s → Step s t → Reach args (suc n) t
