-- ===== src/Mailbox.antt =====
-- `struct arg` of include/worker.h, the mailbox of one worker, and the four functions of
-- src/worker.c that pass a unit of work through it. Each function is the section that runs with
-- `arg->lock` held; a `pthread_cond_wait` gives the lock up and is the outcome `wait`.
pub mod System
pub mod Invariant
pub mod Delivery
pub mod Progress
mod Examples
use hwvar.Base.{
  ℕ, zero, suc, Bool, true, false, ◌&&◌, Option, none, some, if◌then◌else◌, if_then, if_else, ltb,
  lt→ltb, ◌≡◌, refl, sym, ◌∙◌, arith,
}
use hwvar.Benchmark.{Work, Call, kernel, null_thread, stop_thread, is_stop, stops}

-- `enum state`
pub data State : Type 0 where
  idle queued working done : State

-- `struct arg`, less the lock, the condition variable and what only hwloc reads.
pub record Arg : Type 0 where
  pub work : Option Work
  pub s : State
  pub run : Bool
  pub init : Bool
  pub dirigent : Bool
  pub thread : ℕ
  pub cpu : ℕ
  pub do_binding : Bool

-- How a locked section ends: it returns, it goes to sleep on `arg->cv`, or an `assert` fails.
pub data Outcome {ℓ} (A : Type ℓ) : Type ℓ where
  ret : A → Outcome A
  wait abort : Outcome A

abbrev pub is_idle : State → Bool
is_idle idle = true
is_idle _ = false

abbrev pub is_queued : State → Bool
is_queued queued = true
is_queued _ = false

abbrev pub is_working : State → Bool
is_working working = true
is_working _ = false

abbrev pub is_done : State → Bool
is_done done = true
is_done _ = false

-- `queue_work`
unfoldable pub queue_work : Arg → Work → Outcome Arg
queue_work a w = elim a.work [
  | some _ ↦ abort
  | none ↦ if is_idle a.s then ret (record a { work = some w; s = queued }) else abort
]

-- `wait_until_done`: one round of its loop, on entry and after each wake-up alike.
unfoldable pub wait_until_done : Arg → Outcome (Option Work × Arg)
wait_until_done a = if is_done a.s then ret (a.work, record a { work = none; s = idle }) else wait

-- One round of the loop of `wait_for_work`.
unfoldable pub wait_for_work_round : Arg → Outcome (Option Work × Arg)
wait_for_work_round a =
    if is_queued a.s then ret (a.work, record a { work = none; s = working }) else wait

-- `wait_for_work` from its entry: the `assert` is met once, before the loop.
unfoldable pub wait_for_work : Arg → Outcome (Option Work × Arg)
unfolding wait_for_work_round
wait_for_work a = if is_working a.s then abort else wait_for_work_round a

-- `return_finished_work`
unfoldable pub return_finished_work : Arg → Work → Outcome Arg
return_finished_work a w = elim a.work [
  | some _ ↦ abort
  | none ↦ if is_working a.s then ret (record a { work = some w; s = done }) else abort
]

-- `bind_thread`, where `now` is the processor that `sched_getcpu` reports. With binding on, the
-- function only asks the system to move the thread, and reports whether it did.
unfoldable pub bind_thread : Arg → ℕ → Arg
bind_thread a now = if a.do_binding then a else record a { cpu = now }

-- `worker` up to its loop.
unfoldable pub worker_entry : Arg → ℕ → Arg
unfolding bind_thread
worker_entry a now =
    let a' = record a { run = true } in
    if a'.init then a' else record (bind_thread a' now) { init = true }

-- What `work->ops->call` does to the mailbox: `stop_thread` clears `run`, a kernel and
-- `null_thread` leave it alone.
abbrev pub call_once : Call → Arg → Arg
call_once stop_thread a = record a { run = false }
call_once null_thread a = a
call_once (kernel i) a = a

-- The calls of the repetitions.
unfoldable pub calls : Call → ℕ → Arg → Arg
calls c zero a = a
calls c (suc reps) a = calls c reps (call_once c a)

-- What the repetitions of a work do to the mailbox.
unfoldable pub call_effect : Work → Arg → Arg
unfolding calls
call_effect w a = calls w.ops.call w.reps a

calls-kernel : (i n : ℕ) (a : Arg) → calls (kernel i) n a ≡ a
unfolding calls
calls-kernel i zero a = refl
calls-kernel i (suc n) a = calls-kernel i n a

calls-null_thread : (n : ℕ) (a : Arg) → calls null_thread n a ≡ a
unfolding calls
calls-null_thread zero a = refl
calls-null_thread (suc n) a = calls-null_thread n a

calls-stop_thread : (n : ℕ) (a : Arg) → a.run ≡ false → calls stop_thread n a ≡ a
unfolding calls
calls-stop_thread zero a down = refl
calls-stop_thread (suc n) a down =
    calls-stop_thread n (record a { run = false }) refl ∙ (λ i. record a { run = sym down i })

calls_lem :
    (c : Call) (n : ℕ) (a : Arg)
    → calls c n a ≡ (if is_stop c && ltb 0 n then record a { run = false } else a)
unfolding calls
calls_lem (kernel i) n a = calls-kernel i n a
calls_lem null_thread n a = calls-null_thread n a
calls_lem stop_thread zero a = refl
calls_lem stop_thread (suc n) a =
    calls-stop_thread n (record a { run = false }) refl
    ∙ sym (if_then a (lt→ltb 0 (suc n) (omega arith)))

-- The flag `run` is down after work that stops its worker, and nothing has changed after any other.
pub call_effect_lem :
    (w : Work) (a : Arg) → call_effect w a ≡ (if stops w then record a { run = false } else a)
unfolding call_effect
call_effect_lem w a = calls_lem w.ops.call w.reps a
