-- ===== src/Rendezvous/Examples.antt =====
-- A run of two workers, step by step.
use hwvar.Base.{ℕ, ◌+◌, ◌*◌, ◌≤◌, ◌<◌, true, some, none, ◌≡◌, ◌≢◌, refl, arith, ◌==◌, ◌⊎◌, inl}
use hwvar.Benchmark.{Work}
use hwvar.Registry.{dgemm_ops}
use hwvar.Mailbox.{
  State, Arg, queue_work, wait_until_done, wait_for_work, return_finished_work, call_effect,
  worker_entry,
}
use hwvar.Runner.Each.{Idle}
use hwvar.Rendezvous.{
  returned, aborted, past, System, Meeting, at_start, Step, hand, call_worker, take, arrive,
  release, finish, come_back, collect, all_done, Reach, start, later,
}
use hwvar.Rendezvous.Safety.{Passed, Passed-together, Done, returned-Done}
use hwvar.Rendezvous.Progress.{Reach-goes_on}

abbrev task : ℕ → Work
task i = record { ops = dgemm_ops; arg = none; result = some i; reps = 1; num_pmcs = 0 }

abbrev pair : Meeting
pair = record { barrier = 2; works = 2 }

-- The mailbox of the thread `i`.
abbrev resting : ℕ → Arg
resting i = record {
  work = none;
  s = State.idle;
  run = true;
  init = true;
  dirigent = i == 0;
  thread = i;
  cpu = i;
  do_binding = true;
}

resting-Idle : (i : ℕ) → i < 2 → Idle (i == 0) (resting i)
resting-Idle i l = record { idle = refl; empty = refl; running = refl; flag = refl }

first : 0 < 2
first = omega arith

second : 1 < 2
second = omega arith

none_left : 2 ≤ 2
none_left = omega arith

abbrev Run : ℕ → System → Type 0
Run n s = Reach 2 0 pair task resting n s

abbrev Reached : ℕ → (System → Type 0) → Type 0
Reached n P = (s : System) × Run n s × P s

-- Both have gone through the barrier, and neither has begun its repetitions.
together : Reached 8 (λ s. (s.place 0 ≡ past (task 0)) × (s.place 1 ≡ past (task 1)))
unfolding queue_work wait_for_work worker_entry
together =
    let r0 : Run 0 (at_start resting) = start in
    let r1 = later r0 (hand 0 _ refl first refl) in
    let r2 = later r1 (hand 1 _ refl second refl) in
    let r3 = later r2 (call_worker 2 0 refl none_left refl) in
    let r4 = later r3 (take 1 (task 1) _ second refl refl refl) in
    let r5 = later r4 (take 0 (task 0) _ first refl refl refl) in
    let r6 = later r5 (arrive 0 (task 0) first refl) in
    let r7 = later r6 (arrive 1 (task 1) second refl) in (_, later r7 (release refl), (refl, refl))

-- The whole run: the second worker is through first.
all_done_run : Reached 14 (λ s. s.main ≡ returned)
unfolding queue_work wait_for_work worker_entry return_finished_work call_effect wait_until_done
all_done_run =
    let r0 : Run 0 (at_start resting) = start in
    let r1 = later r0 (hand 0 _ refl first refl) in
    let r2 = later r1 (hand 1 _ refl second refl) in
    let r3 = later r2 (call_worker 2 0 refl none_left refl) in
    let r4 = later r3 (take 1 (task 1) _ second refl refl refl) in
    let r5 = later r4 (take 0 (task 0) _ first refl refl refl) in
    let r6 = later r5 (arrive 0 (task 0) first refl) in
    let r7 = later r6 (arrive 1 (task 1) second refl) in
    let r8 = later r7 (release refl) in
    let r9 = later r8 (finish 1 (task 1) _ second refl refl) in
    let r10 = later r9 (finish 0 (task 0) _ first refl refl) in
    let r11 = later r10 (come_back refl refl) in
    let r12 = later r11 (collect 0 _ _ refl first refl) in
    let r13 = later r12 (collect 1 _ _ refl second refl) in
    (_, later r13 (all_done 2 refl none_left), refl)

Passed-together_example : Passed task together.0 1
Passed-together_example =
    Passed-together 2 0 pair task resting (omega arith) (omega arith) (λ i. refl) refl resting-Idle
      8 together.0 0 1 together.1 (omega arith) (omega arith) (inl together.2.0)

returned-Done_example : Done 0 task all_done_run.0 1
returned-Done_example =
    returned-Done 2 0 pair task resting (omega arith) (omega arith) (λ i. refl) refl resting-Idle 14
      all_done_run.0 1 all_done_run.1 all_done_run.2 (omega arith)

Reach-goes_on_example :
    (8 ≤ 9 * 2 + 3)
    × (together.0.main ≢ aborted)
    × ((together.0.main ≡ returned) ⊎ ((t : System) × Step 2 0 pair task together.0 t))
Reach-goes_on_example =
    Reach-goes_on 2 0 pair task resting 8 together.0 (omega arith) (omega arith) (λ i. refl) refl
      resting-Idle together.1
