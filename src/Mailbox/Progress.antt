-- ===== src/Mailbox/Progress.antt =====
-- The mailbox neither fails nor blocks, and a stop request stops the worker.
use hwvar.Base.{
  ℕ, Bool, false, Option, none, some, List, [], ◌∷◌, ◌++◌, ◌≡◌, ◌≢◌, ◌⊎◌, inl, inr, ◌+◌, ◌-◌, ◌≤◌,
  arith,
}
use hwvar.Benchmark.{Work}
use hwvar.Mailbox.{State, queued, done, Arg}
use hwvar.Mailbox.System.{
  MainPc, free, posted, sleeping, woken, finished, joined, crashed, WorkerPc, entry, top, asleep,
  roused, took, ran, stopped, broken, System, Turn, post, main, worker, spurious_main,
  spurious_worker, turn, run, fresh,
}
use hwvar.Mailbox.Invariant.{Inv, turn-Inv, reached-Inv}

Inv-sound :
    (a : Arg) (m : MainPc) (k : WorkerPc)
    → Inv (record { arg = a; main = m; worker = k })
    → (m ≢ crashed) × (k ≢ broken)
Inv-sound a free k v = ground arith
Inv-sound a m k v = ground arith

Inv-awake :
    (a : Arg) (m : MainPc) (k : WorkerPc)
    → Inv (record { arg = a; main = m; worker = k })
    → ((w : Work) → m ≡ sleeping w → a.s ≢ done) × (k ≡ asleep → a.s ≢ queued)
Inv-awake a free k v = (λ w e. ground arith, ground arith)
Inv-awake a m k v = (λ w e. ground arith, ground arith)

-- The work that the main thread waits for.
abbrev pub awaits : MainPc → Option Work
awaits (posted w) = some w
awaits (sleeping w) = some w
awaits (woken w) = some w
awaits _ = none

-- The turns that the worker still needs to return the work.
abbrev pub left_with : WorkerPc → State → ℕ
left_with entry queued = 4
left_with top queued = 3
left_with roused queued = 3
left_with (took r) s = 2
left_with (ran w) s = 1
left_with _ s = 0

abbrev pub is_worker : Turn → ℕ
is_worker (worker n) = 1
is_worker _ = 0

abbrev pub worker_turns : List Turn → ℕ
worker_turns [] = 0
worker_turns (t ∷ ts) = is_worker t + worker_turns ts

-- At some point of the schedule `wait_until_done` has returned the work.
abbrev pub Finishes : Work → List Turn → System → Type 0
Finishes w [] s = s.main ≡ finished w (some w)
Finishes w (t ∷ ts) s = (s.main ≡ finished w (some w)) ⊎ Finishes w ts (turn t s)

-- What a turn does while the main thread waits for `w`.
turn-left :
    (t : Turn) (a : Arg) (m : MainPc) (k : WorkerPc) (w : Work)
    → Inv (record { arg = a; main = m; worker = k })
    → awaits m ≡ some w
    → let s = turn t (record { arg = a; main = m; worker = k }) in
      (s.main ≡ finished w (some w))
      ⊎ ((awaits s.main ≡ some w) × (left_with s.worker s.arg.s ≤ left_with k a.s - is_worker t))
unfolding turn
turn-left (post u) a free k w v e = ground arith
turn-left (post u) a m k w v e = ground arith
turn-left main a free k w v e = ground arith
turn-left main a m k w v e = ground arith
turn-left (worker n) a m entry w v e = ground arith
turn-left (worker n) a m k w v e = ground arith
turn-left spurious_main a m k w v e = ground arith
turn-left spurious_worker a m k w v e = ground arith

main-left :
    (a : Arg) (m : MainPc) (k : WorkerPc) (w : Work)
    → Inv (record { arg = a; main = m; worker = k })
    → awaits m ≡ some w
    → left_with k a.s ≡ 0
    → (turn main (record { arg = a; main = m; worker = k })).main ≡ finished w (some w)
unfolding turn
main-left a m entry w v e z = ground arith
main-left a m k w v e z = ground arith

Finishes-now :
    (ts : List Turn) (s : System) (w : Work) → s.main ≡ finished w (some w) → Finishes w ts s
Finishes-now [] s w e = e
Finishes-now (t ∷ ts) s w e = inl e

schedule-Finishes :
    (ts : List Turn) (s : System) (w : Work)
    → Inv s
    → awaits s.main ≡ some w
    → left_with s.worker s.arg.s ≤ worker_turns ts
    → Finishes w (ts ++ main ∷ []) s
schedule-Finishes [] s w v e h = inr (main-left s.arg s.main s.worker w v e (omega arith))
schedule-Finishes (t ∷ ts) s w v e h = inr (elim (turn-left t s.arg s.main s.worker w v e) [
  | inl now ↦ Finishes-now (ts ++ main ∷ []) (turn t s) w now
  | inr later ↦ schedule-Finishes ts (turn t s) w (turn-Inv t s v) later.0 (omega (arith, later.1))
])

left_with-le : (k : WorkerPc) (s : State) → left_with k s ≤ 4
left_with-le entry s = ground arith
left_with-le k s = ground arith

Inv-joined :
    (n : ℕ) (a : Arg) (m : MainPc) (k : WorkerPc)
    → Inv (record { arg = a; main = m; worker = k })
    → m ≡ joined
    → (a.run ≡ false)
      × ((turn (worker n) (record { arg = a; main = m; worker = k })).worker ≡ stopped)
unfolding turn
Inv-joined n a m top v e = ground arith
Inv-joined n a m k v e = ground arith

-- However the two threads are scheduled, no `assert` of the four mailbox functions fails, and
-- the worker never takes a work pointer that is NULL.
pub no_failure :
    (thread cpu : ℕ) (init do_binding : Bool) (ts : List Turn)
    → let s = run ts (fresh thread cpu init do_binding) in (s.main ≢ crashed) × (s.worker ≢ broken)
no_failure thread cpu init do_binding ts =
    let s = run ts (fresh thread cpu init do_binding) in
    Inv-sound s.arg s.main s.worker (reached-Inv thread cpu init do_binding ts)

-- No wake-up is lost: the main thread is never asleep, without having been signalled, while the
-- work is done, and the worker never while work is queued.
pub no_lost_wakeup :
    (thread cpu : ℕ) (init do_binding : Bool) (ts : List Turn) (w : Work)
    → let s = run ts (fresh thread cpu init do_binding) in
      (¬ ((s.main ≡ sleeping w) × (s.arg.s ≡ done)))
      × (¬ ((s.worker ≡ asleep) × (s.arg.s ≡ queued)))
no_lost_wakeup thread cpu init do_binding ts w =
    let s = run ts (fresh thread cpu init do_binding) in
    let awake = Inv-awake s.arg s.main s.worker (reached-Inv thread cpu init do_binding ts) in
    (λ h. awake.0 w h.0 h.1, λ h. awake.1 h.0 h.1)

-- Every queued work comes back: from any reachable state in which the main thread waits for `w`,
-- each schedule that gives the worker four turns (with any other turns in between, and no
-- spurious wake-up needed) and then the main thread one lets `wait_until_done` return, and what
-- it returns is `w`.
pub job-Finishes :
    (thread cpu : ℕ) (init do_binding : Bool) (ts us : List Turn) (w : Work)
    → awaits (run ts (fresh thread cpu init do_binding)).main ≡ some w
    → 4 ≤ worker_turns us
    → Finishes w (us ++ main ∷ []) (run ts (fresh thread cpu init do_binding))
job-Finishes thread cpu init do_binding ts us w e h =
    let s = run ts (fresh thread cpu init do_binding) in
    schedule-Finishes us s w (reached-Inv thread cpu init do_binding ts) e
      (omega (arith, left_with-le s.worker s.arg.s))

-- Once the work that stops the worker has come back, the flag `run` is down and the next turn of
-- the worker leaves its loop, so that the join of `stop_single_worker` returns.
joined-stopped :
    (thread cpu now : ℕ) (init do_binding : Bool) (ts : List Turn)
    → (run ts (fresh thread cpu init do_binding)).main ≡ joined
    → let s = run ts (fresh thread cpu init do_binding) in
      (s.arg.run ≡ false) × ((turn (worker now) s).worker ≡ stopped)
joined-stopped thread cpu now init do_binding ts =
    let s = run ts (fresh thread cpu init do_binding) in
    Inv-joined now s.arg s.main s.worker (reached-Inv thread cpu init do_binding ts)
