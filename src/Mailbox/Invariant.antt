-- ===== src/Mailbox/Invariant.antt =====
-- Where a unit of work is while the two threads pass it on, kept by every turn.
use hwvar.Base.{ℕ, Bool, true, false, not, none, some, List, [], ◌∷◌, ◌≡◌, ◌≢◌, arith}
use hwvar.Benchmark.{Work, stops}
use hwvar.Mailbox.{State, idle, queued, working, done, Arg, call_effect_lem}
use hwvar.Mailbox.System.{
  MainPc, free, posted, sleeping, woken, finished, joined, crashed, WorkerPc, entry, top, asleep,
  roused, took, ran, stopped, System, Turn, post, main, worker, spurious_main, spurious_worker,
  turn, run, fresh,
}

-- A worker between two jobs, with the flag `run`.
abbrev pub Between : WorkerPc → Bool → Type 0
Between entry r = r ≡ true
Between top r = Unit {0}
Between asleep r = r ≡ true
Between roused r = r ≡ true
Between stopped r = r ≡ false
Between _ r = ⊥

-- The work `w` is on its way: in the mailbox, with the worker, or in the mailbox again.
abbrev pub Under : Work → WorkerPc → State → Arg → Type 0
Under w entry queued a = (a.work ≡ some w) × (a.run ≡ true)
Under w top queued a = (a.work ≡ some w) × (a.run ≡ true)
Under w roused queued a = (a.work ≡ some w) × (a.run ≡ true)
Under w (took r) working a = (r ≡ some w) × (a.work ≡ none) × (a.run ≡ true)
Under w (ran v) working a = (v ≡ w) × (a.work ≡ none) × (a.run ≡ not (stops w))
Under w k done a = (a.work ≡ some w) × (a.run ≡ not (stops w)) × Between k a.run
Under w _ _ a = ⊥

abbrev pub Consistent : MainPc → WorkerPc → Arg → Type 0
Consistent free k a = (a.s ≡ idle) × (a.work ≡ none) × (a.run ≡ true) × Between k a.run
Consistent (posted w) k a = Under w k a.s a
Consistent (woken w) k a = Under w k a.s a
Consistent (sleeping w) k a = Under w k a.s a × (a.s ≢ done)
Consistent (finished w r) k a =
    (a.s ≡ idle) × (a.work ≡ none) × (r ≡ some w) × (a.run ≡ not (stops w)) × Between k a.run
Consistent joined k a = (a.s ≡ idle) × (a.work ≡ none) × (a.run ≡ false) × Between k a.run
Consistent crashed k a = ⊥

pub record Inv (s : System) : Type 0 where
  pub no_dirigent : s.arg.dirigent ≡ false
  pub consistent : Consistent s.main s.worker s.arg

step-Inv :
    (t : Turn) (a : Arg) (m : MainPc) (k : WorkerPc)
    → Inv (record { arg = a; main = m; worker = k })
    → Inv (turn t (record { arg = a; main = m; worker = k }))
unfolding turn
step-Inv (post w) a free k v = ground arith
step-Inv (post w) a m k v = v
step-Inv main a free k v = ground arith
step-Inv main a m k v = ground arith
step-Inv (worker n) a m entry v = ground arith
step-Inv (worker n) a m (took (some w)) v = ground (arith, call_effect_lem w a)
step-Inv (worker n) a m k v = ground arith
step-Inv spurious_main a m k v = ground arith
step-Inv spurious_worker a m k v = ground arith

-- Every turn keeps the invariant.
pub turn-Inv : (t : Turn) (s : System) → Inv s → Inv (turn t s)
turn-Inv t s v = step-Inv t s.arg s.main s.worker v

pub run-Inv : (ts : List Turn) (s : System) → Inv s → Inv (run ts s)
unfolding run
run-Inv [] s v = v
run-Inv (t ∷ ts) s v = run-Inv ts (turn t s) (turn-Inv t s v)

pub fresh-Inv : (thread cpu : ℕ) (init do_binding : Bool) → Inv (fresh thread cpu init do_binding)
fresh-Inv thread cpu init do_binding = ground arith

-- Every state that a schedule reaches from a new worker keeps the invariant.
pub reached-Inv :
    (thread cpu : ℕ) (init do_binding : Bool) (ts : List Turn)
    → Inv (run ts (fresh thread cpu init do_binding))
reached-Inv thread cpu init do_binding ts =
    run-Inv ts (fresh thread cpu init do_binding) (fresh-Inv thread cpu init do_binding)
