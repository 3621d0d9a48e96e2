-- ===== src/Mailbox/Delivery.antt =====
-- The works that the main thread hands in are those that the worker runs.
use mathlib.Core.List.{append-nil, append_assoc}
use hwvar.Base.{ℕ, Bool, some, List, [], ◌∷◌, ◌++◌, ◌≡◌, sym, ap, ◌≡⟨◌⟩◌, ◌∎, arith}
use hwvar.Benchmark.{Work}
use hwvar.Mailbox.{State, queued, Arg, call_effect_lem}
use hwvar.Mailbox.System.{
  MainPc, free, posted, sleeping, woken, WorkerPc, entry, took, System, Turn, post, main, worker,
  spurious_main, spurious_worker, turn, run, fresh,
}
use hwvar.Mailbox.Invariant.{Inv, turn-Inv, fresh-Inv}

-- The work that a turn hands in, and the work that it runs.
abbrev pub accepted : Turn → MainPc → List Work
accepted (post w) free = w ∷ []
accepted _ _ = []

abbrev pub called : Turn → WorkerPc → List Work
called (worker n) (took (some w)) = w ∷ []
called _ _ = []

pub all_accepted : List Turn → System → List Work
all_accepted [] s = []
all_accepted (t ∷ ts) s = accepted t s.main ++ all_accepted ts (turn t s)

pub all_called : List Turn → System → List Work
all_called [] s = []
all_called (t ∷ ts) s = called t s.worker ++ all_called ts (turn t s)

-- The work that is handed in and not yet run.
abbrev pub pending_with : State → WorkerPc → Work → List Work
pending_with queued k w = w ∷ []
pending_with _ (took r) w = w ∷ []
pending_with _ k w = []

abbrev pub pending_of : MainPc → State → WorkerPc → List Work
pending_of (posted w) s k = pending_with s k w
pending_of (sleeping w) s k = pending_with s k w
pending_of (woken w) s k = pending_with s k w
pending_of m s k = []

abbrev pub pending : System → List Work
pending s = pending_of s.main s.arg.s s.worker

turn-pending :
    (t : Turn) (a : Arg) (m : MainPc) (k : WorkerPc)
    → let s : System = record { arg = a; main = m; worker = k } in
      Inv s → pending s ++ accepted t m ≡ called t k ++ pending (turn t s)
unfolding turn
turn-pending (post w) a free k v = ground arith
turn-pending (post w) a m k v = ground arith
turn-pending main a free k v = ground arith
turn-pending main a m k v = ground arith
turn-pending (worker n) a m entry v = ground arith
turn-pending (worker n) a m (took (some w)) v = ground (arith, call_effect_lem w a)
turn-pending (worker n) a m k v = ground arith
turn-pending spurious_main a m k v = ground arith
turn-pending spurious_worker a m k v = ground arith

append_exchange {ℓ} :
    {A : Type ℓ} (p a b c d q r : List A)
    → p ++ a ≡ c ++ q
    → q ++ b ≡ d ++ r
    → p ++ (a ++ b) ≡ (c ++ d) ++ r
append_exchange p a b c d q r e f =
    p ++ (a ++ b)
    ≡⟨ sym (append_assoc p a b) ⟩ (p ++ a) ++ b
    ≡⟨ ap (λ l. l ++ b) e ⟩ (c ++ q) ++ b
    ≡⟨ append_assoc c q b ⟩ c ++ (q ++ b)
    ≡⟨ ap (λ l. c ++ l) f ⟩ c ++ (d ++ r)
    ≡⟨ sym (append_assoc c d r) ⟩ (c ++ d) ++ r ∎

run-pending :
    (ts : List Turn) (s : System)
    → Inv s
    → pending s ++ all_accepted ts s ≡ all_called ts s ++ pending (run ts s)
unfolding run all_accepted all_called
run-pending [] s v = append-nil (pending s)
run-pending (t ∷ ts) s v =
    append_exchange (pending s) (accepted t s.main) (all_accepted ts (turn t s)) (called t s.worker)
      (all_called ts (turn t s)) (pending (turn t s)) (pending (run ts (turn t s)))
      (turn-pending t s.arg s.main s.worker v) (run-pending ts (turn t s) (turn-Inv t s v))

-- However main thread and worker are scheduled, and whatever work is queued: the calls that the
-- worker has made are the accepted works in the order of `queue_work`, each once, but for the
-- work that is handed in and not yet called, which comes last.
pub exactly_once :
    (thread cpu : ℕ) (init do_binding : Bool) (ts : List Turn)
    → let s = fresh thread cpu init do_binding in
      all_accepted ts s ≡ all_called ts s ++ pending (run ts s)
exactly_once thread cpu init do_binding ts =
    run-pending ts (fresh thread cpu init do_binding) (fresh-Inv thread cpu init do_binding)
