-- ===== src/Runner/Parallel.antt =====
-- A run leaves every mailbox at rest, ready for the next run.
use hwvar.Base.{
  ℕ, suc, ◌+◌, true, false, List, [], ◌∷◌, ◌≡◌, refl, if_then, if_else, ap, sym, ◌∙◌, ◌&&◌, ltb,
}
use hwvar.Benchmark.{Benchmark, Work, Call, stops, is_stop}
use hwvar.Mailbox.{queued, done, Arg, queue_work}
use hwvar.Runner.Barrier.{Phase, work-Phase}
use hwvar.Runner.{each, ◌>>=◌, await, hand_out, work_for, run_in_parallel, run_one, run_one_by_one}
use hwvar.Runner.Each.{
  Idle, Loaded, Ready, Does, DoesAll, DoesAll-bind, each-Split, All-Split, Split-All,
  queue_work-Loaded, serve-Loaded, await-Idle, worker_dirigent-Loaded,
}

pub goes_on : (c : Call) (reps : ℕ) → is_stop c ≡ false → (is_stop c && ltb 0 reps) ≡ false
goes_on c reps go = rw go refl

queue-Phase :
    (work : ℕ → Arg → Work) (n m : ℕ) (as' : List Arg)
    → ((i : ℕ) (a : Arg) → stops (work i a) ≡ false)
    → Ready (n + m) as'
    → DoesAll (each (λ i a. queue_work a (work i a)) (suc n) 0 as') (Phase queued n m)
unfolding each
queue-Phase work n m [] go v = absurd v
queue-Phase work n m (a ∷ as') go v =
    let (b, e, p) = queue_work-Loaded (work 0 a) (go 0 a) v.0 in
    let (bs, g, q) =
      each-Split (λ i c. queue_work c (work i c)) (Idle false) (Loaded queued false) (Idle false)
        (λ i c h. queue_work-Loaded (work i c) (go i c) h) n m (0 + 1) as'
        (All-Split (Idle false) (Idle false) n m as' (λ c h. h) (sym v.2) v.1) in
    (b ∷ bs, rw (e, g), (p, q))

pub hand_out-Phase :
    (now : ℕ) (work : ℕ → Arg → Work) (n m : ℕ) (as' : List Arg)
    → ((i : ℕ) (a : Arg) → stops (work i a) ≡ false)
    → Ready (n + m) as'
    → DoesAll (hand_out now work (suc n) as') (Phase done n m)
unfolding hand_out
hand_out-Phase now work n m as' go v =
    DoesAll-bind (Phase done n m) (queue-Phase work n m as' go v) (work-Phase now n m)

await-Phase :
    (n m : ℕ) (as' : List Arg)
    → Phase done n m as'
    → DoesAll (each (λ i. await) (suc n) 0 as') (Ready (n + m))
unfolding each
await-Phase n m [] v = absurd v
await-Phase n m (a ∷ as') v =
    let (b, e, p) = await-Idle v.0 in
    let (bs, g, q) =
      each-Split (λ i. await) (Loaded done false) (Idle false) (Idle false) (λ i c h. await-Idle h)
        n m (0 + 1) as' v.1 in
    let (all, len) = Split-All (Idle false) n m bs q in (b ∷ bs, rw (e, g), (p, all, len))

-- From mailboxes at rest `run_in_parallel` returns: no assertion fails, no thread blocks for ever,
-- and every mailbox is at rest again. The benchmark does not stop its workers; the run
-- uses `n + 1` of the `n + m + 1` workers.
pub run_in_parallel-Ready :
    (now reps num_pmcs : ℕ) (ops : Benchmark) (n m : ℕ) (as' : List Arg)
    → is_stop ops.call ≡ false
    → Ready (n + m) as'
    → DoesAll (run_in_parallel now reps num_pmcs ops (suc n) as') (Ready (n + m))
unfolding run_in_parallel
run_in_parallel-Ready now reps num_pmcs ops n m as' go v =
    DoesAll-bind (Ready (n + m))
      (hand_out-Phase now (λ i a. work_for ops i reps num_pmcs) n m as' (λ i a. goes_on _ reps go)
        v)
      (await-Phase n m)

run_one-Idle :
    (now reps num_pmcs : ℕ) (ops : Benchmark) (i : ℕ) (a : Arg)
    → is_stop ops.call ≡ false
    → Idle false a
    → Does (run_one now reps num_pmcs ops i a) (Idle false)
unfolding run_one
run_one-Idle now reps num_pmcs ops i a go h =
    let (b, e, p) = queue_work-Loaded (work_for ops i reps num_pmcs) (goes_on _ reps go) h in
    let (c, f, q) = serve-Loaded p in
    let (d, g, r) = await-Idle q in
    (d, rw e (ap (λ o. o >>= await) (if_else _ p.flag) ∙ rw (f, g)), r)

run_one-dirigent :
    (now reps num_pmcs : ℕ) (ops : Benchmark) (a : Arg)
    → is_stop ops.call ≡ false
    → Idle true a
    → Does (run_one now reps num_pmcs ops 0 a) (Idle true)
unfolding run_one
run_one-dirigent now reps num_pmcs ops a go h =
    let (b, e, p) = queue_work-Loaded (work_for ops 0 reps num_pmcs) (goes_on _ reps go) h in
    let (c, f, q) = worker_dirigent-Loaded now p in
    let (d, g, r) = await-Idle q in
    (d, rw e (ap (λ o. o >>= await) (if_then _ p.flag) ∙ rw (f, g)), r)

-- From mailboxes at rest `run_one_by_one` returns: no assertion fails, that the dirigent is the
-- first included, no thread blocks for ever, and every mailbox is at rest again.
pub run_one_by_one-Ready :
    (now reps num_pmcs : ℕ) (ops : Benchmark) (n m : ℕ) (as' : List Arg)
    → is_stop ops.call ≡ false
    → Ready (n + m) as'
    → DoesAll (run_one_by_one now reps num_pmcs ops (suc n) as') (Ready (n + m))
unfolding run_one_by_one each
run_one_by_one-Ready now reps num_pmcs ops n m [] go v = absurd v
run_one_by_one-Ready now reps num_pmcs ops n m (a ∷ as') go v =
    let (b, e, p) = run_one-dirigent now reps num_pmcs ops a go v.0 in
    let (bs, g, q) =
      each-Split (run_one now reps num_pmcs ops) (Idle false) (Idle false) (Idle false)
        (λ i c h. run_one-Idle now reps num_pmcs ops i c go h) n m (0 + 1) as'
        (All-Split (Idle false) (Idle false) n m as' (λ c h. h) (sym v.2) v.1) in
    let (all, len) = Split-All (Idle false) n m bs q in (b ∷ bs, rw (e, g), (p, all, len))
