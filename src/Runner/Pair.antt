-- ===== src/Runner/Pair.antt =====
-- `run_two_benchmarks` does not wait for the dirigent, and so can be called once only.
use hwvar.Base.{
  ℕ, suc, ◌+◌, ◌-◌, Bool, true, false, List, [], ◌∷◌, ◌≡◌, arith, length, if◌then◌else◌, if_then,
  if_else, lt→ltb, ◌∙◌,
}
use hwvar.Benchmark.{Benchmark, is_stop}
use hwvar.Mailbox.{done, Arg, ret, abort, queue_work}
use hwvar.Runner.{
  PairSets, work_of_two, hand_out, each, await, await_rest, run_in_parallel, run_one_by_one,
  run_one, run_two_benchmarks,
}
use hwvar.Runner.Each.{
  Idle, Loaded, All, Ready, DoesAll, DoesAll-bind, each-Split, Split-All, await-Idle,
}
use hwvar.Runner.Barrier.{Phase}
use hwvar.Runner.Parallel.{goes_on, hand_out-Phase}

-- The mailbox of the dirigent still holds its finished job; the others are at rest.
abbrev pub Stale : ℕ → List Arg → Type 0
Stale m [] = ⊥
Stale m (a ∷ as') = Loaded done true a × All (Idle false) as' × (length as' ≡ m)

await_rest-Stale :
    (n m : ℕ) (as' : List Arg)
    → Phase done n m as'
    → DoesAll (await_rest (suc n) as') (Stale (n + m))
unfolding await_rest
await_rest-Stale n m [] v = absurd v
await_rest-Stale n m (a ∷ as') v =
    let (bs, g, q) =
      each-Split (λ i. await) (Loaded done false) (Idle false) (Idle false) (λ i c h. await-Idle h)
        n m 1 as' v.1 in
    let pred : suc n - 1 ≡ n = omega arith in
    let (all, len) = Split-All (Idle false) n m bs q in (a ∷ bs, rw (pred, g), (v.0, all, len))

choice_goes_on :
    (b : Bool) (ops1 ops2 : Benchmark)
    → is_stop ops1.call ≡ false
    → is_stop ops2.call ≡ false
    → is_stop (if b then ops1 else ops2).call ≡ false
choice_goes_on true ops1 ops2 h k = h
choice_goes_on false ops1 ops2 h k = k

-- From mailboxes at rest and for sets apart `run_two_benchmarks` returns, but leaves the mailbox of the dirigent
-- with its finished job in it.
pub run_two_benchmarks-Stale :
    (now reps num_pmcs : ℕ) (ops1 ops2 : Benchmark) (sets : PairSets) (n m : ℕ) (as' : List Arg)
    → is_stop ops1.call ≡ false
    → is_stop ops2.call ≡ false
    → sets.intersects ≡ false
    → sets.included ≡ true
    → Ready (n + m) as'
    → DoesAll (run_two_benchmarks now reps num_pmcs ops1 ops2 sets (suc n) as') (Stale (n + m))
unfolding run_two_benchmarks
run_two_benchmarks-Stale now reps num_pmcs ops1 ops2 sets n m as' go1 go2 apart inside v =
    let (bs, e, p) =
      DoesAll-bind (Stale (n + m))
        (hand_out-Phase now (work_of_two now reps num_pmcs ops1 ops2 sets) n m as'
          (λ i a. goes_on _ reps (choice_goes_on (sets.in_set1 a.cpu) ops1 ops2 go1 go2)) v)
        (await_rest-Stale n m) in
    (bs, if_else _ apart ∙ if_then _ inside ∙ if_then _ (lt→ltb 0 (suc n) (omega arith)) ∙ e, p)

-- The next run of any kind then fails an assertion of `queue_work`, whatever its benchmarks.
pub Stale-abort :
    (now reps num_pmcs : ℕ) (ops1 ops2 : Benchmark) (sets : PairSets) (n m : ℕ) (as' : List Arg)
    → sets.intersects ≡ false
    → sets.included ≡ true
    → Stale m as'
    → (run_two_benchmarks now reps num_pmcs ops1 ops2 sets (suc n) as' ≡ abort)
      × (run_in_parallel now reps num_pmcs ops1 (suc n) as' ≡ abort)
      × (run_one_by_one now reps num_pmcs ops1 (suc n) as' ≡ abort)
unfolding run_two_benchmarks hand_out run_in_parallel run_one_by_one run_one each queue_work
Stale-abort now reps num_pmcs ops1 ops2 sets n m [] apart inside v = absurd v
Stale-abort now reps num_pmcs ops1 ops2 sets n m (a ∷ as') apart inside v = (
  if_else _ apart ∙ if_then _ inside ∙ if_then _ (lt→ltb 0 (suc n) (omega arith)) ∙ rw v.0.holds,
  rw v.0.holds,
  rw v.0.holds,
)

-- From mailboxes at rest, for two sets of processors that have none in common and whose union, cut
-- to the processors of the workers, is part of these, `run_two_benchmarks` returns, and then every further run, of whichever
-- policy and benchmarks, fails an assertion of `queue_work`: the last loop of `run_two_benchmarks`
-- leaves out the dirigent, whose mailbox stays full.
pub run_two_benchmarks-once :
    (now reps num_pmcs : ℕ) (ops1 ops2 ops3 ops4 : Benchmark) (sets : PairSets) (n m : ℕ)
    (as' : List Arg)
    → is_stop ops1.call ≡ false
    → is_stop ops2.call ≡ false
    → sets.intersects ≡ false
    → sets.included ≡ true
    → Ready (n + m) as'
    → (bs : List Arg) × (run_two_benchmarks now reps num_pmcs ops1 ops2 sets (suc n) as' ≡ ret bs)
      × (run_two_benchmarks now reps num_pmcs ops3 ops4 sets (suc n) bs ≡ abort)
      × (run_in_parallel now reps num_pmcs ops3 (suc n) bs ≡ abort)
      × (run_one_by_one now reps num_pmcs ops3 (suc n) bs ≡ abort)
run_two_benchmarks-once now reps num_pmcs ops1 ops2 ops3 ops4 sets n m as' go1 go2 apart inside v =
    let (bs, e, p) =
      run_two_benchmarks-Stale now reps num_pmcs ops1 ops2 sets n m as' go1 go2 apart inside v in
    let (a, b, c) = Stale-abort now reps num_pmcs ops3 ops4 sets n (n + m) bs apart inside p in
    (bs, e, a, b, c)
