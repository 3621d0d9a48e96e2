-- ===== src/Driver/Policies.antt =====
-- What a run of the program does under each policy.
use mathlib.Core.Path.{subst}
use native.Mathlib.Nat.{add-zero}
use hwvar.Base.{ℕ, suc, ◌+◌, true, false, List, [], ◌∷◌, ◌≡◌, refl, sym, length, ◌∙◌}
use hwvar.Benchmark.{Benchmark, is_stop}
use hwvar.Mailbox.{Arg, abort}
use hwvar.Runner.{
  run_in_parallel, run_one_by_one, run_two_benchmarks, synchronize_worker_init, stop_workers,
  null_ops,
}
use hwvar.Runner.Each.{All, Ready, DoesAll, DoesAll-bind}
use hwvar.Runner.Parallel.{run_in_parallel-Ready, run_one_by_one-Ready}
use hwvar.Runner.Pair.{Stale, run_two_benchmarks-Stale, Stale-abort}
use hwvar.Runner.Stop.{Stopped, Stoppable, AllStopped, stop_workers-AllStopped}
use hwvar.Driver.{parallel, one_by_one, pair, Setup, two, run_all, run_main}

-- No benchmark of the list stops its worker.
abbrev pub GoOn : List Benchmark → Type 0
GoOn [] = Unit
GoOn (b ∷ bs) = (is_stop b.call ≡ false) × GoOn bs

-- The same run where the two sets of processors of the policy `pair` have one in common.
abbrev pub overlapping : Setup → Setup
overlapping u = record u { sets = record u.sets { intersects = true } }

module _ (u : Setup) (m : ℕ) (all_cpus : u.cpus ≡ suc m) where
  parallel_run :
      (b : Benchmark) (as' : List Arg)
      → is_stop b.call ≡ false
      → Ready m as'
      → DoesAll (run_in_parallel u.now u.iterations u.columns b (suc m) as') (Ready m)
  parallel_run b as' go v =
      subst (λ k. DoesAll (run_in_parallel u.now u.iterations u.columns b (suc m) as') (Ready k))
        (add-zero m)
        (run_in_parallel-Ready u.now u.iterations u.columns b m 0 as' go
          (subst (λ k. Ready k as') (sym (add-zero m)) v))

  serial_run :
      (b : Benchmark) (as' : List Arg)
      → is_stop b.call ≡ false
      → Ready m as'
      → DoesAll (run_one_by_one u.now u.iterations u.columns b (suc m) as') (Ready m)
  serial_run b as' go v =
      subst (λ k. DoesAll (run_one_by_one u.now u.iterations u.columns b (suc m) as') (Ready k))
        (add-zero m)
        (run_one_by_one-Ready u.now u.iterations u.columns b m 0 as' go
          (subst (λ k. Ready k as') (sym (add-zero m)) v))

  run_all-parallel :
      (bs : List Benchmark) (as' : List Arg)
      → GoOn bs
      → Ready m as'
      → DoesAll (run_all u parallel bs as') (Ready m)
  unfolding run_all
  run_all-parallel [] as' go v = (as', refl, v)
  run_all-parallel (b ∷ bs) as' go v =
      DoesAll-bind (Ready m)
        (subst (λ n. DoesAll (run_in_parallel u.now u.iterations u.columns b n as') (Ready m))
          (sym all_cpus) (parallel_run b as' go.0 v))
        (λ cs p. run_all-parallel bs cs go.1 p)

  run_all-one_by_one :
      (bs : List Benchmark) (as' : List Arg)
      → GoOn bs
      → Ready m as'
      → DoesAll (run_all u one_by_one bs as') (Ready m)
  unfolding run_all
  run_all-one_by_one [] as' go v = (as', refl, v)
  run_all-one_by_one (b ∷ bs) as' go v =
      DoesAll-bind (Ready m)
        (subst (λ n. DoesAll (run_one_by_one u.now u.iterations u.columns b n as') (Ready m))
          (sym all_cpus) (serial_run b as' go.0 v))
        (λ cs p. run_all-one_by_one bs cs go.1 p)

  synchronize-Ready :
      (as' : List Arg) → Ready m as' → DoesAll (synchronize_worker_init u.now u.cpus as') (Ready m)
  unfolding synchronize_worker_init
  synchronize-Ready as' v =
      subst (λ n. DoesAll (run_in_parallel u.now 1 1 null_ops n as') (Ready m)) (sym all_cpus)
        (subst (λ k. DoesAll (run_in_parallel u.now 1 1 null_ops (suc m) as') (Ready k))
          (add-zero m)
          (run_in_parallel-Ready u.now 1 1 null_ops m 0 as' refl
            (subst (λ k. Ready k as') (sym (add-zero m)) v)))

  -- Every worker but the dirigent has left its loop.
  abbrev pub Ended : List Arg → Type 0
  Ended [] = ⊥
  Ended (a ∷ as') = All Stopped as' × (length as' ≡ m)

  stop-Ended : (as' : List Arg) → Stoppable m as' → DoesAll (stop_workers u.cpus as') Ended
  stop-Ended as' v =
      subst (λ n. DoesAll (stop_workers n as') Ended) (sym all_cpus)
        (ended as' v (stop_workers-AllStopped m as' v))
    where
      ended :
          (cs : List Arg)
          → Stoppable m cs
          → DoesAll (stop_workers (suc m) cs) (AllStopped cs)
          → DoesAll (stop_workers (suc m) cs) Ended
      ended [] w d = absurd w
      ended (c ∷ cs) w ([], e, p) = absurd p
      ended (c ∷ cs) w (b ∷ bs, e, p) = (b ∷ bs, e, (p.1, p.2 ∙ w.2))

  Ready-Stoppable : (as' : List Arg) → Ready m as' → Stoppable m as'
  Ready-Stoppable [] v = absurd v
  Ready-Stoppable (a ∷ as') v = (v.0.flag, v.1, v.2)

  Stale-Stoppable : (as' : List Arg) → Stale m as' → Stoppable m as'
  Stale-Stoppable [] v = absurd v
  Stale-Stoppable (a ∷ as') v = (v.0.flag, v.1, v.2)

  -- Under the policies `parallel` and `one_by_one` the program runs to its end from mailboxes at
  -- rest, whatever number of benchmarks it is given, none of which stops its workers: no assertion
  -- fails, the main thread never blocks for ever, and every worker is stopped.
  pub run_main-Ended :
      (bs : List Benchmark) (as' : List Arg)
      → GoOn bs
      → Ready m as'
      → DoesAll (run_main u parallel bs as') Ended × DoesAll (run_main u one_by_one bs as') Ended
  unfolding run_main
  run_main-Ended bs as' go v = (
    DoesAll-bind Ended
        (DoesAll-bind (Ready m) (synchronize-Ready as' v) (λ cs p. run_all-parallel bs cs go p))
        (λ cs p. stop-Ended cs (Ready-Stoppable cs p)),
    DoesAll-bind Ended
        (DoesAll-bind (Ready m) (synchronize-Ready as' v) (λ cs p. run_all-one_by_one bs cs go p))
        (λ cs p. stop-Ended cs (Ready-Stoppable cs p)),
  )

  module _ (k rest : ℕ) (pair_cpus : u.pair_cpus ≡ suc k) (among : k + rest ≡ m)
      (apart : u.sets.intersects ≡ false) (inside : u.sets.included ≡ true) where
    two-Stale :
        (b c : Benchmark) (as' : List Arg)
        → is_stop b.call ≡ false
        → is_stop c.call ≡ false
        → Ready m as'
        → DoesAll (two u b c as') (Stale m)
    two-Stale b c as' hb hc v =
        subst
          (λ n.
            DoesAll (run_two_benchmarks u.now u.iterations u.columns b c u.sets n as') (Stale m))
          (sym pair_cpus)
          (subst
            (λ n.
              DoesAll (run_two_benchmarks u.now u.iterations u.columns b c u.sets (suc k) as')
                (Stale n))
            among
            (run_two_benchmarks-Stale u.now u.iterations u.columns b c u.sets k rest as' hb hc apart
              inside (subst (λ n. Ready n as') (sym among) v)))

    two-abort : (b c : Benchmark) (as' : List Arg) → Stale m as' → two u b c as' ≡ abort
    two-abort b c as' v =
        subst (λ n. run_two_benchmarks u.now u.iterations u.columns b c u.sets n as' ≡ abort)
          (sym pair_cpus)
          (Stale-abort u.now u.iterations u.columns b c u.sets k m as' apart inside v).0

    pair-abort :
        (d : Benchmark) (bs : List Benchmark) (as' : List Arg)
        → Stale m as'
        → run_all u pair (d ∷ bs) as' ≡ abort
    unfolding run_all
    pair-abort d [] as' v = two-abort d d as' v
    pair-abort d (f ∷ fs) as' v = rw (two-abort d f as' v)

    pair-Stale :
        (b c : Benchmark) (as' : List Arg)
        → GoOn (b ∷ c ∷ [])
        → Ready m as'
        → DoesAll (run_all u pair (b ∷ c ∷ []) as') (Stale m)
    unfolding run_all
    pair-Stale b c as' go v = let (ds, e, p) = two-Stale b c as' go.0 go.1.0 v in (ds, rw e, p)

    pair-third :
        (b c d : Benchmark) (bs : List Benchmark) (as' : List Arg)
        → GoOn (b ∷ c ∷ [])
        → Ready m as'
        → run_all u pair (b ∷ c ∷ d ∷ bs) as' ≡ abort
    unfolding run_all
    pair-third b c d bs as' go v =
        let (ds, e, p) = two-Stale b c as' go.0 go.1.0 v in rw e (pair-abort d bs ds p)

    pair-overlapping :
        (b : Benchmark) (bs : List Benchmark) (as' : List Arg)
        → run_all (overlapping u) pair (b ∷ bs) as' ≡ abort
    unfolding run_all run_two_benchmarks
    pair-overlapping b [] as' = refl
    pair-overlapping b (c ∷ bs) as' = refl

    -- From mailboxes at rest, under the policy `pair`, for two sets of processors that have none in
    -- common and whose union, cut to the processors of the workers, is part of these, the program runs
    -- to its end with two benchmarks that do not stop their workers, and fails an assertion with any
    -- others after these. Were the two sets to have a processor in common, it would fail an assertion
    -- with any number of benchmarks but none.
    pub run_main-pair :
        (b c d : Benchmark) (bs : List Benchmark) (as' : List Arg)
        → GoOn (b ∷ c ∷ [])
        → Ready m as'
        → DoesAll (run_main u pair (b ∷ c ∷ []) as') Ended
          × (run_main u pair (b ∷ c ∷ d ∷ bs) as' ≡ abort)
          × (run_main (overlapping u) pair (b ∷ bs) as' ≡ abort)
    unfolding run_main
    run_main-pair b c d bs as' go v =
        let (cs, e, p) = synchronize-Ready as' v in
        (
          DoesAll-bind Ended
              (DoesAll-bind {P = Ready m} (Stale m) (cs, e, p) (λ ds q. pair-Stale b c ds go q))
              (λ ds q. stop-Ended ds (Stale-Stoppable ds q)),
          rw (e, pair-third b c d bs cs go p),
          rw (e, pair-overlapping b bs cs),
        )
