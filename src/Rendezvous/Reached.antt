-- ===== src/Rendezvous/Reached.antt =====
-- Whatever a run reaches satisfies the invariant.
use mathlib.Core.Path.{subst}
use hwvar.Base.{
  ℕ, suc, ◌+◌, ◌≤◌, ◌<◌, true, false, none, ◌≡◌, ◌≢◌, refl, ap, sym, ◌∙◌, arith, ◌==◌, set_at,
  total_full, total-suc, total-le, Bool-cases, inl, inr, if_else, set_at_self, Option,
}
use hwvar.Benchmark.{Work, stops}
use hwvar.Mailbox.{
  Arg, ret, abort, queue_work, wait_until_done, wait_for_work, return_finished_work, call_effect,
}
use hwvar.Runner.Each.{Idle}
use hwvar.Rendezvous.{
  handing, dirigent, awaiting, returned, out, top, past, System, let_go, at_start, Step, hand,
  hand_aborts, call_worker, no_dirigent, take, take_null, take_aborts, arrive, release, finish,
  finish_aborts, come_back, collect, all_done, Reach, start, later,
}
use hwvar.Rendezvous.Stages.{
  fresh, arrived, passed, finished, collected, rank, in_barrier, in_barrier-one, Fits,
  queue_work-Fits, return-Fits, wait_until_done-Fits,
}
use hwvar.Rendezvous.Moves.{top-Takes, past-passed, out-rank, arrived-let_go, done-finished}
use hwvar.Rendezvous.Inv.{Between, Inv, Inv-set_at, Inv-main}
use hwvar.Rendezvous.Steps.{
  rank-arrived, rank-fresh, Between-on, ready_rank-two, at_main, ranked, at-Sane, stage_is,
  hand-Inv, call_worker-Inv, take-Inv, finish-Inv, arrive-Inv,
}

module _ (cpus from : ℕ) (work : ℕ → Work) (goes_on : (i : ℕ) → stops (work i) ≡ false)
    (some_cpu : 0 < cpus) (early : from ≤ 1) where
  module _ {n : ℕ} {s : System} (v : Inv cpus from work n s) where
    release-Inv :
        s.inside ≡ cpus
        → Inv cpus from work (suc n) (record s { place = λ i. let_go (s.place i); inside = 0 })
    release-Inv full =
        let all_in : (j : ℕ) → j < cpus → v.stage j ≡ arrived = λ j jl.
          rank-arrived cpus from work goes_on some_cpu early (v.stage j) (
            total_full (λ i. in_barrier (v.stage i)) cpus j (λ k l. in_barrier-one (v.stage k))
              (omega (arith, v.inside)) jl) in
        let up : (j : ℕ) → j < cpus → rank (v.stage j) < 5 =
          λ j jl. omega (arith, ap rank (all_in j jl)) in
        let more = total-suc (λ i. rank (v.stage i)) (λ i. 5) cpus up in
        let nobody = total-le (λ i. 0) 0 cpus (λ j jl. omega arith) in
        record {
          stage = λ i. passed;
          opened = true;
          fits = λ j jl.
              arrived-let_go work j (s.args j) (s.place j) (s.calls j)
                (stage_is cpus from work goes_on some_cpu early v j arrived jl (all_in j jl));
          bounds = λ j jl.
              let two = ready_rank-two cpus from work goes_on some_cpu early j in
              Between-on cpus from work goes_on some_cpu early s.main j (rank (v.stage j)) 5 v.sane
                (v.bounds j jl) (omega (arith, ap rank (all_in j jl))) (omega (arith, up j jl))
                (omega (arith, up j jl)) (omega arith);
          sane = v.sane;
          shut = λ e. cc;
          let_in = λ e j jl. omega arith;
          inside = omega arith;
          steps = omega (arith, v.steps);
        }

    collect-Inv :
        (i : ℕ) (r : Option Work) (a : Arg)
        → s.main ≡ awaiting i
        → i < cpus
        → wait_until_done (s.args i) ≡ ret (r, a)
        → Inv cpus from work
            (suc n)
            (record s { args = set_at s.args i a; main = awaiting (i + 1) })
    collect-Inv i r a e l run =
        let (begun, few) = at-Sane cpus from work goes_on some_cpu early v (awaiting i) e in
        let g6 =
          done-finished work i (s.args i) (s.place i) (s.calls i) (v.stage i) r a (v.fits i l)
            run in
        let (b, runs, fits) =
          wait_until_done-Fits work i (s.args i) (s.place i) (s.calls i)
            (stage_is cpus from work goes_on some_cpu early v i finished l g6) in
        let now : set_at s.args i a i ≡ b = set_at_self s.args i a ∙ (cc) in
        Inv-set_at cpus from work v i l collected
          (record s { args = set_at s.args i a; main = awaiting (i + 1) })
          (subst (λ c. Fits work i collected c (s.place i) (s.calls i)) (sym now) fits)
          (λ j away. (if_else a away, refl, refl)) (ground arith)
          (λ j jl away.
            let old = at_main cpus from work goes_on some_cpu early v (awaiting i) e j jl in
            ground arith)
          (omega arith, omega arith) (omega (arith, ap rank g6))
          (omega (arith, ranked cpus from work goes_on some_cpu early v (awaiting i) e))
          (λ closed. absurd (omega (arith, v.shut closed i l, ap rank g6)))
          (omega (arith, ap in_barrier g6))

    come_back-Inv :
        s.main ≡ dirigent
        → s.place 0 ≡ out
        → Inv cpus from work (suc n) (record s { main = awaiting from })
    come_back-Inv e at_out =
        let here = at_main cpus from work goes_on some_cpu early v dirigent e 0 some_cpu in
        let left =
          out-rank work 0 (s.args 0) (s.place 0) (s.calls 0) (v.stage 0) (v.fits 0 some_cpu)
            at_out in
        let back : 6 ≤ rank (v.stage 0) = ground arith in
        Inv-main cpus from work v (awaiting from)
          (λ j jl. elim (Bool-cases (j == 0)) [
            | inl first ↦
                let is_first : 0 ≡ j = ground arith in
                subst (λ k. Between cpus from (awaiting from) k (rank (v.stage k))) is_first
                  (ground arith)
            | inr other ↦
                let old = at_main cpus from work goes_on some_cpu early v dirigent e j jl in
                ground arith
          ])
          (omega arith, omega arith)
          (omega (arith, ranked cpus from work goes_on some_cpu early v dirigent e))

    all_done-Inv :
        (i : ℕ)
        → s.main ≡ awaiting i
        → cpus ≤ i
        → Inv cpus from work (suc n) (record s { main = returned })
    all_done-Inv i e past_end =
        let (begun, few) = at-Sane cpus from work goes_on some_cpu early v (awaiting i) e in
        Inv-main cpus from work v returned
          (λ j jl.
            let old = at_main cpus from work goes_on some_cpu early v (awaiting i) e j jl in
            ground arith)
          tt (omega (arith, ranked cpus from work goes_on some_cpu early v (awaiting i) e))

    queue_work-ne : (i : ℕ) → s.main ≡ handing i → i < cpus → queue_work (s.args i) (work i) ≢ abort
    queue_work-ne i e l run =
        let here = at_main cpus from work goes_on some_cpu early v (handing i) e i l in
        let g0 = rank-fresh cpus from work goes_on some_cpu early (v.stage i) (ground arith) in
        let runs =
          (queue_work-Fits work i (s.args i) (s.place i) (s.calls i)
            (stage_is cpus from work goes_on some_cpu early v i fresh l g0)).1 in
        cc

    wait_for_work-ne :
        (i : ℕ)
        → i < cpus
        → s.place i ≡ top
        → (wait_for_work (s.args i) ≢ abort)
          × ((a : Arg) → wait_for_work (s.args i) ≢ ret (none, a))
    wait_for_work-ne i l at_top =
        elim (top-Takes work i (s.args i) (s.place i) (s.calls i) (v.stage i) (v.fits i l) at_top) [
          | inl waits ↦ (λ e. cc, λ a e. cc)
          | inr (b, runs, fits, lo, few) ↦ (λ e. cc, λ a e. cc)
        ]

    return-ne :
        (i : ℕ) (w : Work)
        → i < cpus
        → s.place i ≡ past w
        → return_finished_work (call_effect w (s.args i)) w ≢ abort
    return-ne i w l at_past run =
        let (g5, same) =
          past-passed work i (s.args i) (s.place i) (s.calls i) (v.stage i) w (v.fits i l)
            at_past in
        let runs =
          (return-Fits work i (s.args i) (s.place i) (s.calls i) (goes_on i)
            (stage_is cpus from work goes_on some_cpu early v i passed l g5)).1 in
        let run' : return_finished_work (call_effect (work i) (s.args i)) (work i) ≡ abort =
          rw same run in
        cc

  Step-Inv :
      {n : ℕ} {s t : System}
      → Step cpus from (record { barrier = cpus; works = cpus }) work s t
      → Inv cpus from work n s
      → Inv cpus from work (suc n) t
  Step-Inv (hand i a e l run) v = hand-Inv cpus from work goes_on some_cpu early v i a e l run
  Step-Inv (hand_aborts i e l run) v = absurd (queue_work-ne v i e l run)
  Step-Inv (call_worker i now e l flag) v =
      call_worker-Inv cpus from work goes_on some_cpu early v i now e l
  Step-Inv (no_dirigent i e l flag) v = let is = (v.fits 0 some_cpu).flag in cc
  Step-Inv (take i w a l at_top runs run) v =
      take-Inv cpus from work goes_on some_cpu early v i w a l at_top run
  Step-Inv (take_null i a l at_top runs run) v = absurd ((wait_for_work-ne v i l at_top).1 a run)
  Step-Inv (take_aborts i l at_top runs run) v = absurd ((wait_for_work-ne v i l at_top).0 run)
  Step-Inv (arrive i w l at_took) v =
      arrive-Inv cpus from work goes_on some_cpu early v i w l at_took
  Step-Inv (release full) v = release-Inv v full
  Step-Inv (finish i w a l at_past run) v =
      finish-Inv cpus from work goes_on some_cpu early v i w a l at_past run
  Step-Inv (finish_aborts i w l at_past run) v = absurd (return-ne v i w l at_past run)
  Step-Inv (come_back e at_out) v = come_back-Inv v e at_out
  Step-Inv (collect i r a e l run) v = collect-Inv v i r a e l run
  Step-Inv (all_done i e past_end) v = all_done-Inv v i e past_end

  at_start-Inv :
      (args : ℕ → Arg)
      → ((i : ℕ) → i < cpus → Idle (i == 0) (args i))
      → Inv cpus from work 0 (at_start args)
  at_start-Inv args rest = record {
    stage = λ i. fresh;
    opened = false;
    fits = λ i l.
        let r = rest i l in
        record {
          state = r.idle;
          holds = r.empty;
          running = r.running;
          flag = r.flag;
          stands = refl;
          made = refl;
        };
    bounds = λ i l. ground arith;
    sane = omega arith;
    shut = λ e i l. omega arith;
    let_in = λ e. cc;
    inside = let nobody = total-le (λ i. 0) 0 cpus (λ j jl. omega arith) in omega arith;
    steps = omega arith;
  }

  pub Reach-Inv :
      {args : ℕ → Arg} {n : ℕ} {s : System}
      → ((i : ℕ) → i < cpus → Idle (i == 0) (args i))
      → Reach cpus from (record { barrier = cpus; works = cpus }) work args n s
      → Inv cpus from work n s
  Reach-Inv {args} rest start = at_start-Inv args rest
  Reach-Inv rest (later r st) = Step-Inv st (Reach-Inv rest r)
