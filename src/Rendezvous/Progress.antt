-- ===== src/Rendezvous/Progress.antt =====
-- A run cannot get stuck, and it ends.
use mathlib.Core.Path.{subst}
use mathlib.Core.Option.{some_inj}
use hwvar.Base.{
  ℕ, zero, suc, ◌+◌, ◌*◌, ◌≤◌, ◌<◌, Bool, true, false, some, [], ◌≡◌, ◌≢◌, refl, ap, arith, ◌==◌,
  ltb, ◌⊎◌, inl, inr, Bool-cases, find, total-le, total-suc,
}
use hwvar.Benchmark.{Work, stops}
use hwvar.Mailbox.{State, Arg}
use hwvar.Runner.Each.{Idle}
use hwvar.Rendezvous.{
  Main, handing, dirigent, awaiting, returned, aborted, top, System, Meeting, init_step, Step, hand,
  call_worker, take, arrive, release, finish, come_back, collect, all_done, Reach,
}
use hwvar.Rendezvous.Stages.{
  Stage, fresh, handed, entered, taken, arrived, passed, finished, collected, rank, rank_top,
  in_barrier, Fits, queue_work-Fits, return-Fits, wait_until_done-Fits, wait_for_work-Fits,
}
use hwvar.Rendezvous.Moves.{ready_rank}
use hwvar.Rendezvous.Inv.{Between, Sane, main_rank, Inv}
use hwvar.Rendezvous.Safety.{Reach-init_step-Inv}

-- The stages at which a thread can make a step of its own.
abbrev can_move : Stage → Bool
can_move handed = true
can_move entered = true
can_move taken = true
can_move passed = true
can_move _ = false

module _ (cpus from : ℕ) (work : ℕ → Work) (goes_on : (i : ℕ) → stops (work i) ≡ false)
    (some_cpu : 0 < cpus) (early : from ≤ 1) where
  abbrev meeting : Meeting
  meeting = record { barrier = cpus; works = cpus }

  abbrev Goes : System → Type 0
  Goes s = (t : System) × Step cpus from meeting work s t

  module _ (s : System) where
    abbrev At : ℕ → Stage → Type 0
    At i g = Fits work i g (s.args i) (s.place i) (s.calls i)

    takes :
        (i : ℕ) (g : Stage)
        → i < cpus
        → At i g
        → s.place i ≡ top
        → (s.args i).work ≡ some (work i)
        → (s.args i).s ≡ State.queued
        → s.calls i ≡ []
        → Goes s
    takes i g l h at_top holds state made =
        let (b, runs, fits) =
          wait_for_work-Fits work i (s.args i) (s.place i) (s.calls i) state holds h.running h.flag
            made in
        (_, take i (work i) b l at_top h.running runs)

    thread-Goes :
        (i : ℕ) (g : Stage) → i < cpus → At i g → ready_rank i ≤ rank g → can_move g ≡ true → Goes s
    thread-Goes zero handed l h lo e = absurd (omega arith)
    thread-Goes (suc i) handed l h lo e = takes (suc i) handed l h h.stands h.holds h.state h.made
    thread-Goes i entered l h lo e = takes i entered l h h.stands h.holds h.state h.made
    thread-Goes i taken l h lo e = (_, arrive i (work i) l h.stands)
    thread-Goes i passed l h lo e =
        let (b, runs, fits) = return-Fits work i (s.args i) (s.place i) (s.calls i) (goes_on i) h in
        (_, finish i (work i) b l h.stands runs)
    thread-Goes i fresh l h lo e = cc
    thread-Goes i arrived l h lo e = cc
    thread-Goes i finished l h lo e = cc
    thread-Goes i collected l h lo e = cc

  settled :
      (g : Stage) → can_move g ≡ false → 1 ≤ rank g → rank g ≤ 6 → (g ≡ arrived) ⊎ (g ≡ finished)
  settled arrived e lo hi = inl refl
  settled finished e lo hi = inr refl
  settled fresh e lo hi = absurd (omega arith)
  settled handed e lo hi = cc
  settled entered e lo hi = cc
  settled taken e lo hi = cc
  settled passed e lo hi = cc
  settled collected e lo hi = absurd (omega arith)

  rank-fresh : (g : Stage) → rank g ≤ 0 → g ≡ fresh
  rank-fresh fresh h = refl
  rank-fresh g h = absurd (omega arith)

  rank-finished : (g : Stage) → 5 ≤ rank g → rank g ≤ 6 → (g ≡ passed) ⊎ (g ≡ finished)
  rank-finished passed lo hi = inl refl
  rank-finished finished lo hi = inr refl
  rank-finished g lo hi = absurd (omega arith)

  module _ {n : ℕ} {s : System} (v : Inv cpus from work n s) where
    At-stage : (i : ℕ) (g : Stage) → i < cpus → v.stage i ≡ g → At s i g
    At-stage i g l e = subst (At s i) e (v.fits i l)

    handing-Goes : (k : ℕ) → s.main ≡ handing k → Goes s
    handing-Goes k e = elim (Bool-cases (ltb k cpus)) [
      | inl more ↦
          let l : k < cpus = ground arith in
          let here = subst (λ m. Between cpus from m k (rank (v.stage k))) e (v.bounds k l) in
          let g0 = rank-fresh (v.stage k) (ground arith) in
          let (b, runs, fits) =
            queue_work-Fits work k (s.args k) (s.place k) (s.calls k) (At-stage k fresh l g0) in
          (_, hand k b e l runs)
      | inr no_more ↦ (_, call_worker k 0 e (ground arith) (v.fits 0 some_cpu).flag)
    ]

    -- Where no thread can move before the barrier opens, all are at it.
    all_inside :
        v.opened ≡ false
        → ((j : ℕ) → j < cpus → (v.stage j ≡ arrived) ⊎ (v.stage j ≡ finished))
        → s.inside ≡ cpus
    all_inside shut settle =
        let at_it : (j : ℕ) → j < cpus → in_barrier (v.stage j) ≡ 1 = λ j l. elim (settle j l) [
          | inl e ↦ ap in_barrier e
          | inr e ↦ absurd (omega (arith, v.shut shut j l, ap rank e))
        ] in
        let few = total-le (λ i. in_barrier (v.stage i)) 1 cpus (λ j l. omega (arith, at_it j l)) in
        let many =
          total-suc (λ i. 0) (λ i. in_barrier (v.stage i)) cpus (λ j l. omega (arith, at_it j l)) in
        omega (arith, v.inside)

    dirigent-Goes : s.main ≡ dirigent → Goes s
    dirigent-Goes e =
        let between : (j : ℕ) → j < cpus → Between cpus from dirigent j (rank (v.stage j)) =
          λ j l. subst (λ m. Between cpus from m j (rank (v.stage j))) e (v.bounds j l) in
        elim (find (λ j. can_move (v.stage j)) cpus) [
          | inl (j, l, moves) ↦ thread-Goes s j (v.stage j) l (v.fits j l) (between j l).0 moves
          | inr stuck ↦
              let settle : (j : ℕ) → j < cpus → (v.stage j ≡ arrived) ⊎ (v.stage j ≡ finished) =
                λ j l. let b = between j l in settled (v.stage j) (stuck j l) (ground arith) b.1 in
              elim (Bool-cases v.opened) [
                | inr shut ↦ (_, release (all_inside shut settle))
                | inl opened ↦ elim (settle 0 some_cpu) [
                  | inl e4 ↦ absurd (omega (arith, v.let_in opened 0 some_cpu, ap rank e4))
                  | inr e6 ↦ (_, come_back e (At-stage 0 finished some_cpu e6).stands)
                ]
              ]
        ]

    awaiting-Goes : (k : ℕ) → s.main ≡ awaiting k → Goes s
    awaiting-Goes k e = elim (Bool-cases (ltb k cpus)) [
      | inr no_more ↦ (_, all_done k e (ground arith))
      | inl more ↦
          let l : k < cpus = ground arith in
          let (begun, few) = subst (Sane cpus from) e v.sane in
          let first =
            subst (λ m. Between cpus from m 0 (rank (v.stage 0))) e (v.bounds 0 some_cpu) in
          let here = subst (λ m. Between cpus from m k (rank (v.stage k))) e (v.bounds k l) in
          elim (Bool-cases v.opened) [
            | inr shut ↦ let low = v.shut shut 0 some_cpu in absurd (ground arith)
            | inl opened ↦ elim (rank-finished (v.stage k) (v.let_in opened k l) (ground arith)) [
              | inl e5 ↦ thread-Goes s k passed l (At-stage k passed l e5) (ground arith) refl
              | inr e6 ↦
                  let (b, runs, fits) =
                    wait_until_done-Fits work k (s.args k) (s.place k) (s.calls k)
                      (At-stage k finished l e6) in
                  (_, collect k (some (work k)) b e l runs)
            ]
          ]
    ]

    main-Goes : (m : Main) → s.main ≡ m → Sane cpus from m → (s.main ≡ returned) ⊎ Goes s
    main-Goes (handing k) e sane = inr (handing-Goes k e)
    main-Goes dirigent e sane = inr (dirigent-Goes e)
    main-Goes (awaiting k) e sane = inr (awaiting-Goes k e)
    main-Goes returned e sane = inl e
    main-Goes aborted e sane = absurd sane

    main_rank-le : (m : Main) → Sane cpus from m → main_rank cpus from m ≤ cpus + 3 + cpus
    main_rank-le (handing k) sane = omega arith
    main_rank-le dirigent sane = omega arith
    main_rank-le (awaiting k) sane = omega arith
    main_rank-le returned sane = omega arith
    main_rank-le aborted sane = absurd sane

    few_steps : n ≤ 9 * cpus + 3
    few_steps =
        let ranks = total-le (λ i. rank (v.stage i)) 7 cpus (λ j l. rank_top (v.stage j)) in
        omega (arith, v.steps, main_rank-le s.main v.sane)

-- In a run of workers at rest, with the barrier that `init_step` makes for their number, and work
-- that stops no worker: no assertion fails, and wherever the run has come to, the main thread has
-- returned or some thread can make a step. No sequence of steps is longer than 9 for each processor
-- and 3, so that every way of interleaving the threads ends with the return of the main thread.
pub Reach-goes_on :
    (cpus from : ℕ) (meeting : Meeting) (work : ℕ → Work) (args : ℕ → Arg) (n : ℕ) (s : System)
    → 0 < cpus
    → from ≤ 1
    → ((i : ℕ) → stops (work i) ≡ false)
    → init_step true true cpus ≡ some meeting
    → ((i : ℕ) → i < cpus → Idle (i == 0) (args i))
    → Reach cpus from meeting work args n s
    → (n ≤ 9 * cpus + 3)
      × (s.main ≢ aborted)
      × ((s.main ≡ returned) ⊎ ((t : System) × Step cpus from meeting work s t))
Reach-goes_on cpus from meeting work args n s some_cpu early goes_on built rest r =
    let v = Reach-init_step-Inv cpus from meeting work args some_cpu early goes_on built rest r in
    (
      few_steps cpus from work goes_on some_cpu early v,
      λ e. subst (Sane cpus from) e v.sane,
      subst (λ m. (s.main ≡ returned) ⊎ ((t : System) × Step cpus from m work s t))
          (some_inj.0 built) (main-Goes cpus from work goes_on some_cpu early v s.main refl v.sane),
    )
