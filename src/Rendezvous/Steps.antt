-- ===== src/Rendezvous/Steps.antt =====
-- Every step of a run keeps the invariant.
use mathlib.Core.Path.{subst}
use hwvar.Base.{
  ℕ, suc, ◌+◌, ◌≤◌, ◌<◌, false, some, [], ◌∷◌, ◌++◌, ◌≡◌, refl, ap, sym, ◌∙◌, arith, set_at, inl,
  inr, if_else, set_at_self,
}
use hwvar.Benchmark.{Work, stops}
use hwvar.Mailbox.{
  Arg, Outcome, ret, queue_work, wait_for_work, return_finished_work, worker_entry, call_effect,
}
use hwvar.Rendezvous.{
  Main, handing, dirigent, awaiting, returned, aborted, top, took, waiting, past, System, Meeting,
  next_place, move,
}
use hwvar.Rendezvous.Stages.{
  Stage, fresh, handed, entered, taken, arrived, passed, finished, rank, in_barrier, Fits,
  queue_work-Fits, worker_entry-Fits, return-Fits,
}
use hwvar.Rendezvous.Moves.{ready_rank, top-Takes, took-taken, past-passed}
use hwvar.Rendezvous.Inv.{Between, Sane, main_rank, Inv, Inv-set_at}

ret_inj : {o : Outcome Arg} {a b : Arg} → o ≡ ret a → o ≡ ret b → b ≡ a
ret_inj e f = cc

module _ (cpus from : ℕ) (work : ℕ → Work) (goes_on : (i : ℕ) → stops (work i) ≡ false)
    (some_cpu : 0 < cpus) (early : from ≤ 1) where
  -- What a rank says of a stage.
  pub rank-fresh : (g : Stage) → rank g ≤ 0 → g ≡ fresh
  rank-fresh fresh h = refl
  rank-fresh g h = absurd (omega arith)

  rank-handed : (g : Stage) → rank g ≡ 1 → g ≡ handed
  rank-handed handed h = refl
  rank-handed fresh h = absurd (omega arith)
  rank-handed entered h = absurd (omega arith)
  rank-handed g h = absurd (omega arith)

  pub rank-finished : (g : Stage) → rank g ≡ 6 → g ≡ finished
  rank-finished finished h = refl
  rank-finished g h = absurd (omega arith)

  pub rank-arrived : (g : Stage) → in_barrier g ≡ 1 → g ≡ arrived
  rank-arrived arrived h = refl
  rank-arrived g h = absurd (omega arith)

  outside : (g : Stage) → rank g ≤ 3 → in_barrier g ≡ 0
  outside arrived h = absurd (omega arith)
  outside fresh h = refl
  outside g h = refl

  -- A thread that has its work, or can take it, may go on to give it back.
  pub Between-on :
      (m : Main) (i r r' : ℕ)
      → Sane cpus from m
      → Between cpus from m i r
      → ready_rank i ≤ r
      → r ≤ 5
      → r ≤ r'
      → r' ≤ 6
      → Between cpus from m i r'
  Between-on (handing k) i r r' sane b lo few up most = ground arith
  Between-on dirigent i r r' sane b lo few up most = ground arith
  Between-on (awaiting k) i r r' sane b lo few up most = ground arith
  Between-on returned i r r' sane b lo few up most = ground arith
  Between-on aborted i r r' sane b lo few up most = absurd sane

  pub ready_rank-two : (i : ℕ) → ready_rank i ≤ 2
  ready_rank-two i = ground arith

  abbrev pub meeting : Meeting
  meeting = record { barrier = cpus; works = cpus }

  module _ {n : ℕ} {s : System} (v : Inv cpus from work n s) where
    abbrev pub At : ℕ → Stage → Type 0
    At i g = Fits work i g (s.args i) (s.place i) (s.calls i)

    pub at_main :
        (m : Main) → s.main ≡ m → (j : ℕ) → j < cpus → Between cpus from m j (rank (v.stage j))
    at_main m e j jl = subst (λ m. Between cpus from m j (rank (v.stage j))) e (v.bounds j jl)

    pub ranked : (m : Main) → s.main ≡ m → main_rank cpus from s.main ≡ main_rank cpus from m
    ranked m e = ap (main_rank cpus from) e

    pub at-Sane : (m : Main) → s.main ≡ m → Sane cpus from m
    at-Sane m e = subst (Sane cpus from) e v.sane

    pub stage_is : (i : ℕ) (g : Stage) → i < cpus → v.stage i ≡ g → At i g
    stage_is i g l e = subst (At i) e (v.fits i l)

    pub hand-Inv :
        (i : ℕ) (a : Arg)
        → s.main ≡ handing i
        → i < cpus
        → queue_work (s.args i) (work i) ≡ ret a
        → Inv cpus from work (suc n) (record s { args = set_at s.args i a; main = handing (i + 1) })
    hand-Inv i a e l run =
        let here = at_main (handing i) e i l in
        let g0 : v.stage i ≡ fresh = rank-fresh (v.stage i) (ground arith) in
        let (b, runs, fits) =
          queue_work-Fits work i (s.args i) (s.place i) (s.calls i) (stage_is i fresh l g0) in
        let now : set_at s.args i a i ≡ b = set_at_self s.args i a ∙ sym (ret_inj run runs) in
        Inv-set_at cpus from work v i l handed
          (record s { args = set_at s.args i a; main = handing (i + 1) })
          (subst (λ c. Fits work i handed c (s.place i) (s.calls i)) (sym now) fits)
          (λ j away. (if_else a away, refl, refl)) (ground arith)
          (λ j jl away. let old = at_main (handing i) e j jl in ground arith) (omega arith)
          (omega (arith, ap rank g0)) (omega (arith, ranked (handing i) e)) (λ closed. omega arith)
          (omega (arith, ap in_barrier g0))

    pub call_worker-Inv :
        (i now : ℕ)
        → s.main ≡ handing i
        → cpus ≤ i
        → Inv cpus from work
            (suc n)
            (record (move s 0 (worker_entry (s.args 0) now) top) { main = dirigent })
    call_worker-Inv i now e l =
        let here = at_main (handing i) e 0 some_cpu in
        let sane = at-Sane (handing i) e in
        let g1 : v.stage 0 ≡ handed = rank-handed (v.stage 0) (ground arith) in
        let fits =
          worker_entry-Fits work 0 (s.args 0) (s.place 0) (s.calls 0) now
            (stage_is 0 handed some_cpu g1) in
        Inv-set_at cpus from work v 0 some_cpu entered
          (record (move s 0 (worker_entry (s.args 0) now) top) { main = dirigent }) fits
          (λ j away. (if_else _ away, if_else top away, refl)) (omega arith)
          (λ j jl away. let old = at_main (handing i) e j jl in ground arith) tt
          (omega (arith, ap rank g1)) (omega (arith, ranked (handing i) e)) (λ closed. omega arith)
          (omega (arith, ap in_barrier g1))

    -- The bounds of thread `i` after a step within `worker`.
    room :
        (i r' : ℕ)
        → i < cpus
        → ready_rank i ≤ rank (v.stage i)
        → rank (v.stage i) ≤ 5
        → rank (v.stage i) ≤ r'
        → r' ≤ 6
        → Between cpus from s.main i r'
    room i r' l = Between-on s.main i (rank (v.stage i)) r' v.sane (v.bounds i l)

    pub take-Inv :
        (i : ℕ) (w : Work) (a : Arg)
        → i < cpus
        → s.place i ≡ top
        → wait_for_work (s.args i) ≡ ret (some w, a)
        → Inv cpus from work (suc n) (move s i a (took w))
    take-Inv i w a l at_top run =
        elim (top-Takes work i (s.args i) (s.place i) (s.calls i) (v.stage i) (v.fits i l) at_top) [
          | inl waits ↦ cc
          | inr (b, runs, fits, lo, few) ↦
              let same_arg : set_at s.args i a i ≡ b = set_at_self s.args i a ∙ (cc) in
              let same_work : set_at s.place i (took w) i ≡ took (work i) =
                set_at_self s.place i (took w) ∙ (cc) in
              Inv-set_at cpus from work v i l taken (move s i a (took w))
                (rw (same_arg, same_work) fits)
                (λ j away. (if_else a away, if_else (took w) away, refl))
                (room i 3 l lo (omega arith) (omega arith) (omega arith))
                (λ j jl away. v.bounds j jl) v.sane (omega arith) (omega arith)
                (λ closed. omega arith) (omega (arith, outside (v.stage i) (omega arith)))
        ]

    pub finish-Inv :
        (i : ℕ) (w : Work) (a : Arg)
        → i < cpus
        → s.place i ≡ past w
        → return_finished_work (call_effect w (s.args i)) w ≡ ret a
        → Inv cpus from work
            (suc n)
            (record (move s i a (next_place a)) { calls = set_at s.calls i (s.calls i ++ w ∷ []) })
    finish-Inv i w a l at_past run =
        let (g5, same) =
          past-passed work i (s.args i) (s.place i) (s.calls i) (v.stage i) w (v.fits i l)
            at_past in
        let (b, runs, fits) =
          return-Fits work i (s.args i) (s.place i) (s.calls i) (goes_on i)
            (stage_is i passed l g5) in
        let run' : return_finished_work (call_effect (work i) (s.args i)) (work i) ≡ ret a =
          rw same run in
        let same_arg : b ≡ a = ret_inj run' runs in
        let t = record (move s i a (next_place a)) {
          calls = set_at s.calls i (s.calls i ++ w ∷ []);
        } in
        let two = ready_rank-two i in
        Inv-set_at cpus from work v i l finished t
          (rw
            (
              set_at_self s.args i a,
              set_at_self s.place i (next_place a),
              set_at_self s.calls i (s.calls i ++ w ∷ []),
              ← same,
              ← same_arg,
            )
            fits)
          (λ j away. (if_else a away, if_else (next_place a) away, if_else _ away))
          (room i 6 l (omega (arith, ap rank g5)) (omega (arith, ap rank g5))
            (omega (arith, ap rank g5)) (omega arith))
          (λ j jl away. v.bounds j jl) v.sane (omega (arith, ap rank g5)) (omega arith)
          (λ closed. absurd (omega (arith, v.shut closed i l, ap rank g5)))
          (omega (arith, ap in_barrier g5))

    pub arrive-Inv :
        (i : ℕ) (w : Work)
        → i < cpus
        → s.place i ≡ took w
        → Inv cpus from work
            (suc n)
            (record s { place = set_at s.place i (waiting w); inside = s.inside + 1 })
    arrive-Inv i w l at_took =
        let (g3, same) =
          took-taken work i (s.args i) (s.place i) (s.calls i) (v.stage i) w (v.fits i l) at_took in
        let h = stage_is i taken l g3 in
        let t = record s { place = set_at s.place i (waiting w); inside = s.inside + 1 } in
        let two = ready_rank-two i in
        Inv-set_at cpus from work v i l arrived t
          (record {
            state = h.state;
            holds = h.holds;
            running = h.running;
            flag = h.flag;
            stands = set_at_self s.place i (waiting w) ∙ ap waiting (sym same);
            made = h.made;
          })
          (λ j away. (refl, if_else _ away, refl))
          (room i 4 l (omega (arith, ap rank g3)) (omega (arith, ap rank g3))
            (omega (arith, ap rank g3)) (omega arith))
          (λ j jl away. v.bounds j jl) v.sane (omega (arith, ap rank g3)) (omega arith)
          (λ closed. omega arith) (omega (arith, ap in_barrier g3))
