-- ===== src/Rendezvous/Safety.antt =====
-- The workers of a run begin together, and what the run leaves.
use mathlib.Core.Option.{some_inj}
use mathlib.Core.Path.{subst}
use hwvar.Base.{
  ℕ, zero, suc, ◌≤◌, ◌<◌, true, false, some, none, [], ◌∷◌, ◌≡◌, sym, ◌∙◌, arith, if◌then◌else◌,
  ◌==◌, leb, ◌⊎◌, inl, inr, Bool-cases,
}
use hwvar.Benchmark.{Work, stops}
use hwvar.Mailbox.{idle, done, Arg}
use hwvar.Runner.Each.{Idle}
use hwvar.Rendezvous.{returned, past, System, Meeting, init_step, home, Reach}
use hwvar.Rendezvous.Stages.{
  Stage, fresh, handed, entered, taken, arrived, passed, finished, collected, rank, Fits,
}
use hwvar.Rendezvous.Inv.{Inv, Between}
use hwvar.Rendezvous.Reached.{Reach-Inv}

-- A thread has passed the barrier: it stands behind it, or has made the repetitions of its work.
abbrev pub Passed : (ℕ → Work) → System → ℕ → Type 0
Passed work s i = (s.place i ≡ past (work i)) ⊎ (s.calls i ≡ work i ∷ [])

-- What a run leaves of a thread: it has been through the repetitions of its work once, it is out of
-- the way, and its mailbox is at rest, where the main thread has fetched the work.
pub record Done (from : ℕ) (work : ℕ → Work) (s : System) (i : ℕ) : Type 0 where
  pub called : s.calls i ≡ work i ∷ []
  pub away : s.place i ≡ home i
  pub state : (s.args i).s ≡ (if leb from i then idle else done)
  pub holds : (s.args i).work ≡ (if leb from i then none else some (work i))
  pub running : (s.args i).run ≡ true
  pub flag : (s.args i).dirigent ≡ (i == 0)

home-ne-past : (i : ℕ) (w : Work) → home i ≡ past w → ⊥
home-ne-past zero w e = cc
home-ne-past (suc i) w e = cc

module _ (work : ℕ → Work) (s : System) (i : ℕ) where
  Passed-rank :
      (g : Stage) → Fits work i g (s.args i) (s.place i) (s.calls i) → Passed work s i → 5 ≤ rank g
  Passed-rank passed h p = omega arith
  Passed-rank finished h p = omega arith
  Passed-rank collected h p = omega arith
  Passed-rank fresh h (inl e) = absurd (home-ne-past i (work i) (sym h.stands ∙ e))
  Passed-rank handed h (inl e) = absurd (home-ne-past i (work i) (sym h.stands ∙ e))
  Passed-rank entered h (inl e) = cc (sym h.stands ∙ e)
  Passed-rank taken h (inl e) = cc (sym h.stands ∙ e)
  Passed-rank arrived h (inl e) = cc (sym h.stands ∙ e)
  Passed-rank fresh h (inr e) = cc (sym h.made ∙ e)
  Passed-rank handed h (inr e) = cc (sym h.made ∙ e)
  Passed-rank entered h (inr e) = cc (sym h.made ∙ e)
  Passed-rank taken h (inr e) = cc (sym h.made ∙ e)
  Passed-rank arrived h (inr e) = cc (sym h.made ∙ e)

  rank-Passed :
      (g : Stage) → Fits work i g (s.args i) (s.place i) (s.calls i) → 5 ≤ rank g → Passed work s i
  rank-Passed passed h l = inl h.stands
  rank-Passed finished h l = inr h.made
  rank-Passed collected h l = inr h.made
  rank-Passed g h l = absurd (omega arith)

  collected-Done :
      (from : ℕ) (g : Stage)
      → Fits work i g (s.args i) (s.place i) (s.calls i)
      → Between 0 from returned i (rank g)
      → Done from work s i
  collected-Done from finished h b = record {
    called = h.made;
    away = h.stands;
    state = ground arith;
    holds = ground arith;
    running = h.running;
    flag = h.flag;
  }
  collected-Done from collected h b = record {
    called = h.made;
    away = h.stands;
    state = ground arith;
    holds = ground arith;
    running = h.running;
    flag = h.flag;
  }
  collected-Done from g h b = absurd (ground arith)

-- The step is that of `init_step (cpus)`, as both functions make it.
module _ (cpus from : ℕ) (meeting : Meeting) (work : ℕ → Work) (args : ℕ → Arg)
    (some_cpu : 0 < cpus) (early : from ≤ 1) (goes_on : (i : ℕ) → stops (work i) ≡ false)
    (built : init_step true true cpus ≡ some meeting)
    (rest : (i : ℕ) → i < cpus → Idle (i == 0) (args i)) where
  pub Reach-init_step-Inv :
      {n : ℕ} {s : System} → Reach cpus from meeting work args n s → Inv cpus from work n s
  Reach-init_step-Inv {n} {s} r =
      Reach-Inv cpus from work goes_on some_cpu early rest
        (subst (λ m. Reach cpus from m work args n s) (sym (some_inj.0 built)) r)

  -- In a run of workers at rest, with the barrier that `init_step` makes for their number, and work
  -- that stops no worker: wherever
  -- one thread has passed the barrier, every thread has, however the threads were interleaved. So
  -- no repetition is begun before all workers have taken their work.
  pub Passed-together :
      (n : ℕ) (s : System) (i j : ℕ)
      → Reach cpus from meeting work args n s
      → i < cpus
      → j < cpus
      → Passed work s i
      → Passed work s j
  Passed-together n s i j r il jl p =
      let v = Reach-init_step-Inv r in
      let far = Passed-rank work s i (v.stage i) (v.fits i il) p in
      elim (Bool-cases v.opened) [
        | inl e ↦ rank-Passed work s j (v.stage j) (v.fits j jl) (v.let_in e j jl)
        | inr e ↦ absurd (omega (arith, v.shut e i il))
      ]

  -- In a run of workers at rest, with the barrier that `init_step` makes for their number, and work
  -- that stops no worker: where the main thread has returned, every thread has been through its own
  -- work, exactly once, and through no other; it is at the head of its loop, or outside of `worker`
  -- for the dirigent, so that none is left at the barrier; and its mailbox is at rest from `from` on,
  -- where the work was fetched, and still holds the finished work before.
  pub returned-Done :
      (n : ℕ) (s : System) (i : ℕ)
      → Reach cpus from meeting work args n s
      → s.main ≡ returned
      → i < cpus
      → Done from work s i
  returned-Done n s i r e il =
      let v = Reach-init_step-Inv r in
      let here = subst (λ m. Between cpus from m i (rank (v.stage i))) e (v.bounds i il) in
      collected-Done work s i from (v.stage i) (v.fits i il) here
