-- ===== src/Rendezvous/Inv.antt =====
-- The invariant of a run: how far each thread can be, by where the main thread stands.
use mathlib.Core.Path.{subst}
use hwvar.Base.{
  ℕ, suc, ◌+◌, ◌≤◌, ◌<◌, Bool, true, false, ◌≡◌, sym, arith, if◌then◌else◌, ◌==◌, ◌&&◌, ltb, leb,
  set_at, total, total-set_at, Bool-cases, inl, inr, if_then, if_else, set_at_self,
}
use hwvar.Benchmark.{Work}
use hwvar.Rendezvous.{Main, handing, dirigent, awaiting, returned, aborted, System}
use hwvar.Rendezvous.Stages.{Stage, rank, in_barrier, Fits}

module _ (cpus from : ℕ) where
  -- Whether the main thread has fetched the work of thread `i` back.
  abbrev pub fetched : ℕ → ℕ → Bool
  fetched k i = leb from i && ltb i k

  -- The ranks between which a thread is.
  abbrev pub low : Main → ℕ → ℕ
  low (handing k) i = if ltb i k then 1 else 0
  low dirigent i = if i == 0 then 2 else 1
  low (awaiting k) i = if fetched k i then 7 else if i == 0 then 6 else 1
  low returned i = if leb from i then 7 else 6
  low aborted i = 0

  abbrev pub high : Main → ℕ → ℕ
  high (handing k) i = if ltb i k then (if i == 0 then 1 else 6) else 0
  high dirigent i = 6
  high (awaiting k) i = if fetched k i then 7 else 6
  high returned i = if leb from i then 7 else 6
  high aborted i = 7

  abbrev pub Sane : Main → Type 0
  Sane (handing k) = k ≤ cpus
  Sane dirigent = Unit
  Sane (awaiting k) = (from ≤ k) × (k ≤ cpus)
  Sane returned = Unit
  Sane aborted = ⊥

  -- How far the main thread has come.
  abbrev pub main_rank : Main → ℕ
  main_rank (handing k) = k
  main_rank dirigent = cpus + 1
  main_rank (awaiting k) = cpus + 2 + k
  main_rank returned = cpus + 3 + cpus
  main_rank aborted = 0

  abbrev pub Between : Main → ℕ → ℕ → Type 0
  Between m i r = (low m i ≤ r) × (r ≤ high m i)

module _ (cpus from : ℕ) (work : ℕ → Work) where
  -- After `n` steps: every thread is at a stage within its bounds, and the barrier has let either
  -- nobody go or all. Each step was one stage of a thread or of the main thread.
  pub record Inv (n : ℕ) (s : System) : Type 0 where
    pub stage : ℕ → Stage
    pub opened : Bool
    pub fits : (i : ℕ) → i < cpus → Fits work i (stage i) (s.args i) (s.place i) (s.calls i)
    pub bounds : (i : ℕ) → i < cpus → Between cpus from s.main i (rank (stage i))
    pub sane : Sane cpus from s.main
    pub shut : opened ≡ false → (i : ℕ) → i < cpus → rank (stage i) ≤ 4
    pub let_in : opened ≡ true → (i : ℕ) → i < cpus → 5 ≤ rank (stage i)
    pub inside : s.inside ≡ total (λ i. in_barrier (stage i)) cpus
    pub steps : n ≤ total (λ i. rank (stage i)) cpus + main_rank cpus from s.main

  -- A family of stages with one thread moved on.
  module _ {n : ℕ} {s : System} (v : Inv n s) (i : ℕ) (l : i < cpus) (h : Stage) (t : System) where
    pub Fits-set_at :
        Fits work i h (t.args i) (t.place i) (t.calls i)
        → ((j : ℕ)
            → (i == j) ≡ false
            → (t.args j ≡ s.args j) × (t.place j ≡ s.place j) × (t.calls j ≡ s.calls j))
        → (j : ℕ) → j < cpus
        → Fits work j (set_at v.stage i h j) (t.args j) (t.place j) (t.calls j)
    Fits-set_at here same j jl = elim (Bool-cases (i == j)) [
      | inl e ↦
          let is_j : i ≡ j = ground arith in
          subst (λ k. Fits work k (set_at v.stage i h k) (t.args k) (t.place k) (t.calls k)) is_j
            (subst (λ g. Fits work i g (t.args i) (t.place i) (t.calls i))
              (sym (set_at_self v.stage i h)) here)
      | inr e ↦
          let (a, p, c) = same j e in
          let old = v.fits j jl in
          let stays : set_at v.stage i h j ≡ v.stage j = if_else _ e in rw (stays, a, p, c) old
    ]

    pub Between-set_at :
        Between cpus from t.main i (rank h)
        → ((j : ℕ) → j < cpus → (i == j) ≡ false → Between cpus from t.main j (rank (v.stage j)))
        → (j : ℕ) → j < cpus
        → Between cpus from t.main j (rank (set_at v.stage i h j))
    Between-set_at here same j jl = elim (Bool-cases (i == j)) [
      | inl e ↦
          let is_j : i ≡ j = ground arith in
          subst (λ k. Between cpus from t.main k (rank (set_at v.stage i h k))) is_j
            (subst (λ g. Between cpus from t.main i (rank g)) (sym (set_at_self v.stage i h)) here)
      | inr e ↦ subst (λ g. Between cpus from t.main j (rank g)) (sym (if_else h e)) (same j jl e)
    ]

    -- One thread moves on, with what that does to the barrier and the main thread.
    pub Inv-set_at :
        Fits work i h (t.args i) (t.place i) (t.calls i)
        → ((j : ℕ)
            → (i == j) ≡ false
            → (t.args j ≡ s.args j) × (t.place j ≡ s.place j) × (t.calls j ≡ s.calls j))
        → Between cpus from t.main i (rank h)
        → ((j : ℕ) → j < cpus → (i == j) ≡ false → Between cpus from t.main j (rank (v.stage j)))
        → Sane cpus from t.main
        → rank (v.stage i) < rank h
        → main_rank cpus from s.main ≤ main_rank cpus from t.main
        → (v.opened ≡ false → rank h ≤ 4)
        → t.inside + in_barrier (v.stage i) ≡ s.inside + in_barrier h
        → Inv (suc n) t
    Inv-set_at here same room others sane up main_up closed counted = record {
      stage = set_at v.stage i h;
      opened = v.opened;
      fits = Fits-set_at here same;
      bounds = Between-set_at room others;
      sane = sane;
      shut = λ e j jl. elim (Bool-cases (i == j)) [
        | inl here ↦ subst (λ g. rank g ≤ 4) (sym (if_then (v.stage j) here)) (closed e)
        | inr away ↦ subst (λ g. rank g ≤ 4) (sym (if_else h away)) (v.shut e j jl)
      ];
      let_in = λ e j jl. elim (Bool-cases (i == j)) [
        | inl here ↦
            let before = v.let_in e i l in
            subst (λ g. 5 ≤ rank g) (sym (if_then (v.stage j) here)) (omega arith)
        | inr away ↦ subst (λ g. 5 ≤ rank g) (sym (if_else h away)) (v.let_in e j jl)
      ];
      inside = omega (arith, total-set_at in_barrier v.stage i h cpus l, v.inside);
      steps = omega (arith, total-set_at rank v.stage i h cpus l, v.steps);
    }

  -- The main thread moves on alone.
  pub Inv-main :
      {n : ℕ} {s : System} (v : Inv n s) (m : Main)
      → ((j : ℕ) → j < cpus → Between cpus from m j (rank (v.stage j)))
      → Sane cpus from m
      → main_rank cpus from s.main < main_rank cpus from m
      → Inv (suc n) (record s { main = m })
  Inv-main v m bounds sane up = record {
    stage = v.stage;
    opened = v.opened;
    fits = v.fits;
    bounds = bounds;
    sane = sane;
    shut = v.shut;
    let_in = v.let_in;
    inside = v.inside;
    steps = omega (arith, v.steps);
  }
