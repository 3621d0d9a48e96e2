-- ===== src/Rendezvous/Moves.antt =====
-- Which stage a thread is at, from the place where it stands.
use hwvar.Base.{
  ℕ, zero, suc, ◌≤◌, false, Option, some, List, ◌≡◌, refl, ap, sym, ◌∙◌, arith, if◌then◌else◌, ◌==◌,
  ◌⊎◌, inl, inr, ◌≢◌,
}
use hwvar.Benchmark.{Work}
use hwvar.Mailbox.{Arg, ret, wait, wait_for_work, wait_until_done, is_done, idle, done}
use hwvar.Rendezvous.{Place, out, top, took, waiting, past, home, let_go}
use hwvar.Rendezvous.Stages.{
  Stage, fresh, handed, entered, taken, arrived, passed, finished, collected, rank, Fits,
  wait_for_work-Fits,
}

-- Work that can be taken is at stage 1, or at stage 2 for the dirigent.
abbrev pub ready_rank : ℕ → ℕ
ready_rank i = if i == 0 then 2 else 1

idle-waits : (a : Arg) → a.s ≡ idle → wait_for_work a ≡ wait
unfolding wait_for_work
idle-waits a e = ground arith

done-waits : (a : Arg) → a.s ≡ done → wait_for_work a ≡ wait
unfolding wait_for_work
done-waits a e = ground arith

home-top : (i : ℕ) → home i ≡ top → ready_rank i ≡ 1
home-top zero e = cc
home-top (suc i) e = ground arith

module _ (work : ℕ → Work) (i : ℕ) (a : Arg) (p : Place) (c : List Work) where
  -- A thread at the head of its loop has to wait, or it takes its work.
  abbrev pub Takes : Stage → Type 0
  Takes g =
      (b : Arg) × (wait_for_work a ≡ ret (some (work i), b))
      × Fits work i taken b (took (work i)) c
      × (ready_rank i ≤ rank g)
      × (rank g ≤ 2)

  pub top-Takes : (g : Stage) → Fits work i g a p c → p ≡ top → (wait_for_work a ≡ wait) ⊎ Takes g
  top-Takes fresh h e = inl (idle-waits a h.state)
  top-Takes handed h e =
      let (b, run, fits) =
        wait_for_work-Fits work i a p c h.state h.holds h.running h.flag h.made in
      let at_home = home-top i (sym h.stands ∙ e) in inr (b, run, fits, omega arith, omega arith)
  top-Takes entered h e =
      let (b, run, fits) =
        wait_for_work-Fits work i a p c h.state h.holds h.running h.flag h.made in
      inr (b, run, fits, ground arith, omega arith)
  top-Takes taken h e = let clash : took (work i) ≡ top = sym h.stands ∙ e in cc
  top-Takes arrived h e = let clash : waiting (work i) ≡ top = sym h.stands ∙ e in cc
  top-Takes passed h e = let clash : past (work i) ≡ top = sym h.stands ∙ e in cc
  top-Takes finished h e = inl (done-waits a h.state)
  top-Takes collected h e = inl (idle-waits a h.state)

  home-ne : (k : ℕ) (w : Work) → (home k ≢ took w) × (home k ≢ past w)
  home-ne zero w = (λ e. cc, λ e. cc)
  home-ne (suc k) w = (λ e. cc, λ e. cc)

  pub took-taken :
      (g : Stage) (w : Work) → Fits work i g a p c → p ≡ took w → (g ≡ taken) × (work i ≡ w)
  took-taken fresh w h e = absurd ((home-ne i w).0 (sym h.stands ∙ e))
  took-taken handed w h e = absurd ((home-ne i w).0 (sym h.stands ∙ e))
  took-taken entered w h e = let clash : top ≡ took w = sym h.stands ∙ e in cc
  took-taken taken w h e = let same : took (work i) ≡ took w = sym h.stands ∙ e in (refl, cc)
  took-taken arrived w h e = let clash : waiting (work i) ≡ took w = sym h.stands ∙ e in cc
  took-taken passed w h e = let clash : past (work i) ≡ took w = sym h.stands ∙ e in cc
  took-taken finished w h e = absurd ((home-ne i w).0 (sym h.stands ∙ e))
  took-taken collected w h e = absurd ((home-ne i w).0 (sym h.stands ∙ e))

  pub past-passed :
      (g : Stage) (w : Work) → Fits work i g a p c → p ≡ past w → (g ≡ passed) × (work i ≡ w)
  past-passed fresh w h e = absurd ((home-ne i w).1 (sym h.stands ∙ e))
  past-passed handed w h e = absurd ((home-ne i w).1 (sym h.stands ∙ e))
  past-passed entered w h e = let clash : top ≡ past w = sym h.stands ∙ e in cc
  past-passed taken w h e = let clash : took (work i) ≡ past w = sym h.stands ∙ e in cc
  past-passed arrived w h e = let clash : waiting (work i) ≡ past w = sym h.stands ∙ e in cc
  past-passed passed w h e = let same : past (work i) ≡ past w = sym h.stands ∙ e in (refl, cc)
  past-passed finished w h e = absurd ((home-ne i w).1 (sym h.stands ∙ e))
  past-passed collected w h e = absurd ((home-ne i w).1 (sym h.stands ∙ e))

  -- Who is outside of `worker` has not begun, or has given its work back.
  pub out-rank : (g : Stage) → Fits work i g a p c → p ≡ out → (rank g ≤ 1) ⊎ (6 ≤ rank g)
  out-rank fresh h e = inl (omega arith)
  out-rank handed h e = inl (omega arith)
  out-rank entered h e = let clash : top ≡ out = sym h.stands ∙ e in cc
  out-rank taken h e = let clash : took (work i) ≡ out = sym h.stands ∙ e in cc
  out-rank arrived h e = let clash : waiting (work i) ≡ out = sym h.stands ∙ e in cc
  out-rank passed h e = let clash : past (work i) ≡ out = sym h.stands ∙ e in cc
  out-rank finished h e = inr (omega arith)
  out-rank collected h e = inr (omega arith)

  pub arrived-let_go : Fits work i arrived a p c → Fits work i passed a (let_go p) c
  arrived-let_go h = record {
    state = h.state;
    holds = h.holds;
    running = h.running;
    flag = h.flag;
    stands = ap let_go h.stands;
    made = h.made;
  }

  not_done : is_done a.s ≡ false → wait_until_done a ≡ wait
  unfolding wait_until_done
  not_done e = ground arith

  -- Only work that was given back is fetched.
  pub done-finished :
      (g : Stage) (r : Option Work) (b : Arg)
      → Fits work i g a p c
      → wait_until_done a ≡ ret (r, b)
      → g ≡ finished
  done-finished finished r b h e = refl
  done-finished g r b h e = let blocked = not_done (ap is_done h.state) in cc
