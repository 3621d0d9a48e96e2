-- ===== src/Runner/Barrier.antt =====
-- The workers of a run meet at its barrier: all of them come to it, as many as it was made for.
use hwvar.Base.{
  ℕ, zero, suc, true, false, List, [], ◌∷◌, ◌≡◌, refl, arith, length, ◌==◌, if_then, ◌∙◌,
}
use hwvar.Benchmark.{Work}
use hwvar.Mailbox.{State, queued, done, Arg, ret}
use hwvar.Runner.{gather, scatter, work_phase}
use hwvar.Runner.Each.{
  Idle, Loaded, Holding, All, Split, DoesAll, take_work-Holding, depart-Loaded, worker_entry-Loaded,
}

-- The first `n + 1` mailboxes hold a job in the state `s`, the dirigent's among them; `m` more are
-- at rest.
abbrev pub Phase : State → ℕ → ℕ → List Arg → Type 0
Phase s n m [] = ⊥
Phase s n m (a ∷ as') = Loaded s true a × Split (Loaded s false) (Idle false) n m as'

abbrev AllHolding : List (Work × Arg) → Type 0
AllHolding [] = Unit
AllHolding (t ∷ ts) = Holding false t × AllHolding ts

-- `n` workers hold their work at the barrier, and the other `m` mailboxes are at rest.
abbrev Gathered : ℕ → ℕ → List (Work × Arg) × List Arg → Type 0
Gathered n m r = AllHolding r.0 × (length r.0 ≡ n) × All (Idle false) r.1 × (length r.1 ≡ m)

gather-Gathered :
    (n m : ℕ) (as' : List Arg)
    → Split (Loaded queued false) (Idle false) n m as'
    → (r : List (Work × Arg) × List Arg) × (gather n as' ≡ ret r) × Gathered n m r
unfolding gather
gather-Gathered zero m as' h = (([], as'), refl, (tt, refl, h.0, h.1))
gather-Gathered (suc n) m [] h = absurd h
gather-Gathered (suc n) m (a ∷ as') h =
    let (t, e, p) = take_work-Holding h.0 in
    let (r, g, h') = gather-Gathered n m as' h.1 in
    ((t ∷ r.0, r.1), rw (e, g), ((p, h'.0), omega (arith, h'.1), h'.2, h'.3))

scatter-Split :
    (n m : ℕ) (ts : List (Work × Arg)) (as' : List Arg)
    → Gathered n m (ts, as')
    → DoesAll (scatter ts as') (Split (Loaded done false) (Idle false) n m)
unfolding scatter
scatter-Split zero m [] as' v = (as', refl, (v.2, v.3))
scatter-Split zero m (t ∷ ts) as' v = absurd (omega (arith, v.1))
scatter-Split (suc n) m [] as' v = absurd (omega (arith, v.1))
scatter-Split (suc n) m (t ∷ ts) as' v =
    let (b, e, p) = depart-Loaded t v.0.0 in
    let (bs, g, q) = scatter-Split n m ts as' (v.0.1, omega (arith, v.1), v.2, v.3) in
    (b ∷ bs, rw (e, g), (p, q))

-- The workers all pass a barrier that was made for their number.
pub work-Phase :
    (now n m : ℕ) (as' : List Arg)
    → Phase queued n m as'
    → DoesAll (work_phase now (suc n) (suc n) as') (Phase done n m)
unfolding work_phase gather scatter
work-Phase now n m [] v = absurd v
work-Phase now n m (a ∷ as') v =
    let (t, e, p) = take_work-Holding (worker_entry-Loaded now v.0) in
    let (r, g, all) = gather-Gathered n m as' v.1 in
    let (b, f, q) = depart-Loaded t p in
    let (bs, k, s) = scatter-Split n m r.0 r.1 all in
    let full : (suc (length r.0) == suc n) ≡ true = ground (arith, all.1) in
    (b ∷ bs, if_then _ v.0.flag ∙ rw (e, g) (if_then _ full ∙ rw (f, k)), (q, s))
