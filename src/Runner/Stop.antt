-- ===== src/Runner/Stop.antt =====
-- `stop_workers` stops every worker but the dirigent.
use hwvar.Base.{
  ℕ, zero, suc, ◌+◌, true, false, none, List, [], ◌∷◌, ◌≡◌, refl, arith, length, if_then,
}
use hwvar.Mailbox.{State, Arg, ret, queue_work, call_effect, calls}
use hwvar.Runner.{each, take_work, depart, serve, await, stop_one, stop_workers}
use hwvar.Runner.Each.{Idle, All, Split, Does, DoesAll, each-Split, Split-All}

-- The mailbox of a worker that has left its loop.
pub record Stopped (a : Arg) : Type 0 where
  pub idle : a.s ≡ State.idle
  pub empty : a.work ≡ none
  pub down : a.run ≡ false

stop_one-Stopped : (i : ℕ) (a : Arg) → Idle false a → Does (stop_one i a) Stopped
unfolding stop_one queue_work serve take_work depart await call_effect calls
stop_one-Stopped i a h =
    (record a { work = none; s = State.idle; run = false }, ground arith, ground arith)

-- A mailbox of the dirigent, in whatever state, before those of `m` workers at rest.
abbrev pub Stoppable : ℕ → List Arg → Type 0
Stoppable m [] = ⊥
Stoppable m (a ∷ as') = (a.dirigent ≡ true) × All (Idle false) as' × (length as' ≡ m)

-- The dirigent stays as it is, every other worker is stopped.
abbrev pub AllStopped : List Arg → List Arg → Type 0
AllStopped [] bs = ⊥
AllStopped (a ∷ as') [] = ⊥
AllStopped (a ∷ as') (b ∷ bs) = (a ≡ b) × All Stopped bs × (length bs ≡ length as')

dirigent_stays : (i : ℕ) (c : Arg) → c.dirigent ≡ true → stop_one i c ≡ ret c
dirigent_stays i c h = unfold stop_one in if_then _ h

All-All :
    (P Q : Arg → Type 0) (m : ℕ) (as' : List Arg) → length as' ≡ m → All P as' → Split P Q m 0 as'
All-All P Q zero [] e h = (tt, refl)
All-All P Q zero (a ∷ as') e h = absurd (omega arith)
All-All P Q (suc m) [] e h = absurd (omega arith)
All-All P Q (suc m) (a ∷ as') e h = (h.0, All-All P Q m as' (omega arith) h.1)

-- From mailboxes at rest, that of the dirigent in any state, `stop_workers` returns: no assertion
-- fails and no wait blocks for ever, every worker but the dirigent has its flag `run` down, and
-- the dirigent is untouched.
pub stop_workers-AllStopped :
    (m : ℕ) (as' : List Arg) → Stoppable m as' → DoesAll (stop_workers (suc m) as') (AllStopped as')
unfolding stop_workers each
stop_workers-AllStopped m [] v = absurd v
stop_workers-AllStopped m (a ∷ as') v =
    let (bs, g, q) =
      each-Split stop_one (Idle false) Stopped Stopped stop_one-Stopped m 0 (0 + 1) as'
        (All-All (Idle false) Stopped m as' v.2 v.1) in
    let (all, len) = Split-All Stopped m 0 bs q in
    (a ∷ bs, rw (dirigent_stays 0 a v.0, g), (refl, all, omega (arith, v.2)))
