-- ===== src/Runner/Each.antt =====
-- Mailboxes at rest, and loops over the mailboxes.
use hwvar.Base.{
  ℕ, zero, suc, ◌+◌, Bool, true, false, none, some, List, [], ◌∷◌, ◌≡◌, refl, arith, length,
}
use hwvar.Benchmark.{Work, stops}
use hwvar.Mailbox.{
  State, queued, working, done, Arg, Outcome, ret, queue_work, worker_entry, call_effect_lem,
}
use hwvar.Runner.{each, ◌>>=◌, take_work, depart, serve, await, worker_dirigent}

-- A mailbox between two jobs, of the dirigent or of another worker.
pub record Idle (dirigent : Bool) (a : Arg) : Type 0 where
  pub idle : a.s ≡ State.idle
  pub empty : a.work ≡ none
  pub running : a.run ≡ true
  pub flag : a.dirigent ≡ dirigent

-- The mailbox of a worker that has taken a job which does not stop it.
pub record Holding (dirigent : Bool) (t : Work × Arg) : Type 0 where
  pub state : t.1.s ≡ working
  pub empty : t.1.work ≡ none
  pub goes_on : stops t.0 ≡ false
  pub running : t.1.run ≡ true
  pub flag : t.1.dirigent ≡ dirigent

-- A mailbox that holds a job which does not stop the worker, in the state `s`.
pub record Loaded (s : State) (dirigent : Bool) (a : Arg) : Type 0 where
  pub state : a.s ≡ s
  pub job : Work
  pub holds : a.work ≡ some job
  pub goes_on : stops job ≡ false
  pub running : a.run ≡ true
  pub flag : a.dirigent ≡ dirigent

abbrev pub All : (Arg → Type 0) → List Arg → Type 0
All P [] = Unit
All P (a ∷ as') = P a × All P as'

-- The first `n` mailboxes satisfy `P`, the `m` others `Q`.
abbrev pub Split : (Arg → Type 0) → (Arg → Type 0) → ℕ → ℕ → List Arg → Type 0
Split P Q zero m as' = All Q as' × (length as' ≡ m)
Split P Q (suc n) m [] = ⊥
Split P Q (suc n) m (a ∷ as') = P a × Split P Q n m as'

-- The mailboxes of a dirigent and `m` other workers between two runs.
abbrev pub Ready : ℕ → List Arg → Type 0
Ready m [] = ⊥
Ready m (a ∷ as') = Idle true a × All (Idle false) as' × (length as' ≡ m)

-- A step that can be made, with what holds after it.
abbrev pub Does : Outcome Arg → (Arg → Type 0) → Type 0
Does o P = (b : Arg) × (o ≡ ret b) × P b

abbrev pub DoesAll : Outcome (List Arg) → (List Arg → Type 0) → Type 0
DoesAll o P = (bs : List Arg) × (o ≡ ret bs) × P bs

pub DoesAll-bind :
    {o : Outcome (List Arg)} {P : List Arg → Type 0} {f : List Arg → Outcome (List Arg)}
    (Q : List Arg → Type 0)
    → DoesAll o P
    → ((bs : List Arg) → P bs → DoesAll (f bs) Q)
    → DoesAll (o >>= f) Q
DoesAll-bind {f} Q (bs, e, p) next = let (cs, g, q) = next bs p in (cs, rw e g, q)

-- A loop returns if every round does.
pub each-Split :
    (f : ℕ → Arg → Outcome Arg) (P P' Q : Arg → Type 0)
    → ((i : ℕ) (a : Arg) → P a → Does (f i a) P')
    → (n m i : ℕ) (as' : List Arg) → Split P Q n m as'
    → DoesAll (each f n i as') (Split P' Q n m)
unfolding each
each-Split f P P' Q step zero m i as' h = (as', refl, h)
each-Split f P P' Q step (suc n) m i [] h = absurd h
each-Split f P P' Q step (suc n) m i (a ∷ as') h =
    let (b, e, p) = step i a h.0 in
    let (bs, g, q) = each-Split f P P' Q step n m (i + 1) as' h.1 in (b ∷ bs, rw (e, g), (p, q))

pub All-Split :
    (P Q : Arg → Type 0) (n m : ℕ) (as' : List Arg)
    → ((a : Arg) → P a → Q a)
    → n + m ≡ length as'
    → All P as'
    → Split P Q n m as'
All-Split P Q zero m [] f h p = (tt, omega arith)
All-Split P Q zero m (a ∷ as') f h p =
    ((f a p.0, (All-Split P Q zero (length as') as' f (omega arith) p.1).0), omega arith)
All-Split P Q (suc n) m [] f h p = absurd (omega arith)
All-Split P Q (suc n) m (a ∷ as') f h p = (p.0, All-Split P Q n m as' f (omega arith) p.1)

pub Split-All :
    (P : Arg → Type 0) (n m : ℕ) (as' : List Arg)
    → Split P P n m as'
    → All P as' × (length as' ≡ n + m)
Split-All P zero m as' h = (h.0, omega (arith, h.1))
Split-All P (suc n) m [] h = absurd h
Split-All P (suc n) m (a ∷ as') h =
    let (all, len) = Split-All P n m as' h.1 in ((h.0, all), omega arith)

-- The steps of one job on one mailbox.
module _ {d : Bool} {a : Arg} where
  pub queue_work-Loaded :
      (w : Work) → stops w ≡ false → Idle d a → Does (queue_work a w) (Loaded queued d)
  unfolding queue_work
  queue_work-Loaded w go h = (
    record a { work = some w; s = queued },
    ground arith,
    record {
      state = refl;
      job = w;
      holds = refl;
      goes_on = go;
      running = h.running;
      flag = h.flag;
    },
  )

  pub take_work-Holding : Loaded queued d a → (t : Work × Arg) × (take_work a ≡ ret t) × Holding d t
  unfolding take_work
  take_work-Holding h = (
    (h.job, record a { work = none; s = working }),
    ground arith,
    record { state = refl; empty = refl; goes_on = h.goes_on; running = h.running; flag = h.flag },
  )

  pub await-Idle : Loaded done d a → Does (await a) (Idle d)
  unfolding await
  await-Idle h = (record a { work = none; s = State.idle }, ground arith, ground arith)

pub depart-Loaded : {d : Bool} (t : Work × Arg) → Holding d t → Does (depart t) (Loaded done d)
unfolding depart
depart-Loaded (w, a) h = (
  record a { work = some w; s = done },
  rw (call_effect_lem w a) (ground arith),
  record {
    state = refl;
    job = w;
    holds = refl;
    goes_on = h.goes_on;
    running = h.running;
    flag = h.flag;
  },
)

pub serve-Loaded : {d : Bool} {a : Arg} → Loaded queued d a → Does (serve a) (Loaded done d)
unfolding serve
serve-Loaded h =
    let (t, e, p) = take_work-Holding h in let (b, g, q) = depart-Loaded t p in (b, rw (e, g), q)

pub worker_entry-Loaded :
    (now : ℕ) {a : Arg} → Loaded queued true a → Loaded queued true (worker_entry a now)
unfolding worker_entry
worker_entry-Loaded now {a} h = record {
  state = ground arith;
  job = h.job;
  holds = ground arith;
  goes_on = h.goes_on;
  running = ground arith;
  flag = ground arith;
}

pub worker_dirigent-Loaded :
    (now : ℕ) {a : Arg} → Loaded queued true a → Does (worker_dirigent now a) (Loaded done true)
unfolding worker_dirigent
worker_dirigent-Loaded now h = serve-Loaded (worker_entry-Loaded now h)
