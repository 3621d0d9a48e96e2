-- ===== src/Rendezvous/Stages.antt =====
-- How far a thread has come in a run, and what its mailbox and its place show then.
use hwvar.Base.{
  ℕ, zero, suc, ◌≤◌, true, false, Option, none, some, List, [], ◌∷◌, ◌++◌, ◌≡◌, refl, ap, ◌∙◌,
  arith, if◌then◌else◌, ◌==◌,
}
use hwvar.Benchmark.{Work, stops}
use hwvar.Mailbox.{
  State, idle, queued, working, done, Arg, ret, queue_work, wait_until_done, wait_for_work,
  return_finished_work, call_effect, call_effect_lem, worker_entry,
}
use hwvar.Rendezvous.{Place, out, top, took, waiting, past, home, next_place}

-- In order: without work, with work in its mailbox, the same within `worker` for the dirigent,
-- before the barrier, in it, past it, with the work given back, and fetched by the main thread.
pub data Stage : Type 0 where
  fresh handed entered taken arrived passed finished collected : Stage

abbrev pub rank : Stage → ℕ
rank fresh = 0
rank handed = 1
rank entered = 2
rank taken = 3
rank arrived = 4
rank passed = 5
rank finished = 6
rank collected = 7

abbrev pub in_barrier : Stage → ℕ
in_barrier arrived = 1
in_barrier _ = 0

pub rank_top : (g : Stage) → rank g ≤ 7
rank_top fresh = omega arith
rank_top handed = omega arith
rank_top entered = omega arith
rank_top taken = omega arith
rank_top arrived = omega arith
rank_top passed = omega arith
rank_top finished = omega arith
rank_top collected = omega arith

pub in_barrier-one : (g : Stage) → in_barrier g ≤ 1
in_barrier-one arrived = omega arith
in_barrier-one fresh = omega arith
in_barrier-one handed = omega arith
in_barrier-one entered = omega arith
in_barrier-one taken = omega arith
in_barrier-one passed = omega arith
in_barrier-one finished = omega arith
in_barrier-one collected = omega arith

abbrev pub state_of : Stage → State
state_of fresh = idle
state_of handed = queued
state_of entered = queued
state_of taken = working
state_of arrived = working
state_of passed = working
state_of finished = done
state_of collected = idle

module _ (work : ℕ → Work) where
  abbrev pub holds_of : Stage → ℕ → Option Work
  holds_of handed i = some (work i)
  holds_of entered i = some (work i)
  holds_of finished i = some (work i)
  holds_of _ i = none

  abbrev pub place_of : Stage → ℕ → Place
  place_of entered i = top
  place_of taken i = took (work i)
  place_of arrived i = waiting (work i)
  place_of passed i = past (work i)
  place_of _ i = home i

  abbrev pub calls_of : Stage → ℕ → List Work
  calls_of finished i = work i ∷ []
  calls_of collected i = work i ∷ []
  calls_of _ i = []

  -- What a thread shows at a stage.
  pub record Fits (i : ℕ) (g : Stage) (a : Arg) (p : Place) (c : List Work) : Type 0 where
    pub state : a.s ≡ state_of g
    pub holds : a.work ≡ holds_of g i
    pub running : a.run ≡ true
    pub flag : a.dirigent ≡ (i == 0)
    pub stands : p ≡ place_of g i
    pub made : c ≡ calls_of g i

  -- What each locked section comes to at its stage, in the mailbox and for the thread.
  module _ (i : ℕ) (a : Arg) (p : Place) (c : List Work) where
    pub queue_work-Fits :
        Fits i fresh a p c → (b : Arg) × (queue_work a (work i) ≡ ret b) × Fits i handed b p c
    unfolding queue_work
    queue_work-Fits h = (
      record a { work = some (work i); s = queued },
      ground arith,
      record {
        state = refl;
        holds = refl;
        running = h.running;
        flag = h.flag;
        stands = h.stands;
        made = h.made;
      },
    )

    pub worker_entry-Fits :
        (now : ℕ) → Fits i handed a p c → Fits i entered (worker_entry a now) top c
    unfolding worker_entry
    worker_entry-Fits now h = record {
      state = ground arith;
      holds = ground arith;
      running = ground arith;
      flag = ground arith;
      stands = refl;
      made = h.made;
    }

    pub return-Fits :
        stops (work i) ≡ false
        → Fits i passed a p c
        → (b : Arg) × (return_finished_work (call_effect (work i) a) (work i) ≡ ret b)
          × Fits i finished b (next_place b) (c ++ work i ∷ [])
    unfolding return_finished_work
    return-Fits goes_on h = (
      record a { work = some (work i); s = done },
      rw (call_effect_lem (work i) a) (ground arith),
      record {
        state = refl;
        holds = refl;
        running = h.running;
        flag = h.flag;
        stands = ap (λ b. if b then out else top) h.flag ∙ homes i;
        made = ap (λ l. l ++ work i ∷ []) h.made;
      },
    )
      where
        homes : (k : ℕ) → (if k == 0 then out else top) ≡ home k
        homes zero = refl
        homes (suc k) = ground arith

    pub wait_until_done-Fits :
        Fits i finished a p c
        → (b : Arg) × (wait_until_done a ≡ ret (some (work i), b)) × Fits i collected b p c
    unfolding wait_until_done
    wait_until_done-Fits h = (
      record a { work = none; s = idle },
      ground arith,
      record {
        state = refl;
        holds = refl;
        running = h.running;
        flag = h.flag;
        stands = h.stands;
        made = h.made;
      },
    )

    -- At a stage with work in the mailbox.
    pub wait_for_work-Fits :
        a.s ≡ queued
        → a.work ≡ some (work i)
        → a.run ≡ true
        → a.dirigent ≡ (i == 0)
        → c ≡ []
        → (b : Arg) × (wait_for_work a ≡ ret (some (work i), b)) × Fits i taken b (took (work i)) c
    unfolding wait_for_work
    wait_for_work-Fits e f run flag none_made = (
      record a { work = none; s = working },
      ground arith,
      record {
        state = refl;
        holds = refl;
        running = run;
        flag = flag;
        stands = refl;
        made = none_made;
      },
    )
