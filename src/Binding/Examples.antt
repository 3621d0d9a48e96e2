-- ===== src/Binding/Examples.antt =====
-- A thread that is bound to the third of four processors.
use hwvar.Base.{
  ℕ, Bool, true, false, ◌&&◌, ◌||◌, Option, none, some, List, [], ◌∷◌, ◌≡◌, refl, arith, ◌==◌,
  Bool-cases, inl, inr,
}
use hwvar.Mailbox.{State, Arg}
use hwvar.Binding.{
  Bitmaps, hwloc_set_cpubind, thread_bound, Host, add_set, current_cpuset_getaffinity, is_bound,
  bind_thread,
}
use hwvar.Binding.Reported.{Laws, BoundTo, bind_thread-BoundTo}

abbrev has : List ℕ → ℕ → Bool
has [] k = false
has (m ∷ ms) k = (m == k) || has ms k

abbrev same : List ℕ → List ℕ → Bool
same [] [] = true
same (m ∷ ms) (n ∷ ns) = (m == n) && same ms ns
same _ _ = false

abbrev first_of : List ℕ → Option ℕ
first_of [] = none
first_of (m ∷ ms) = some m

-- Sets as lists, the processor that was added last being the first.
abbrev sets : Bitmaps
sets = record {
  Bitmap = List ℕ;
  empty = [];
  add = λ ms n. n ∷ ms;
  is_equal = same;
  first = first_of;
}

same-has : (a b : List ℕ) (k : ℕ) → same a b ≡ true → has a k ≡ has b k
same-has [] [] k e = refl
same-has [] (n ∷ ns) k e = cc
same-has (m ∷ ms) [] k e = cc
same-has (m ∷ ms) (n ∷ ns) k e = elim (Bool-cases (m == n)) [
  | inl heads ↦
      let tails : same ms ns ≡ true = ground arith in
      let equal : m ≡ n = ground arith in rw (equal, same-has ms ns k tails) refl
  | inr differ ↦ absurd (ground arith)
]

sets-Laws : Laws sets has
sets-Laws = record { has-empty = λ k. refl; has-add = λ b n k. refl; has-is_equal = same-has }

abbrev host : Host sets
host = record {
  is_thissystem = true;
  is_mckernel = false;
  get_cpubind = some (2 ∷ []);
  get_last_cpu_location = some (2 ∷ []);
  sched_getaffinity = some (λ k. k == 2);
  sched_getcpu = some 2;
  unset = λ k. true;
  setsize = 4;
}

abbrev third : Arg
third = record {
  work = none;
  s = State.idle;
  run = true;
  init = false;
  dirigent = false;
  thread = 1;
  cpu = 2;
  do_binding = true;
}

reported : (bind_thread sets host (2 ∷ []) third).1 ≡ thread_bound
unfolding bind_thread is_bound current_cpuset_getaffinity add_set
reported = refl

one_processor : (k : ℕ) → has (2 ∷ []) k ≡ (2 == k)
one_processor k = ground arith

bind_thread-BoundTo_example :
    BoundTo sets has sets-Laws host (λ k. k == 2) 2
    × ((bind_thread sets host (2 ∷ []) third).0 ≡ hwloc_set_cpubind)
    × ((bind_thread sets host (2 ∷ []) third).2 ≡ third)
bind_thread-BoundTo_example =
    bind_thread-BoundTo sets has sets-Laws host (λ k. k == 2) (2 ∷ []) third refl one_processor refl
      reported
