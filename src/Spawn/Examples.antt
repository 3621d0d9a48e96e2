-- ===== src/Spawn/Examples.antt =====
-- Four cores, of which the set has two.
use hwvar.Base.{
  ℕ, Bool, true, false, ◌&&◌, ◌||◌, Option, none, some, List, [], ◌∷◌, ◌≡◌, refl, ◌==◌,
  if◌then◌else◌, length,
}
use hwvar.Mailbox.{Arg}
use hwvar.Spawn.{Bitmaps, spawned, worker_arg, spawn_workers}
use hwvar.Spawn.Workers.{Workers, spawn_workers-Workers}

abbrev has : ℕ → List ℕ → Bool
has n [] = false
has n (m ∷ ms) = n == m || has n ms

abbrev keep_first : List ℕ → List ℕ
keep_first [] = []
keep_first (m ∷ ms) = m ∷ []

abbrev all_in : List ℕ → List ℕ → Bool
all_in [] ms = true
all_in (n ∷ ns) ms = has n ms && all_in ns ms

abbrev first_of_set : List ℕ → Option ℕ
first_of_set [] = none
first_of_set (m ∷ ms) = some m

-- Sets as lists without repetitions.
abbrev sets : Bitmaps
sets = record {
  Bitmap = List ℕ;
  empty = [];
  singlify = keep_first;
  is_included = all_in;
  first = first_of_set;
  add = λ ms n. if has n ms then ms else n ∷ ms;
  weight = length;
}

abbrev core : ℕ → Option (List ℕ)
core pu = some (pu ∷ [])

abbrev made : ℕ → ℕ → Arg
made = worker_arg sets core (λ i. true) (λ i. false) true (1 ∷ 3 ∷ [])

two_workers :
    spawn_workers sets core (λ i. true) (λ i. false) true (1 ∷ 3 ∷ []) 4
    ≡ spawned (made 0 1 ∷ made 1 3 ∷ []) (3 ∷ 1 ∷ [])
unfolding spawn_workers
two_workers = refl

spawn_workers-Workers_example :
    Workers sets core
      (λ i. true)
      (λ i. false)
      true
      (1 ∷ 3 ∷ [])
      4
      (made 0 1 ∷ made 1 3 ∷ [])
      (3 ∷ 1 ∷ [])
spawn_workers-Workers_example =
    spawn_workers-Workers sets core (λ i. true) (λ i. false) true (1 ∷ 3 ∷ []) 4
      (made 0 1 ∷ made 1 3 ∷ []) (3 ∷ 1 ∷ []) two_workers
