-- ===== src/Pmu/Bluegene/Calls.antt =====
-- When the functions for Blue Gene/Q return, and what they leave.
use hwvar.Base.{
  ℕ, ◌<◌, Bool, true, false, ◌&&◌, Option, none, some, List, [], ◌∷◌, ◌++◌, ◌≡◌, refl, ap, sym, ◌∙◌,
  arith, if◌then◌else◌, Bool-cases, inl, inr,
}
use mathlib.Core.List.{append-nil, append_assoc}
use hwvar.Pmu.Events.{set_at, find_event, Ending, returned, exit_failure, ◌>>=◌}
use hwvar.Pmu.Bluegene.{Bgpm, check, events, add_one, add_all, arch_pmu_init, arch_pmu_end}

module _ (bgpm : Bgpm) where
  -- The events of the names that are known.
  unfoldable pub known : List (List ℕ) → List ℕ
  known [] = []
  known (n ∷ ns) = elim (find_event n (events bgpm)) [ none ↦ known ns | some id ↦ id ∷ known ns ]

  abbrev all_added : List ℕ → Bool
  all_added [] = true
  all_added (id ∷ ids) = bgpm.add_event id && all_added ids

  -- Whether every call of `arch_pmu_init` succeeds, given the events to add.
  abbrev pub set_up : List ℕ → Bool
  set_up ids = bgpm.init && bgpm.create_event_set && all_added ids && bgpm.apply

  known-cases :
      (n : List ℕ) (ns : List (List ℕ)) (o : Option ℕ)
      → find_event n (events bgpm) ≡ o
      → known (n ∷ ns) ≡ elim o [ none ↦ known ns | some id ↦ id ∷ known ns ]
  unfolding known
  known-cases n ns none e = rw (known, e) refl
  known-cases n ns (some id) e = rw (known, e) refl

  abbrev outcome : List ℕ → List ℕ → Ending (List ℕ)
  outcome set ids = if all_added ids then returned (set ++ ids) else exit_failure

  add_one-outcome :
      (o : Option ℕ) (ids set : List ℕ)
      → (add_one bgpm o set >>= λ s. outcome s ids)
        ≡ outcome set (elim o [ none ↦ ids | some id ↦ id ∷ ids ])
  add_one-outcome none ids set = refl
  add_one-outcome (some id) ids set = elim (Bool-cases (bgpm.add_event id)) [
    | inl added ↦ rw added (
        ap (λ s. if all_added ids then returned s else exit_failure)
          (append_assoc set (id ∷ []) ids))
    | inr refused ↦ rw refused refl
  ]

  add_all-known :
      (names : List (List ℕ)) (set : List ℕ) → add_all bgpm names set ≡ outcome set (known names)
  unfolding add_all known
  add_all-known [] set = ap returned (sym (append-nil set))
  add_all-known (n ∷ ns) set =
      (λ i. add_one bgpm (find_event n (events bgpm)) set >>= λ s. add_all-known ns s i)
      ∙ add_one-outcome (find_event n (events bgpm)) (known ns) set

  set_up-returned :
      (b c : Bool) (ids : List ℕ) {m : Ending (List ℕ)}
      → m ≡ outcome [] ids
      → (check b >>= λ _.
          check c >>= λ _. m >>= λ set. check bgpm.apply >>= λ _. returned (some set))
        ≡ (if b && c && all_added ids && bgpm.apply then returned (some ids) else exit_failure)
  set_up-returned false c ids e = refl
  set_up-returned true false ids e = refl
  set_up-returned true true ids e =
      ap (λ m. m >>= λ set. check bgpm.apply >>= λ _. returned (some set)) e
      ∙ applied (all_added ids) bgpm.apply
    where
      applied :
          (a p : Bool)
          → ((if a then returned ids else exit_failure) >>= λ set.
              check p >>= λ _. returned (some set))
            ≡ (if a && p then returned (some ids) else exit_failure)
      applied true true = refl
      applied true false = refl
      applied false p = refl

  -- `arch_pmu_init` gives NULL when no counter is asked for. Otherwise it ends the program if a call
  -- of BGPM fails, and if none does it returns a set of the known events, in the order of their names.
  pub arch_pmu_init-known :
      (name : List ℕ) (names : List (List ℕ))
      → (arch_pmu_init bgpm [] ≡ returned none)
        × (arch_pmu_init bgpm (name ∷ names) ≡ (
            if set_up (known (name ∷ names))
            then returned (some (known (name ∷ names)))
            else exit_failure))
  unfolding arch_pmu_init
  arch_pmu_init-known name names = (
    refl,
    set_up-returned bgpm.init bgpm.create_event_set (known (name ∷ names))
        (add_all-known (name ∷ names) []),
  )

  returned_inj : {f g : ℕ → ℕ} → returned f ≡ returned g → g ≡ f
  returned_inj e = cc

  -- Where `arch_pmu_end` returns it has stored at most one count, whatever the number of events of
  -- the set: no cell but the first is ever written.
  arch_pmu_end-first :
      (set : Option (List ℕ)) (d d' : ℕ → ℕ) (k : ℕ)
      → arch_pmu_end bgpm set d ≡ returned d'
      → 0 < k
      → d' k ≡ d k
  unfolding arch_pmu_end
  arch_pmu_end-first none d d' k e pos = ap (λ f. f k) (returned_inj e)
  arch_pmu_end-first (some set) d d' k e pos = stored bgpm.stop bgpm.read_event e
    where
      stored :
          (b : Bool) (o : Option ℕ)
          → (check b >>= λ _. elim o [
            | none ↦ exit_failure
            | some count ↦ returned (set_at d 0 count)
          ])
            ≡ returned d'
          → d' k ≡ d k
      stored false o e = cc
      stored true none e = cc
      stored true (some count) e = ap (λ f. f k) (returned_inj e) ∙ ground arith
