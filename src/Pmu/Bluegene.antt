-- ===== src/Pmu/Bluegene.antt =====
-- The counters of Blue Gene/Q in include/arch.h, with HAVE_BGPM. What the library BGPM answers is a
-- parameter; a set of events is the list of the events that were added to it.
pub mod Calls
mod Examples
use hwvar.Base.{ℕ, Bool, true, false, Option, none, some, List, [], ◌∷◌, ◌++◌, if◌then◌else◌, codes}
use hwvar.Pmu.Events.{set_at, Event, find_event, Ending, returned, exit_failure, ◌>>=◌}

-- The identifiers of two events, whether each call succeeds, and the count that `Bgpm_ReadEvent`
-- stores.
pub record Bgpm : Type 0 where
  pub pevt_lsu_commit_ld_misses : ℕ
  pub pevt_l2_misses : ℕ
  pub init : Bool
  pub create_event_set : Bool
  pub add_event : ℕ → Bool
  pub apply : Bool
  pub delete_event_set : Bool
  pub disable : Bool
  pub reset : Bool
  pub start : Bool
  pub stop : Bool
  pub read_event : Option ℕ

abbrev pub check : Bool → Ending (Unit {0})
check true = returned tt
check false = exit_failure

module _ (bgpm : Bgpm) where
  open bgpm use {
    pevt_lsu_commit_ld_misses, pevt_l2_misses, init, create_event_set, add_event, apply,
    delete_event_set, disable, reset, start, stop, read_event,
  }

  -- `events`
  abbrev pub events : List Event
  events =
      record { name = codes "PEVT_LSU_COMMIT_LD_MISSES"; code = pevt_lsu_commit_ld_misses }
      ∷ record { name = codes "PEVT_L2_MISSES"; code = pevt_l2_misses }
      ∷ []

  -- One round of the loop over the names.
  abbrev pub add_one : Option ℕ → List ℕ → Ending (List ℕ)
  add_one none set = returned set
  add_one (some id) set = check (add_event id) >>= λ _. returned (set ++ id ∷ [])

  unfoldable pub add_all : List (List ℕ) → List ℕ → Ending (List ℕ)
  unfolding find_event
  add_all [] set = returned set
  add_all (name ∷ names) set = add_one (find_event name events) set >>= add_all names

  -- `arch_pmu_init`, for a `malloc` that succeeds; `none` is NULL.
  unfoldable pub arch_pmu_init : List (List ℕ) → Ending (Option (List ℕ))
  unfolding add_all
  arch_pmu_init [] = returned none
  arch_pmu_init (name ∷ names) = check init >>= λ _. check create_event_set >>= λ _.
      add_all (name ∷ names) [] >>= λ set. check apply >>= λ _. returned (some set)

  unfoldable pub arch_pmu_free : Option (List ℕ) → Ending (Unit {0})
  arch_pmu_free none = returned tt
  arch_pmu_free (some set) = check delete_event_set >>= λ _. check disable

  unfoldable pub arch_pmu_begin : Option (List ℕ) → Ending (Unit {0})
  arch_pmu_begin none = returned tt
  arch_pmu_begin (some set) = check reset >>= λ _. check start

  -- What becomes of the cells of `data`.
  unfoldable pub arch_pmu_end : Option (List ℕ) → (ℕ → ℕ) → Ending (ℕ → ℕ)
  arch_pmu_end none d = returned d
  arch_pmu_end (some set) d = check stop >>= λ _. elim read_event [
    | none ↦ exit_failure
    | some count ↦ returned (set_at d 0 count)
  ]
