-- ===== src/Spawn.antt =====
-- `spawn_workers` of src/main.cc: it picks the processors of a set and makes a worker for each.
-- hwloc and pthreads are parameters.
pub mod Workers
mod Examples
use hwvar.Base.{
  ℕ, zero, suc, ◌+◌, Bool, true, false, not, ◌&&◌, Option, none, some, List, [], ◌∷◌, if◌then◌else◌,
  ltb, ◌==◌,
}
use hwvar.Mailbox.{State, Arg}

-- What the program uses of hwloc's bitmaps. `first` is -1, here `none`, on the empty set.
pub record Bitmaps : Type 1 where
  pub Bitmap : Type 0
  pub empty : Bitmap
  pub singlify : Bitmap → Bitmap
  pub is_included : Bitmap → Bitmap → Bool
  pub first : Bitmap → Option ℕ
  pub add : Bitmap → ℕ → Bitmap
  pub weight : Bitmap → ℕ

-- How `spawn_workers` ends: with workers and the set of their processors, with NULL, by `exit`,
-- or by a failed assertion.
pub data Spawned (B : Type 0) : Type 0 where
  spawned : List Arg → B → Spawned B
  no_thread exit_failure failed_assert : Spawned B

module _ (hwloc : Bitmaps) where
  open hwloc use {Bitmap, empty, singlify, is_included, first, add, weight}

  abbrev pub put_first : Arg → Spawned Bitmap → Spawned Bitmap
  put_first a (spawned as' b) = spawned (a ∷ as') b
  put_first a s = s

  -- `obj pu` is the set of `hwloc_get_obj_by_type (topology, type, pu)`, and `none` where that is
  -- NULL; `created i` tells whether `pthread_create` succeeds for thread `i`; `memory i` is what
  -- the uninitialised `init` of its `struct arg` holds.
  module _ (obj : ℕ → Option Bitmap) (created memory : ℕ → Bool) (do_binding : Bool)
      (cpuset : Bitmap) where
    abbrev pub worker_arg : ℕ → ℕ → Arg
    worker_arg i cpunum = record {
      work = none;
      s = State.idle;
      run = true;
      init = memory i;
      dirigent = i == 0;
      thread = i;
      cpu = cpunum;
      do_binding = do_binding;
    }

    -- The loop with `left` objects to go, the next being `pu`, after `i` workers.
    unfoldable pub spawn_loop : ℕ → ℕ → ℕ → Bitmap → Spawned Bitmap
    spawn_loop zero pu i allocated = spawned [] allocated
    spawn_loop (suc left) pu i allocated = elim (obj pu) [
      | none ↦ exit_failure
      | some c ↦ elim (is_included (singlify c) cpuset) [
        | false ↦ spawn_loop left (pu + 1) i allocated
        | true ↦ elim (first (singlify c)) [
          | none ↦ exit_failure
          | some cpunum ↦ elim (ltb 0 i && not (created i)) [
            | true ↦ no_thread
            | false ↦
                put_first (worker_arg i cpunum)
                  (spawn_loop left (pu + 1) (i + 1) (add allocated cpunum))
          ]
        ]
      ]
    ]

    abbrev pub check_weight : Spawned Bitmap → Spawned Bitmap
    check_weight (spawned as' b) =
        if weight b == weight cpuset then spawned as' b else failed_assert
    check_weight s = s

    -- `num_threads` is the number of objects, and the length of the array of threads.
    unfoldable pub spawn_workers : ℕ → Spawned Bitmap
    unfolding spawn_loop
    spawn_workers num_threads = check_weight (spawn_loop num_threads 0 0 empty)
