-- ===== src/Result.antt =====
-- `benchmark_result_t` of src/main.cc, the array that the workers of a run fill with their samples:
-- its allocation, the loop of `worker` (src/worker.c) that writes a sample for each repetition, and
-- `result_print`. Products of `unsigned` wrap at 2 ^ 32, those with `sizeof` at 2 ^ 64.
pub mod Row
pub mod Rounds
pub mod Table
mod Examples
use hwvar.Base.{
  ℕ, zero, suc, ◌+◌, ◌-◌, ◌*◌, ◌/◌, Bool, Option, none, some, List, [], ◌∷◌, ◌++◌, map,
  if◌then◌else◌, ltb, ◌==◌, get_elem?, set, u32, u64, sub32, sub64,
}

pub record Result : Type 0 where
  pub data' : List ℕ
  pub threads : ℕ
  pub repetitions : ℕ
  pub counters : ℕ

-- What the hardware shows around one call: the two timestamps, and what `arch_pmu_end` leaves in
-- the counter cells.
pub record Probe : Type 0 where
  pub start : ℕ
  pub finish : ℕ
  pub counts : List ℕ

-- `n` words of memory from `malloc`, with what they happen to hold.
abbrev pub memory : (ℕ → ℕ) → ℕ → ℕ → List ℕ
memory old zero i = []
memory old (suc n) i = old i ∷ memory old n (i + 1)

-- `result_alloc`, for a `malloc` that succeeds.
unfoldable pub result_alloc : (ℕ → ℕ) → ℕ → ℕ → ℕ → Result
result_alloc old threads repetitions num_counters = record {
  data' = memory old (u64 (8 * threads * repetitions * num_counters) / 8) 0;
  threads = threads;
  repetitions = repetitions;
  counters = sub32 num_counters 1;
}

-- The cells from `at` on, one after another.
unfoldable pub write_cells : List ℕ → ℕ → List ℕ → List ℕ
write_cells d at [] = d
write_cells d at (v ∷ vs) = write_cells (set d at v) (at + 1) vs

-- One round of the measuring loop of `worker`, with `work->result` at index `base`. `arch_pmu_end`
-- stores its counts first, then the elapsed time goes in front of them.
unfoldable pub worker_rep : ℕ → ℕ → ℕ → Probe → List ℕ → List ℕ
unfolding write_cells
worker_rep base num_pmcs rep p d =
    let offset = u32 (u32 (num_pmcs + 1) * rep) in
    set (write_cells d (base + (offset + 1)) p.counts) (base + offset) (sub64 p.finish p.start)

-- The index at which the three `run_…` functions of main.cc let thread `i` begin.
unfoldable pub result_base : ℕ → ℕ → ℕ → ℕ
result_base i repetitions num_pmcs = u32 (u32 (i * repetitions) * num_pmcs)

-- The index that `result_print` reads.
unfoldable pub print_index : Result → ℕ → ℕ → ℕ → ℕ
print_index r thread rep counter = u32 (
    u32 (u32 (thread * r.repetitions) * u32 (r.counters + 1))
    + u32 (u32 (r.counters + 1) * rep)
    + counter)

-- A line of the output: the name of a counter, or the samples of a thread behind its processor.
-- A sample read out of range is `none`.
pub data Line : Type 0 where
  header : Option (List ℕ) → Line
  row : Option ℕ → List (Option ℕ) → Line

module _ (r : Result) (next : Option ℕ → Option ℕ) (pmcs : List (List ℕ)) (num_pmcs : ℕ) where
  -- The innermost loop, with `left` repetitions to go.
  unfoldable pub print_reps : ℕ → ℕ → ℕ → ℕ → List (Option ℕ)
  unfolding print_index
  print_reps counter thread zero rep = []
  print_reps counter thread (suc left) rep =
      get_elem? r.data' (print_index r thread rep counter)
      ∷ print_reps counter thread left (rep + 1)

  -- The loop over the threads. `next` is `hwloc_bitmap_next` on the set of processors, with `none`
  -- for -1.
  unfoldable pub print_threads : ℕ → ℕ → ℕ → Option ℕ → List Line
  unfolding print_reps
  print_threads counter zero thread cpu = []
  print_threads counter (suc left) thread cpu =
      row (next cpu) (print_reps counter thread r.repetitions 0)
      ∷ print_threads counter left (thread + 1) (next cpu)

  abbrev counter_header : ℕ → List Line
  counter_header zero = []
  counter_header (suc k) = if ltb k num_pmcs then header (get_elem? pmcs k) ∷ [] else []

  unfoldable pub print_counters : ℕ → ℕ → List Line
  unfolding print_threads
  print_counters zero counter = []
  print_counters (suc left) counter =
      counter_header counter
      ++ (print_threads counter r.threads 0 none ++ print_counters left (counter + 1))

  -- `result_print`; `none` is the failure of its `assert`.
  unfoldable pub result_print : Option (List Line)
  unfolding print_counters
  result_print =
      if num_pmcs == r.counters then some (print_counters (u32 (r.counters + 1)) 0) else none
