-- ===== src/Result/Table.antt =====
-- `result_print` after a run: what it prints is what the threads measured.
use hwvar.Base.{
  ℕ, zero, suc, ◌+◌, ◌*◌, ◌/◌, ◌≤◌, ◌<◌, ◌^◌, Option, none, some, List, [], ◌∷◌, ◌++◌, ◌≡◌, refl,
  arith, length, get_elem?, get_or, get_elem?-eq-get_or, u32, u64, sub32, ◌∙◌, ap, ap₂,
  if◌then◌else◌, ◌==◌,
}
use hwvar.Result.{
  Result, Probe, Line, header, row, print_index, print_reps, print_threads, print_counters,
  result_print, result_alloc, memory, counter_header,
}
use hwvar.Result.Row.{sample, row_end, u32_products}
use hwvar.Result.Rounds.{Round, rounds, Schedule, rounds-row}

-- The number in column `c` of a sample: the elapsed time in column 0, then the counts.
abbrev pub column : Probe → ℕ → ℕ
column p c = get_or (sample p) c 0

abbrev pub block_header : List (List ℕ) → ℕ → List Line
block_header pmcs zero = []
block_header pmcs (suc k) = header (get_elem? pmcs k) ∷ []

-- The table that a reader expects, written from the samples alone.
module _ (threads reps : ℕ) (probe : ℕ → ℕ → Probe) (next : Option ℕ → Option ℕ)
    (pmcs : List (List ℕ)) where
  pub measured : ℕ → ℕ → ℕ → ℕ → List (Option ℕ)
  measured c t zero r = []
  measured c t (suc left) r = some (column (probe t r) c) ∷ measured c t left (r + 1)

  pub measured_rows : ℕ → ℕ → ℕ → Option ℕ → List Line
  unfolding measured
  measured_rows c zero t cpu = []
  measured_rows c (suc left) t cpu =
      row (next cpu) (measured c t reps 0) ∷ measured_rows c left (t + 1) (next cpu)

  -- The first block is the elapsed time and has no header, the others have the counter's name.
  pub measured_blocks : ℕ → ℕ → List Line
  unfolding measured_rows
  measured_blocks zero c = []
  measured_blocks (suc left) c =
      block_header pmcs c ++ (measured_rows c threads 0 none ++ measured_blocks left (c + 1))

length-memory : (old : ℕ → ℕ) (n i : ℕ) → length (memory old n i) ≡ n
length-memory old zero i = refl
length-memory old (suc n) i = ap suc (length-memory old n (i + 1))

-- `result_alloc` makes room for a row of every thread and repetition, and no more.
pub length-result_alloc :
    (old : ℕ → ℕ) (threads reps cols : ℕ)
    → threads * reps * cols < 2 ^ 32
    → length (result_alloc old threads reps cols).data' ≡ threads * reps * cols
unfolding result_alloc
length-result_alloc old threads reps cols fits =
    length-memory old (u64 (8 * threads * reps * cols) / 8) 0 ∙ omega arith

module _ (threads reps cols : ℕ) (fits : threads * reps * cols < 2 ^ 32) (pos : 0 < cols)
    (r : Result) (shape_reps : r.repetitions ≡ reps) (shape_cols : r.counters + 1 ≡ cols) where
  print_index-row :
      (t rep c : ℕ)
      → t < threads
      → rep < reps
      → c < cols
      → print_index r t rep c ≡ (t * reps + rep) * cols + c
  unfolding print_index
  print_index-row t rep c ht hr hc =
      let (a, b, d, e) = u32_products threads reps cols t rep fits pos ht hr in
      let end = row_end threads reps cols t rep ht hr in
      rw (shape_reps, shape_cols, a, b, d, e) (omega arith)

  module _ (probe : ℕ → ℕ → Probe) (next : Option ℕ → Option ℕ) (pmcs : List (List ℕ))
      (shape_threads : r.threads ≡ threads) (word : cols < 2 ^ 32)
      (cells : (t rep c : ℕ)
        → t < threads
        → rep < reps
        → c < cols
        → get_elem? r.data' ((t * reps + rep) * cols + c) ≡ some (column (probe t rep) c)) where
    print_reps-measured :
        (c t left rep : ℕ)
        → c < cols
        → t < threads
        → rep + left ≤ reps
        → print_reps r next pmcs (sub32 cols 1) c t left rep
          ≡ measured threads reps probe next pmcs c t left rep
    unfolding print_reps measured
    print_reps-measured c t zero rep hc ht h = refl
    print_reps-measured c t (suc left) rep hc ht h =
        ap₂ ◌∷◌
          (ap (get_elem? r.data') (print_index-row t rep c ht (omega arith) hc)
            ∙ cells t rep c ht (omega arith) hc)
          (print_reps-measured c t left (rep + 1) hc ht (omega arith))

    print_threads-measured :
        (c left t : ℕ) (cpu : Option ℕ)
        → c < cols
        → t + left ≤ threads
        → print_threads r next pmcs (sub32 cols 1) c left t cpu
          ≡ measured_rows threads reps probe next pmcs c left t cpu
    unfolding print_threads measured_rows
    print_threads-measured c zero t cpu hc h = refl
    print_threads-measured c (suc left) t cpu hc h =
        ap₂ ◌∷◌
          (ap (row (next cpu)) (
            ap (λ n. print_reps r next pmcs (sub32 cols 1) c t n 0) shape_reps
            ∙ print_reps-measured c t reps 0 hc (omega arith) (omega arith)))
          (print_threads-measured c left (t + 1) (next cpu) hc (omega arith))

    print_counters-measured :
        (left c : ℕ)
        → c + left ≤ cols
        → print_counters r next pmcs (sub32 cols 1) left c
          ≡ measured_blocks threads reps probe next pmcs left c
    unfolding print_counters measured_blocks
    print_counters-measured zero c h = refl
    print_counters-measured (suc left) c h = ap₂ ◌++◌ (same_header c (omega arith)) (
        ap₂ ◌++◌
          (ap (λ n. print_threads r next pmcs (sub32 cols 1) c n 0 none) shape_threads
            ∙ print_threads-measured c threads 0 none (omega arith) (omega arith))
          (print_counters-measured left (c + 1) (omega arith)))
      where
        same_header :
            (c : ℕ) → c < cols → counter_header r next pmcs (sub32 cols 1) c ≡ block_header pmcs c
        same_header zero h = refl
        same_header (suc k) h = ground arith

if_eq {ℓ} : {A : Type ℓ} (n : ℕ) (a b : A) → (if n == n then a else b) ≡ a
if_eq n a b = ground arith

-- A run of `threads` workers over `reps` repetitions with `cols - 1` counters.
abbrev pub filled : (ℕ → ℕ) → ℕ → ℕ → ℕ → (ℕ → ℕ → Probe) → List Round → Result
filled old threads reps cols probe xs =
    let r = result_alloc old threads reps cols in
    record r { data' = rounds reps cols probe xs r.data' }

-- Whatever the memory held, and in whatever order the rounds of the workers fall: if every thread
-- makes each of its rounds, and none but those, the assertion of `result_print` holds and it prints,
-- for each counter and thread, the samples of that thread in the order of the repetitions, none
-- read out of range and none lost or mixed up. The array has less than 2 ^ 32 cells, so that the
-- indices do not wrap, and each sample has a count for every counter.
pub result_print-measured :
    (old : ℕ → ℕ) (threads reps cols : ℕ) (probe : ℕ → ℕ → Probe) (xs : List Round)
    (next : Option ℕ → Option ℕ) (pmcs : List (List ℕ))
    → threads * reps * cols < 2 ^ 32
    → 0 < cols
    → cols < 2 ^ 32
    → ((t r : ℕ) → t < threads → r < reps → length (sample (probe t r)) ≡ cols)
    → Schedule threads reps xs
    → result_print (filled old threads reps cols probe xs) next pmcs (sub32 cols 1)
      ≡ some (measured_blocks threads reps probe next pmcs cols 0)
unfolding result_print result_alloc
result_print-measured old threads reps cols probe xs next pmcs fits pos word full sch =
    if_eq (sub32 cols 1) _ _
    ∙ ap some (
        ap (λ n. print_counters done next pmcs (sub32 cols 1) n 0) blocks
        ∙ print_counters-measured threads reps cols fits pos done refl (omega arith) probe next pmcs
            refl word cells cols 0 (omega arith))
  where
    done : Result
    done = filled old threads reps cols probe xs

    blocks : u32 (sub32 cols 1 + 1) ≡ cols
    blocks = omega arith

    cells :
        (t rep c : ℕ)
        → t < threads
        → rep < reps
        → c < cols
        → get_elem? done.data' ((t * reps + rep) * cols + c) ≡ some (column (probe t rep) c)
    cells t rep c ht hr hc =
        rounds-row threads reps cols probe fits full xs (record { thread = t; rep = rep })
          (result_alloc old threads reps cols).data' sch.within
          (length-result_alloc old threads reps cols fits) (sch.complete t rep ht hr) c hc
        ∙ get_elem?-eq-get_or (sample (probe t rep)) c 0 (rw (full t rep ht hr) hc)
